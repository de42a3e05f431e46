-- ===== src/Client/Handshake.antt =====
-- `run_client` of src/client.rs, from the greeting to the test.
use btest_rs.Base.{ℕ, Bool, Option, some, Bytes, bytes_eq, if◌then◌else◌}
use btest_rs.Protocol.{cmd_proto_udp, cmd_proto_tcp, auth_ok, auth_required, auth_ecsrp5}
use btest_rs.Protocol.Command
use btest_rs.Protocol.Command.{Command}
use btest_rs.Stream
use btest_rs.Stream.{Exchange, ◌>>=◌, ◌>>◌, pure, raise, recv_hello, send_command, recv_response}
use btest_rs.Auth.{client_authenticate}

unfoldable pub command : Bool → ℕ → ℕ → ℕ → Command
unfolding Command.new
command use_udp direction tx_speed rx_speed =
    record (Command.new (if use_udp then cmd_proto_udp else cmd_proto_tcp) direction) {
      local_tx_speed = tx_speed;
      remote_tx_speed = rx_speed;
    }

-- Without both a name and a password the client cannot answer.
abbrev pub with_credentials :
    Option Bytes → Option Bytes → (Bytes → Bytes → Exchange {0} Unit) → Exchange {0} Unit
with_credentials (some user) (some pass) f = f user pass
with_credentials _ _ f = raise Stream.protocol

-- The exchange of src/ecsrp5.rs is an argument.
module _ (md5 : Bytes → Bytes) (ecsrp5_authenticate : Bytes → Bytes → Exchange {0} Unit) where
  -- After EC-SRP5 the server sends `AUTH_OK`.
  unfoldable pub ecsrp5_then_ok : Bytes → Bytes → Exchange {0} Unit
  ecsrp5_then_ok user pass = do
    ecsrp5_authenticate user pass
    post_auth ← recv_response
    if bytes_eq post_auth auth_ok then pure tt else raise Stream.protocol

  unfoldable pub answer : Bytes → Option Bytes → Option Bytes → Exchange {0} Unit
  unfolding ecsrp5_then_ok
  answer resp auth_user auth_pass =
      if bytes_eq resp auth_ok
      then pure tt
      else if bytes_eq resp auth_required
      then with_credentials auth_user auth_pass (client_authenticate md5 resp)
      else if bytes_eq resp auth_ecsrp5
      then with_credentials auth_user auth_pass ecsrp5_then_ok
      else raise Stream.protocol

  -- The command that the test goes on with.
  unfoldable pub run_client : Bool → ℕ → ℕ → ℕ → Option Bytes → Option Bytes → Exchange Command
  unfolding answer command
  run_client use_udp direction tx_speed rx_speed auth_user auth_pass = do
    recv_hello
    let cmd = command use_udp direction tx_speed rx_speed
    send_command cmd
    resp ← recv_response
    answer resp auth_user auth_pass
    pure cmd
