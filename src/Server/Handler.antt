-- ===== src/Server/Handler.antt =====
-- `handle_client` of src/server.rs, from the greeting to the test.
pub mod Login
pub mod EcSrp5Login
pub mod Ending
mod Tests
use btest_rs.Base.{ℕ, Bool, ◌&&◌, not, List, Option, none, some, Bytes, if◌then◌else◌}
use btest_rs.Protocol.{auth_ecsrp5}
use btest_rs.Protocol.Command
use btest_rs.Protocol.Command.{Command}
use btest_rs.Protocol.Token.{is_tcp_multi, ok_response, token_of, joined_reply}
use btest_rs.Stream
use btest_rs.Stream.{
  BtestError, Stream, Outcome, ok, err, Exchange, ◌>>=◌, ◌>>◌, read_exact, write_all, send_hello,
}
use btest_rs.Auth.{server_authenticate}
use btest_rs.Server.Sessions.{SessionMap, join_by_token, any_room, register}

-- One connection: its number, its address, and what the handler draws for it.
pub record Client : Type 0 where
  pub id : ℕ
  pub ip : Bytes
  pub challenge : Bytes
  pub token : ℕ  -- `rand::random::<u16>() | 0x0101`

-- How the handler ends, or what it goes on with: an error, a place in a session, a place in one of
-- the sessions that then have room, or one of the three tests.
pub data Handled : Type 0 where
  failed : BtestError → Handled
  joined : Handled
  joins_by_address : Handled
  udp_test : Command → Handled
  multi_test : Command → ℕ → Handled
  tcp_test : Command → Handled

-- The test, with the session of several connections registered.
unfoldable pub start_test : Client → Command → SessionMap → SessionMap × Handled
unfolding register is_tcp_multi
start_test n c sessions =
    if Command.is_udp c
    then (sessions, udp_test c)
    else if is_tcp_multi c
    then (register n.token n.ip c.tcp_conn_count sessions, multi_test c n.token)
    else (sessions, tcp_test c)

-- The server's settings; the exchange of src/ecsrp5.rs is an argument, `none` without credentials.
module _ (md5 : Bytes → Bytes) (auth_user auth_pass : Option Bytes)
    (ecsrp5 : Option (Exchange {0} Unit)) where
  -- The authentication of a primary connection.
  unfoldable pub primary_auth : Option (Exchange {0} Unit) → Client → Command → Exchange {0} Unit
  primary_auth none n c =
      server_authenticate md5 auth_user auth_pass n.challenge (ok_response c n.token)
  primary_auth (some exchange) n c =
      write_all auth_ecsrp5 >> exchange >> write_all (ok_response c n.token)

  unfoldable pub handle_command : Client → Command → Stream → SessionMap → SessionMap × Handled
  unfolding primary_auth start_test is_tcp_multi
  handle_command n c s sessions =
      if Command.is_invalid c
      then (sessions, failed Stream.invalid_command)
      else if is_tcp_multi c && any_room n.ip sessions
      then elim (server_authenticate md5 auth_user auth_pass n.challenge (ok_response c n.token)
          s) [ err e s' ↦ (sessions, failed e) | ok _ s' ↦ (sessions, joins_by_address) ]
      else elim (primary_auth ecsrp5 n c s) [
        | err e s' ↦ (sessions, failed e)
        | ok _ s' ↦ start_test n c sessions
      ]

  -- A connection with the token of a session joins it by the reply alone.
  unfoldable pub join_or_command :
      Option SessionMap → Client → Bytes → Stream → SessionMap → SessionMap × Handled
  unfolding handle_command
  join_or_command none n cmd_buf s sessions =
      handle_command n (Command.deserialize cmd_buf) s sessions
  join_or_command (some sessions') n cmd_buf s sessions =
      elim (write_all (joined_reply cmd_buf) s) [
        | err e s' ↦ (sessions, failed e)
        | ok _ s' ↦ (sessions', joined)
      ]

  unfoldable pub handle_client : Client → Stream → SessionMap → SessionMap × Handled
  unfolding join_or_command
  handle_client n stream sessions = elim ((send_hello >> read_exact 16) stream) [
    | err e s ↦ (sessions, failed e)
    | ok cmd_buf s ↦
        join_or_command (join_by_token n.id n.ip (token_of cmd_buf) sessions) n cmd_buf s sessions
  ]
