-- ===== src/Server/Handler/Login.antt =====
-- Which connections `handle_client` of src/server.rs gives a test.
use btest_rs.Base.{
  ◌≡◌, ◌∙◌, Bool, false, Option, none, some, ◌++◌, Bytes, length, if◌then◌else◌, arith,
}
use btest_rs.Protocol.{hello}
use btest_rs.Protocol.Command
use btest_rs.Protocol.Command.{Command}
use btest_rs.Protocol.Token.{ok_response, token_of}
use btest_rs.Stream
use btest_rs.Stream.{
  Stream, Exchange, Outcome, ok, err, send_hello, read_exact, write_all, ◌>>◌, ◌>>=◌,
}
use btest_rs.Stream.Laws.{open_stream, read_exact_prefix}
use btest_rs.Auth.{server_authenticate}
use btest_rs.Auth.Decision.{accepts, server_decides}
use btest_rs.Server.Sessions.{SessionMap, join_by_token, any_room}
use btest_rs.Server.Handler.{
  Client, failed, handle_client, handle_command, join_or_command, primary_auth, start_test,
}

module _ (md5 : Bytes → Bytes) (user : Option Bytes) (pass : Bytes) (n : Client) (c : Command) where
  command_decides :
      (s : Stream) (sessions : SessionMap) (accepted : Bool) (s' s'' : Stream)
      → Command.is_invalid c ≡ false
      → any_room n.ip sessions ≡ false
      → server_authenticate md5 user (some pass) n.challenge (ok_response c n.token) s
        ≡ (if accepted then ok tt s' else err Stream.auth_failed s'')
      → handle_command md5 user (some pass) none n c s sessions
        ≡ (if accepted then start_test n c sessions else (sessions, failed Stream.auth_failed))
  unfolding handle_command primary_auth
  command_decides s sessions accepted s' s'' valid full decided = ground arith

-- After the greeting, a connection that joins no session goes on with its command.
pub greeted :
    (md5 : Bytes → Bytes) (user pass : Option Bytes) (ecsrp5 : Option (Exchange {0} Unit))
    (n : Client) (s : Stream) {s' : Stream} {cmd_buf : Bytes} (sessions : SessionMap)
    → (send_hello >> read_exact 16) s ≡ ok cmd_buf s'
    → join_by_token n.id n.ip (token_of cmd_buf) sessions ≡ none
    → handle_client md5 user pass ecsrp5 n s sessions
      ≡ handle_command md5 user pass ecsrp5 n (Command.deserialize cmd_buf) s' sessions
unfolding handle_client join_or_command
greeted md5 user pass ecsrp5 n s sessions read none_waits = ground arith

pub greeting :
    (cmd_buf rest w : Bytes)
    → length cmd_buf ≡ 16
    → (send_hello >> read_exact 16) (open_stream (cmd_buf ++ rest) w)
      ≡ ok cmd_buf (open_stream rest (w ++ hello))
unfolding send_hello write_all
greeting cmd_buf rest w h = read_exact_prefix 16 cmd_buf rest (w ++ hello) h

-- On a server with a password and without EC-SRP5, a connection with a valid command and a
-- response of 48 bytes, whose first bytes are the token of no session it can join and whose
-- address no session has room for, gets its test exactly when the response is accepted. Otherwise
-- it ends in the error of a failed authentication, with the sessions as they were.
pub handle_client_decides :
    (md5 : Bytes → Bytes) (user : Option Bytes) (pass : Bytes) (n : Client)
    (cmd_buf response rest w : Bytes) (sessions : SessionMap)
    → length cmd_buf ≡ 16
    → length response ≡ 48
    → join_by_token n.id n.ip (token_of cmd_buf) sessions ≡ none
    → any_room n.ip sessions ≡ false
    → let c = Command.deserialize cmd_buf in
      Command.is_invalid c ≡ false
      → handle_client md5 user
          (some pass)
          none
          n
          (open_stream (cmd_buf ++ (response ++ rest)) w)
          sessions
        ≡ (if accepts md5 user pass n.challenge response
            then start_test n c sessions
            else (sessions, failed Stream.auth_failed))
handle_client_decides md5 user pass n cmd_buf response rest w sessions h h' none_waits full valid =
    greeted md5 user (some pass) none n (open_stream (cmd_buf ++ (response ++ rest)) w) sessions
      (greeting cmd_buf (response ++ rest) w h) none_waits
    ∙ command_decides md5 user pass n (Command.deserialize cmd_buf)
        (open_stream (response ++ rest) (w ++ hello)) sessions
        (accepts md5 user pass n.challenge response) _ _ valid full
        (server_decides md5 user pass n.challenge
          (ok_response (Command.deserialize cmd_buf) n.token) response rest (w ++ hello) h')
