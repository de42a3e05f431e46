-- ===== src/Server/Handler/EcSrp5Login.antt =====
-- Which connections `handle_client` of src/server.rs gives a test after the exchange of
-- src/ecsrp5.rs.
use btest_rs.Base.{
  ℕ, ◌≡◌, ◌<◌, ◌∙◌, refl, Bool, true, false, not, ◌==◌, ◌&&◌, Option, some, none, ◌++◌, Bytes,
  length, bytes_eq, if◌then◌else◌,
}
use btest_rs.Protocol.{hello, auth_ecsrp5}
use btest_rs.Protocol.Command
use btest_rs.Protocol.Command.{Command}
use btest_rs.Protocol.Token.{is_tcp_multi, token_of}
use btest_rs.Stream
use btest_rs.Stream.{Stream, Exchange, Outcome, ok, err, write_all}
use btest_rs.Stream.Laws.{open_stream}
use btest_rs.Server.Sessions.{SessionMap, join_by_token, any_room}
use btest_rs.Server.Handler.{
  Client, failed, handle_client, handle_command, primary_auth, start_test,
}
use btest_rs.Server.Handler.Login.{greeted, greeting}
use btest_rs.EcSrp5.Point.{Point}
use btest_rs.EcSrp5.Curve.{redp1}
use btest_rs.EcSrp5.Exchange.{
  Crypto, EcSrp5Credentials, framed, curve, client_cc, client_message, server_key, server_secret,
  server_authenticate,
}
use btest_rs.EcSrp5.ServerEnd.{IsUsername, server_authenticate_decides}

no_second {ℓ} : {A : Type ℓ} (b : Bool) (x y : A) → (if b && false then x else y) ≡ y
no_second true x y = refl
no_second false x y = refl

module _ (md5 : Bytes → Bytes) (user pass : Option Bytes) (n : Client) (sessions : SessionMap)
    (full : any_room n.ip sessions ≡ false) where
  exchange_decides :
      (exchange : Exchange {0} Unit) (command : Command) (rest rest' w w' : Bytes) (accepted : Bool)
      (w'' : Bytes)
      → Command.is_invalid command ≡ false
      → exchange (open_stream rest (w ++ auth_ecsrp5)) ≡ (
          if accepted
          then ok tt (open_stream rest' w')
          else err Stream.auth_failed (open_stream rest' w''))
      → handle_command md5 user pass (some exchange) n command (open_stream rest w) sessions ≡ (
          if accepted then start_test n command sessions else (sessions, failed Stream.auth_failed))
  unfolding handle_command primary_auth write_all
  exchange_decides exchange command rest rest' w w' true w'' valid decided =
      rw (valid, full, decided) (no_second (is_tcp_multi command) _ _)
  exchange_decides exchange command rest rest' w w' false w'' valid decided =
      rw (valid, full, decided) (no_second (is_tcp_multi command) _ _)

  -- On a server with EC-SRP5, a connection with a valid command whose first bytes are the token of no
  -- session it can join, whose address no session has room for, and that sends the server's name and a
  -- key, gets its test exactly when its proof is the digest of the session's hash and the server's
  -- secret. Otherwise it ends in the error of a failed authentication, with the sessions as they were.
  -- This is where the search of `redp1` ends within the fuel.
  pub handle_client-server_authenticate :
      (c : Crypto) (s_b : Bytes) (creds : EcSrp5Credentials) (name cmd_buf x proof rest w : Bytes)
      (pb : ℕ) (gamma : Point)
      → length cmd_buf ≡ 16
      → join_by_token n.id n.ip (token_of cmd_buf) sessions ≡ none
      → Command.is_invalid (Command.deserialize cmd_buf) ≡ false
      → IsUsername name
      → length x ≡ 32
      → length proof < 256
      → redp1 c.fuel c.modpow c.sha256 (curve c) creds.x_gamma false ≡ some gamma
      → let j = c.sha256 (x ++ (server_key c s_b gamma).0) in
        let z = server_secret c creds j s_b x (not (pb == 0)) in
        handle_client md5 user pass
          (some (server_authenticate c s_b name creds))
          n
          (open_stream (cmd_buf ++ (client_message c name (x, pb) ++ (framed proof ++ rest))) w)
          sessions
        ≡ (if bytes_eq proof (client_cc c j z)
            then start_test n (Command.deserialize cmd_buf) sessions
            else (sessions, failed Stream.auth_failed))
  handle_client-server_authenticate c s_b creds name cmd_buf x proof rest w pb gamma h waits valid
        text h' short e =
      let sent = client_message c name (x, pb) ++ (framed proof ++ rest) in
      greeted md5 user pass (some (server_authenticate c s_b name creds)) n
        (open_stream (cmd_buf ++ sent) w) sessions (greeting cmd_buf sent w h) waits
      ∙ exchange_decides (server_authenticate c s_b name creds) (Command.deserialize cmd_buf) sent
          rest (w ++ hello) _ _ _ valid
          (server_authenticate_decides c s_b creds name x proof rest ((w ++ hello) ++ auth_ecsrp5)
            pb gamma text h' short e)
