-- ===== src/Server/Handler/Tests.antt =====
-- One connection of `handle_client` in src/server.rs, and one waiting session.
use btest_rs.Base.{
  ◌≡◌, refl, true, none, some, [], ◌∷◌, ◌++◌, Bytes, replicate, arith, if◌then◌else◌, bytes_eq,
}
use btest_rs.Protocol.Command
use btest_rs.Protocol.Token.{token_of}
use btest_rs.Stream
use btest_rs.Stream.Laws.{open_stream}
use btest_rs.Auth.Decision.{accepts}
use btest_rs.Server.Sessions.{SessionMap, join_by_token, any_room}
use btest_rs.Server.Handler.{Client, failed, start_test, handle_client}
use btest_rs.Server.Handler.Login.{handle_client_decides}
use btest_rs.Server.Handler.EcSrp5Login.{handle_client-server_authenticate}
use btest_rs.EcSrp5.Exchange.{
  framed, client_cc, client_message, server_key, server_secret, server_authenticate,
}
use btest_rs.EcSrp5.Example.{
  crypto, small_digest, user, key_of, user-IsUsername, gamma, credentials, credentials_found,
}

abbrev zeros : Bytes → Bytes
zeros _ = replicate 16 0

abbrev client : Client
client = record { id = 4; ip = 49 ∷ []; challenge = replicate 16 8; token = 257 }

abbrev download : Bytes
download = 1 ∷ 2 ∷ replicate 14 0

handle_client_decides_example :
    handle_client zeros none
      (some (115 ∷ []))
      none
      client
      (open_stream (download ++ (replicate 48 0 ++ [])) [])
      []
    ≡ (if accepts zeros none (115 ∷ []) (replicate 16 8) (replicate 48 0)
        then start_test client (Command.deserialize download) []
        else ([], failed Stream.auth_failed))
unfolding join_by_token any_room Command.deserialize Command.is_invalid token_of
handle_client_decides_example =
    handle_client_decides zeros none (115 ∷ []) client download (replicate 48 0) [] [] [] refl refl
      refl refl refl

handle_client-server_authenticate_example :
    let j = small_digest (key_of 4 ++ (server_key crypto (key_of 2) gamma).0) in
    let z = server_secret crypto credentials j (key_of 2) (key_of 4) true in
    handle_client zeros none none
      (some (server_authenticate crypto (key_of 2) user credentials))
      client
      (open_stream
        (download ++ (client_message crypto user (key_of 4, 1) ++ (framed (key_of 6) ++ [])))
        [])
      []
    ≡ (if bytes_eq (key_of 6) (client_cc crypto j z)
        then start_test client (Command.deserialize download) []
        else ([], failed Stream.auth_failed))
unfolding join_by_token any_room Command.deserialize Command.is_invalid token_of
handle_client-server_authenticate_example =
    handle_client-server_authenticate zeros none none client [] refl crypto (key_of 2) credentials
      user download (key_of 4) (key_of 6) [] [] 1 gamma refl refl refl user-IsUsername refl
      (omega arith) credentials_found

abbrev waiting : SessionMap
waiting = (257, record { peer_ip = 49 ∷ []; streams = 1 ∷ []; expected = 2 }) ∷ []
