-- ===== src/Client/EcSrp5Login.antt =====
-- `run_client` of src/client.rs and `handle_client` of src/server.rs through the whole login of
-- src/ecsrp5.rs.
use btest_rs.Base.{
  ℕ, ◌≡◌, ◌≤◌, ◌<◌, ◌∙◌, refl, ap, Bool, true, false, Option, some, none, ◌++◌, [], Bytes, length,
  bytes_eq, u32_mod, if◌then◌else◌, arith, append_assoc, append-nil,
}
use btest_rs.Protocol.{hello, auth_ok, auth_ecsrp5}
use btest_rs.Protocol.Command
use btest_rs.Protocol.Command.{Command}
use btest_rs.Protocol.Wire.{length-serialize, deserialize-serialize}
use btest_rs.Protocol.Token.{token_of, ok_response, is_tcp_multi}
use btest_rs.Stream.{
  read_exact, send_hello, ◌>>◌, ◌>>=◌, Exchange, ok, write_all, recv_hello, send_command,
  recv_response,
}
use btest_rs.Stream.Laws.{open_stream, read_exact_prefix}
use btest_rs.Client.Handshake.{command, run_client, answer, ecsrp5_then_ok}
use btest_rs.Client.Laws.{command-IsCommand, command_valid}
use btest_rs.Server.Sessions.{SessionMap, join_by_token, any_room}
use btest_rs.Server.Handler.{Client, handle_client, primary_auth, start_test}
use btest_rs.Server.Handler.Login.{greeting}
use btest_rs.Server.Handler.EcSrp5Login.{handle_client-server_authenticate}
use btest_rs.EcSrp5.Point.{Point}
use btest_rs.EcSrp5.Exchange.{
  Crypto, framed, client_message, server_message, server_key, derive, client_authenticate,
  server_authenticate,
}
use btest_rs.EcSrp5.ServerEnd.{IsUsername}
use btest_rs.EcSrp5.Agreement.{
  own, Searched, z_client, z_server, proof, reply, ends_agree, proof_accepted, short_proof,
  length-own,
}

granted {ℓ} : {A : Type ℓ} {b : Bool} {x : A} (y : A) → b ≡ true → (if b then x else y) ≡ x
granted y h = rw h refl

module _ (md5 : Bytes → Bytes) (use_udp : Bool) (direction tx_speed rx_speed : ℕ) where
  abbrev cmd : Command
  cmd = command use_udp direction tx_speed rx_speed

  -- A client whose exchange takes in `incoming` up to the last reply, and writes `said`.
  client_goes_on :
      (exchange : Bytes → Bytes → Exchange {0} Unit) (user pass incoming said rest : Bytes)
      → exchange user pass (open_stream incoming (Command.serialize cmd))
        ≡ ok tt (open_stream (auth_ok ++ rest) said)
      → run_client md5 exchange use_udp direction tx_speed rx_speed
          (some user)
          (some pass)
          (open_stream (hello ++ (auth_ecsrp5 ++ incoming)) [])
        ≡ ok cmd (open_stream rest said)
  unfolding run_client answer ecsrp5_then_ok recv_hello send_command write_all recv_response
      bytes_eq
  client_goes_on exchange user pass incoming said rest h =
      rw
        (
          read_exact_prefix 4 hello (auth_ecsrp5 ++ incoming) [] refl,
          read_exact_prefix 4 auth_ecsrp5 incoming (Command.serialize cmd) refl,
          h,
          read_exact_prefix 4 auth_ok rest said refl,
        )
        refl

  last_reply : (token : ℕ) → ok_response cmd token ≡ auth_ok
  unfolding ok_response is_tcp_multi command Command.new
  last_reply token = ground arith

  -- A server whose exchange takes in `rest`, and has written `said` by its end.
  server_writes :
      (exchange : Exchange {0} Unit) (user pass : Option Bytes) (n : Client) (rest said : Bytes)
      → Command.deserialize (Command.serialize cmd) ≡ cmd
      → exchange (open_stream rest (hello ++ auth_ecsrp5)) ≡ ok tt (open_stream [] said)
      → ((send_hello >> read_exact 16) >>= (λ cmd_buf.
            primary_auth md5 user pass
              (some exchange)
              (some exchange)
              n
              (Command.deserialize cmd_buf)))
          (open_stream (Command.serialize cmd ++ rest) [])
        ≡ ok tt (open_stream [] (said ++ auth_ok))
  unfolding primary_auth write_all
  server_writes exchange user pass n rest said decoded h =
      rw
        (
          greeting (Command.serialize cmd) rest [] (length-serialize cmd),
          decoded,
          h,
          last_reply n.token,
        )
        refl

  module _ (c : Crypto) (username password salt s_a s_b : Bytes)
      (digest : (x : Bytes) → length (c.sha256 x) ≡ 32) (gamma v : Point) where
    -- What the client writes, and what it reads.
    abbrev pub sent : Bytes
    sent =
        Command.serialize cmd
        ++ (client_message c username (own c username password salt s_a s_b)
            ++ (framed (proof c username password salt s_a s_b gamma v) ++ []))

    abbrev pub answered : Bytes
    answered =
        hello
        ++ (auth_ecsrp5
            ++ (server_message c (server_key c s_b gamma) salt
                ++ (framed (reply c username password salt s_a s_b gamma v) ++ (auth_ok ++ []))))

    -- A client and a server of one name and password that use EC-SRP5, where the searches of `redp1`
    -- end within the fuel and the two secrets agree, with a command whose direction is 1 to 3 and whose
    -- speeds fit 32 bits, on a server with no session for the client to join, each read what the other
    -- writes: from `answered` the client writes `sent` and goes on to the test of its command; from
    -- `sent` the server's handler goes on to the test of the same command, and its greeting, its
    -- login and its last reply write `answered`.
    pub login_reaches_test :
        (n : Client) (sessions : SessionMap) (user pass : Option Bytes)
        → z_client c username password salt s_a s_b gamma v
          ≡ z_server c username password salt s_a s_b gamma
        → IsUsername username
        → length salt ≡ 16
        → Searched c username password salt s_a s_b false gamma
        → Searched c username password salt s_a s_b true v
        → 1 ≤ direction
        → direction ≤ 3
        → tx_speed < u32_mod
        → rx_speed < u32_mod
        → any_room n.ip sessions ≡ false
        → join_by_token n.id n.ip (token_of (Command.serialize cmd)) sessions ≡ none
        → (run_client md5
              (client_authenticate c s_a)
              use_udp
              direction
              tx_speed
              rx_speed
              (some username)
              (some password)
              (open_stream answered [])
            ≡ ok cmd (open_stream [] sent))
          × (handle_client md5 user pass
                (some (server_authenticate c s_b username (derive c salt username password)))
                n
                (open_stream sent [])
                sessions
              ≡ start_test n cmd sessions)
          × (((send_hello >> read_exact 16) >>= (λ cmd_buf.
                  primary_auth md5 user pass
                    (some (server_authenticate c s_b username (derive c salt username password)))
                    (some (server_authenticate c s_b username (derive c salt username password)))
                    n
                    (Command.deserialize cmd_buf)))
                (open_stream sent [])
              ≡ ok tt (open_stream [] answered))
    unfolding derive
    login_reaches_test n sessions user pass same name size found_gamma found_v low high tx rx full
          waits =
        let said = Command.serialize cmd in
        let mine = own c username password salt s_a s_b in
        let p = proof c username password salt s_a s_b gamma v in
        let ends =
          ends_agree c username password salt s_a s_b digest gamma v same name size found_gamma
            found_v [] (auth_ok ++ []) (hello ++ auth_ecsrp5) said in
        let decoded =
          deserialize-serialize cmd
            (command-IsCommand use_udp direction tx_speed rx_speed low high tx rx) in
        (
          client_goes_on (client_authenticate c s_a) username password _ _ [] ends.1
              ∙ ap (λ w. ok cmd (open_stream [] w)) (simp (append_assoc, append-nil, append-nil)),
          handle_client-server_authenticate md5 user pass n sessions full c s_b
                (derive c salt username password) username said (mine.0) p [] [] (mine.1) gamma
                (length-serialize cmd) waits
                (ap Command.is_invalid decoded
                  ∙ command_valid use_udp direction tx_speed rx_speed low high tx rx)
                name (length-own c username password salt s_a s_b digest gamma v same)
                (short_proof c username password salt s_a s_b digest gamma v same) found_gamma
              ∙ granted _ (proof_accepted c username password salt s_a s_b digest gamma v same)
              ∙ ap (λ d. start_test n d sessions) decoded,
          server_writes (server_authenticate c s_b username (derive c salt username password)) user
                pass n _ _ decoded ends.0
              ∙ ap (λ w. ok tt (open_stream [] w)) (simp (append_assoc, append-nil)),
        )
