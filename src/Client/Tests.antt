-- ===== src/Client/Tests.antt =====
-- The client of src/client.rs on small inputs.
use btest_rs.Base.{
  if◌then◌else◌, ◌+◌, ◌≡◌, refl, true, false, none, some, [], ◌∷◌, Bytes, replicate, arith,
}
use btest_rs.Bandwidth
use btest_rs.Bandwidth.{BandwidthState, summary}
use btest_rs.Bandwidth.Budget.{counted}
use btest_rs.Protocol.Command
use btest_rs.Protocol.Command.{Command}
use btest_rs.Protocol.StatusMessage.{StatusMessage}
use btest_rs.Stream.{send_hello, read_exact, ◌>>◌, ◌>>=◌, Exchange, ok, raise, io}
use btest_rs.Stream.Laws.{open_stream}
use btest_rs.Server.Sessions.{join_by_token, any_room}
use btest_rs.Server.Handler.{Client, handle_client, primary_auth, start_test}
use btest_rs.EcSrp5.Exchange as EcSrp5
use btest_rs.EcSrp5.Example.{
  crypto, small_digest_32, user, secret, salt, key_of, user-IsUsername, gamma, blind, search_ends,
  search_ends_too, same_secret,
}
use btest_rs.Client.EcSrp5Login.{sent, answered, login_reaches_test}
use btest_rs.Server.Spawn.{first, later}
use btest_rs.Client.Spawn.{
  run_tcp_test_client, tcp_client_tx_loop, tcp_client_status_reader, client_status_loop, tcp,
  ClientRun,
}
use btest_rs.Client.Spawn
use btest_rs.Client.Spawn.Silence.{client_one_way_silent}
use btest_rs.Client.Handshake.{command, run_client}
use btest_rs.Client.Tcp.{
  ClientTx, SendPass, got, ended, client_tx_start, client_tx_turn, client_rx_turn,
  status_reader_turn,
}
use btest_rs.Client.Status.{client_report_turn}
use btest_rs.Client.Totals.{done, next, tcp_rx, report, client_conserves}
use btest_rs.Client.Laws.{tcp_runs_on}

abbrev idle : StatusMessage
idle = record { seq = 3; bytes_received = 500; cpu_load = 0 }

abbrev upload : Command
upload = command false 1 0 0

abbrev took_5 : BandwidthState
took_5 = (client_rx_turn (got (replicate 5 0)) Bandwidth.new).0

abbrev reported : BandwidthState
reported = (client_report_turn upload 0 took_5).shared

client_conserves_example : counted reported ≡ counted Bandwidth.new + 5
unfolding Bandwidth.new
client_conserves_example =
    client_conserves {c = upload}
      (next (tcp_rx (got (replicate 5 0)) Bandwidth.new) (next (report 0 took_5) (done reported)))
      (omega arith)

abbrev lost : SendPass
lost = record { packet_written = false; after_packet = 1; before_wait = 2 }

tcp_runs_on_example :
    ((client_tx_turn (client_tx_start 1500 0 0) lost Bandwidth.new).shared.running ≡ true)
    × ((client_rx_turn ended Bandwidth.new).0.running ≡ true)
    × ((status_reader_turn none Bandwidth.new).0.running ≡ true)
unfolding Bandwidth.new
tcp_runs_on_example = tcp_runs_on (client_tx_start 1500 0 0) lost ended none Bandwidth.new

abbrev no_hash : Bytes → Bytes
no_hash x = x

abbrev no_ecsrp5 : Bytes → Bytes → Exchange {0} Unit
no_ecsrp5 _ pass = raise io

abbrev passed : SendPass
passed = record { packet_written = true; after_packet = 1; before_wait = 2 }

abbrev sender : ClientTx
sender = client_tx_start upload.tx_size 0 0

abbrev sent_one : BandwidthState
sent_one = (client_tx_turn sender passed Bandwidth.new).shared

abbrev sent_and_told : BandwidthState
sent_and_told = (client_report_turn upload 0 sent_one).shared

upload_tasks :
    run_tcp_test_client upload
    ≡ tcp_client_tx_loop upload.tx_size 0 ∷ tcp_client_status_reader ∷ client_status_loop ∷ []
unfolding run_tcp_test_client Command.new command
upload_tasks = refl

upload-ClientRun : ClientRun upload (run_tcp_test_client upload) Bandwidth.new sent_and_told
unfolding run_tcp_test_client Command.new command client_tx_start
upload-ClientRun =
    Spawn.turn first (Spawn.tcp_tx sender passed Bandwidth.new refl)
      (Spawn.turn (later (later first)) (Spawn.report 0 sent_one) (Spawn.done sent_and_told))

client_one_way_silent_example :
    ((summary sent_and_told).0
      ≡ (if Command.client_tx upload then (summary sent_and_told).0 else 0))
    × ((summary sent_and_told).1
        ≡ (if Command.client_rx upload then (summary sent_and_told).1 else 0))
client_one_way_silent_example = client_one_way_silent tcp upload-ClientRun

abbrev zeros : Bytes → Bytes
zeros _ = replicate 16 0

abbrev visitor : Client
visitor = record { id = 4; ip = 49 ∷ []; challenge = replicate 16 8; token = 257 }

login_reaches_test_example :
    let written =
      sent zeros false 2 0 0 crypto user secret salt
        (key_of 3)
        (key_of 2)
        small_digest_32
        gamma
        blind in
    let incoming =
      answered zeros false 2 0 0 crypto user secret salt
        (key_of 3)
        (key_of 2)
        small_digest_32
        gamma
        blind in
    (run_client zeros
        (EcSrp5.client_authenticate crypto (key_of 3))
        false
        2
        0
        0
        (some user)
        (some secret)
        (open_stream incoming [])
      ≡ ok (command false 2 0 0) (open_stream [] written))
    × (handle_client zeros none none
          (some (
            EcSrp5.server_authenticate crypto
              (key_of 2)
              user
              (EcSrp5.derive crypto salt user secret)))
          visitor
          (open_stream written [])
          []
        ≡ start_test visitor (command false 2 0 0) [])
    × (((send_hello >> read_exact 16) >>= (λ cmd_buf.
            primary_auth zeros none none
              (some (
                EcSrp5.server_authenticate crypto
                  (key_of 2)
                  user
                  (EcSrp5.derive crypto salt user secret)))
              (some (
                EcSrp5.server_authenticate crypto
                  (key_of 2)
                  user
                  (EcSrp5.derive crypto salt user secret)))
              visitor
              (Command.deserialize cmd_buf)))
          (open_stream written [])
        ≡ ok tt (open_stream [] incoming))
unfolding join_by_token any_room
login_reaches_test_example =
    login_reaches_test zeros false 2 0 0 crypto user secret salt (key_of 3) (key_of 2)
      small_digest_32 gamma blind visitor [] none none same_secret user-IsUsername refl
      search_ends_too search_ends (omega arith) (omega arith) (omega arith) (omega arith) refl refl
