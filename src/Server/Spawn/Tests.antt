-- ===== src/Server/Spawn/Tests.antt =====
-- Runs of the tasks of src/server.rs.
use btest_rs.Base.{◌+◌, ◌%◌, ◌≡◌, refl, true, [], ◌∷◌, some, if◌then◌else◌, u32_mod}
use btest_rs.Bandwidth
use btest_rs.Bandwidth.{BandwidthState, set_budget, summary}
use btest_rs.Protocol.Command
use btest_rs.Protocol.Command.{Command}
use btest_rs.Server.Tcp.{
  TcpTx, TxPass, received, tcp_tx_start, tcp_tx_turn, tcp_rx_turn, tcp_status_turn, both_turn,
}
use btest_rs.Server.Status.{report_turn}
use btest_rs.Server.Spawn.{
  tcp_status_sender, tcp_rx_loop, status_report_loop, udp_rx_loop, udp_status_loop,
  run_tcp_test_inner, run_tcp_multiconn_inner, run_udp_test_inner, single, with_status, status,
  tcp_rx, ticks, IsOneOf, first, later, Run, done, turn,
}
use btest_rs.Server.Spawn.Silence.{one_way_silent}
use btest_rs.Server.Spawn.Reporting.{both_ways_unreported, report_taken}

-- A test in which the server receives, and one in both directions.
abbrev upload : Command
upload = Command.new 1 1

abbrev both_ways : Command
both_ways = Command.new 1 3

upload_tasks : run_tcp_test_inner upload ≡ tcp_status_sender ∷ tcp_rx_loop ∷ []
unfolding run_tcp_test_inner Command.new
upload_tasks = refl

two_streams :
    run_tcp_multiconn_inner 2 upload
    ≡ tcp_status_sender ∷ tcp_rx_loop ∷ tcp_status_sender ∷ tcp_rx_loop ∷ status_report_loop ∷ []
unfolding run_tcp_multiconn_inner Command.new
two_streams = refl

udp_tasks : run_udp_test_inner upload ≡ udp_rx_loop ∷ udp_status_loop ∷ []
unfolding run_udp_test_inner Command.new
udp_tasks = refl

abbrev start : BandwidthState
start = set_budget 1000 Bandwidth.new

abbrev took_600 : BandwidthState
took_600 = (tcp_rx_turn (received 600) start).0

abbrev told_600 : BandwidthState
told_600 = (tcp_status_turn 0 30 true took_600).shared

upload-Run : Run upload (run_tcp_test_inner upload) start told_600
unfolding run_tcp_test_inner Command.new
upload-Run =
    turn (later first) (tcp_rx (received 600) start)
      (turn first (status 0 30 true took_600) (done told_600))

one_way_silent_example :
    ((summary told_600).0 ≡ (if Command.server_tx upload then (summary told_600).0 else 0))
    × ((summary told_600).1 ≡ (if Command.server_rx upload then (summary told_600).1 else 0))
one_way_silent_example = one_way_silent 1000 single upload-Run

told : (summary told_600).1 ≡ 600
unfolding summary tcp_status_turn tcp_rx_turn set_budget Bandwidth.new
told = refl

abbrev tx_pass : TxPass
tx_pass = record {
  cpu = 0;
  top = 5;
  status_written = true;
  after_status = 5;
  packet_written = true;
  after_packet = 6;
  before_wait = 7;
}

abbrev sender : TcpTx
sender = tcp_tx_start both_ways.tx_size 0 true 0

abbrev sent_one : BandwidthState
sent_one = (tcp_tx_turn sender tx_pass Bandwidth.new).shared

abbrev printed : BandwidthState
printed = (both_turn 0 sent_one).shared

both-Run : Run both_ways (run_tcp_test_inner both_ways) Bandwidth.new printed
unfolding run_tcp_test_inner Command.new tcp_tx_start
both-Run =
    turn first (with_status sender tx_pass Bandwidth.new refl refl)
      (turn (later (later first)) (ticks 0 sent_one) (done printed))

both_ways_unreported_example : (summary printed).0 ≡ 0
unfolding Command.new Command.server_tx Command.server_rx
both_ways_unreported_example = both_ways_unreported both_ways refl refl both-Run

report_taken_example :
    let tasks = run_tcp_multiconn_inner 2 upload in
    let told = tcp_status_turn 3 30 true (report_turn upload 1 took_600).shared in
    IsOneOf status_report_loop tasks
    × IsOneOf tcp_status_sender tasks
    × (told.status ≡ some (record { seq = (3 + 1) % u32_mod; bytes_received = 0; cpu_load = 30 }))
    × (told.shared.intervals ≡ (took_600.intervals + 2) % u32_mod)
unfolding Command.new Command.server_tx Command.server_rx tcp_rx_turn set_budget Bandwidth.new
report_taken_example = report_taken upload refl refl 1 1 3 30 took_600 refl
