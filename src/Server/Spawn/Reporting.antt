-- ===== src/Server/Spawn/Reporting.antt =====
-- What the tests of src/server.rs report of the bytes that they move, with the tasks that they start.
use btest_rs.Base.{
  ℕ, suc, ◌+◌, ◌%◌, ◌≡◌, refl, Bool, true, false, List, [], ◌∷◌, ◌++◌, some, u32_mod, arith,
}
use btest_rs.Bandwidth
use btest_rs.Bandwidth.{BandwidthState, stop, record_interval, set_budget, summary}
use btest_rs.Protocol.Command
use btest_rs.Protocol.Command.{Command}
use btest_rs.Server.Tcp.{tcp_status_turn, rx_status}
use btest_rs.Server.Status.{report_turn}
use btest_rs.Server.Reports.{
  BothStep, BothSteps, send, take_in, tick, halt, over, after, both_reports_nothing_sent,
}
use btest_rs.Server.Spawn.Suitable.{all, all-IsOneOf}
use btest_rs.Server.Spawn.{
  Task, tcp_tx_with_status, tcp_tx_loop, tcp_status_sender, tcp_rx_loop, status_report_loop,
  print_sent, udp_tx_loop, udp_rx_loop, udp_status_loop, writer_task, reader_task, main_task,
  run_tcp_test_inner, stream_tasks, run_tcp_multiconn_inner, Turns, with_status, tcp_tx, status,
  tcp_rx, report, ticks, udp_tx, udp_rx, exchange, IsOneOf, first, later, Run, done, turn, stopped,
}

-- The tasks of a bidirectional TCP test.
abbrev is_both : Task → Bool
is_both (tcp_tx_with_status size speed) = true
is_both (tcp_tx_loop size speed) = false
is_both tcp_status_sender = false
is_both tcp_rx_loop = true
is_both status_report_loop = false
is_both print_sent = true
is_both (udp_tx_loop size speed multi) = false
is_both udp_rx_loop = false
is_both udp_status_loop = false

all-is_both :
    (c : Command)
    → Command.server_tx c ≡ true
    → Command.server_rx c ≡ true
    → all is_both (run_tcp_test_inner c) ≡ true
unfolding run_tcp_test_inner writer_task reader_task main_task
all-is_both c tx rx = ground (arith, tx, rx)

both_turn-BothStep :
    {c : Command} {k : Task} {s s' : BandwidthState}
    → Turns c k s s'
    → is_both k ≡ true
    → BothStep s s'
both_turn-BothStep (with_status t e s size sends) h = send t e s
both_turn-BothStep (tcp_tx t e s size sends) h = ground (arith, h)
both_turn-BothStep (status seq cpu written s) h = ground (arith, h)
both_turn-BothStep (tcp_rx r s) h = take_in r s
both_turn-BothStep (report seq s) h = ground (arith, h)
both_turn-BothStep (ticks seq s) h = tick seq s
both_turn-BothStep (udp_tx t e s size taken) h = ground (arith, h)
both_turn-BothStep (udp_rx last a s) h = ground (arith, h)
both_turn-BothStep (exchange t e s) h = ground (arith, h)

run-BothSteps :
    (c : Command) {s s' : BandwidthState}
    → Command.server_tx c ≡ true
    → Command.server_rx c ≡ true
    → Run c (run_tcp_test_inner c) s s'
    → BothSteps s s'
run-BothSteps c tx rx (done s) = over s
run-BothSteps c tx rx (turn one step rest) =
    let kind = all-IsOneOf is_both one (all-is_both c tx rx) in
    after (both_turn-BothStep step kind) (run-BothSteps c tx rx rest)
run-BothSteps c {s = s} tx rx (stopped rest) = after (halt s) (run-BothSteps c tx rx rest)

-- A bidirectional TCP test over one connection that starts on a new state reports no sent bytes,
-- whatever it sent, in whatever order its tasks ran and whenever it was stopped.
pub both_ways_unreported :
    (c : Command) {s : BandwidthState}
    → Command.server_tx c ≡ true
    → Command.server_rx c ≡ true
    → Run c (run_tcp_test_inner c) Bandwidth.new s
    → (summary s).0 ≡ 0
both_ways_unreported c tx rx run = both_reports_nothing_sent (run-BothSteps c tx rx run)

IsOneOf-append : (k : Task) (js ks : List Task) → IsOneOf k ks → IsOneOf k (js ++ ks)
IsOneOf-append k [] ks p = p
IsOneOf-append k (j ∷ js) ks p = later (IsOneOf-append k js ks p)

two_more : (n : ℕ) → ((n + 1) % u32_mod + 1) % u32_mod ≡ (n + 2) % u32_mod
two_more n = omega arith

module _ (c : Command) (mute : Command.server_tx c ≡ false) (rx : Command.server_rx c ≡ true) where
  writer_reports : writer_task c ≡ tcp_status_sender ∷ []
  unfolding writer_task
  writer_reports = ground (arith, mute, rx)

  -- In a test that only receives, over one or more connections, the task that prints the report and
  -- the task that tells a connection's peer run side by side; when the one takes the bytes of an
  -- interval, the other tells the peer that none arrived, and the one second counts as two intervals.
  pub report_taken :
      (streams seq seq' cpu : ℕ) (s : BandwidthState)
      → s.running ≡ true
      → let tasks = run_tcp_multiconn_inner (suc streams) c in
        let told = tcp_status_turn seq' cpu true (report_turn c seq s).shared in
        IsOneOf status_report_loop tasks
        × IsOneOf tcp_status_sender tasks
        × (told.status
            ≡ some (record { seq = (seq' + 1) % u32_mod; bytes_received = 0; cpu_load = cpu }))
        × (told.shared.intervals ≡ (s.intervals + 2) % u32_mod)
  unfolding run_tcp_multiconn_inner stream_tasks tcp_status_turn report_turn record_interval
      rx_status
  report_taken streams seq seq' cpu s running = (
    IsOneOf-append status_report_loop (stream_tasks (suc streams) c) (status_report_loop ∷ [])
        first,
    rw writer_reports first,
    rw (running, rx) refl,
    rw running (two_more s.intervals),
  )
