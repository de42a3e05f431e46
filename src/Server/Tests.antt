-- ===== src/Server/Tests.antt =====
-- The tasks of src/server.rs on one small test.
use btest_rs.Base.{
  false, ◌+◌, ◌%◌, ◌≡◌, refl, true, some, List, [], ◌∷◌, Bytes, length, u32_mod, arith,
}
use btest_rs.Bandwidth
use btest_rs.Bandwidth.{BandwidthState, set_budget, summary, stop, record_interval, spend_budget}
use btest_rs.Protocol.{cmd_dir_both}
use btest_rs.Protocol.Command
use btest_rs.Protocol.Command.{Command}
use btest_rs.Server.Tcp.{TxPass, received, tcp_tx_turn, tcp_rx_turn, tcp_tx_start, tcp_status_turn}
use btest_rs.Server.Udp.{sequence_of}
use btest_rs.Server.Status.{Exchanger, StatusPass, report_turn, exchange_report, silence}
use btest_rs.Server.Session.{Action, calls, goes_on, receives, swaps_rx, adds_rx, acts, begin}
use btest_rs.Server.Losses.{IsReceiving, receive_all, losses_counted, last_number}
use btest_rs.Server.Reports.{IsRecorded, received_conserved}

abbrev command : Command
command = Command.new 1 cmd_dir_both

abbrev budgeted : BandwidthState
budgeted = set_budget 1000 Bandwidth.new

abbrev took_600 : BandwidthState
took_600 = (tcp_rx_turn (received 600) budgeted).0

abbrev reported : BandwidthState
reported = (report_turn command 0 took_600).shared

-- 600 bytes come in and are reported; 500 more are asked for while the report is under way, and refused.
abbrev actions : List Action
actions =
    calls 600 ∷ goes_on ∷ goes_on ∷ receives 600 ∷ swaps_rx ∷ calls 500 ∷ goes_on ∷ adds_rx 600 ∷ []

abbrev after_actions : BandwidthState
after_actions = (acts actions (begin budgeted)).shared

acted : ((summary after_actions).1 ≡ 600) × (after_actions.running ≡ false)
unfolding acts summary set_budget Bandwidth.new
acted = (refl, refl)

-- The 600 bytes are in the totals.
recorded_600 : (summary reported).1 ≡ 600
unfolding summary report_turn tcp_rx_turn set_budget Bandwidth.new Command.new
recorded_600 = refl

abbrev arrivals : List Bytes
arrivals = (0 ∷ 0 ∷ 0 ∷ 8 ∷ []) ∷ (0 ∷ 0 ∷ 0 ∷ 11 ∷ 9 ∷ []) ∷ []

new-IsReceiving : IsReceiving 7 Bandwidth.new
unfolding Bandwidth.new
new-IsReceiving = record { running = refl; unlimited = refl; room = omega arith }

losses_counted_example :
    let s' = receive_all (some 7) arrivals Bandwidth.new in
    (s'.rx_packets ≡ 0 + length arrivals)
    × (s'.rx_packets + s'.rx_lost_packets + 7 ≡ 0 + 0 + last_number 7 arrivals)
unfolding Bandwidth.new sequence_of
losses_counted_example =
    losses_counted 7 arrivals new-IsReceiving
      (omega arith, omega arith, omega arith, (omega arith, omega arith, omega arith, tt))

abbrev exchanger : Exchanger
exchanger = record { seq = 4; next_status = 10 }

abbrev pass : StatusPass
pass = record { heard = silence; after_read = 11; at = 12; cpu = 30; written = true }

received_conserved_example :
    let tcp = tcp_status_turn 0 30 true took_600 in
    let udp = exchange_report command exchanger pass took_600 in
    IsRecorded took_600 (report_turn command 0 took_600).shared
    × IsRecorded took_600 tcp.shared
    × IsRecorded took_600 udp.shared
    × (tcp.status
        ≡ some (record { seq = 1; bytes_received = took_600.rx_bytes % u32_mod; cpu_load = 30 }))
    × (udp.status
        ≡ some (record { seq = 5; bytes_received = took_600.rx_bytes % u32_mod; cpu_load = 30 }))
unfolding tcp_rx_turn set_budget Bandwidth.new Command.new Command.server_rx
received_conserved_example =
    received_conserved command took_600 refl (omega arith) 0 30 exchanger pass refl refl

abbrev tx_pass : TxPass
tx_pass = record {
  cpu = 0;
  top = 5;
  status_written = true;
  after_status = 5;
  packet_written = true;
  after_packet = 6;
  before_wait = 7;
}

abbrev sent_one : BandwidthState
sent_one = (tcp_tx_turn (tcp_tx_start 1500 0 true 0) tx_pass Bandwidth.new).shared
