-- ===== src/Server/Reports.antt =====
-- What the status loops of src/server.rs report and record.
use btest_rs.Base.{ℕ, ◌+◌, ◌*◌, ◌%◌, ◌≤◌, ◌<◌, ◌≡◌, ◌↔◌, refl, true, some, u32_mod, u64_mod, arith}
use btest_rs.Bandwidth
use btest_rs.Bandwidth.{BandwidthState, stop, spend_budget, record_interval, summary}
use btest_rs.Protocol.Command
use btest_rs.Protocol.Command.{Command}
use btest_rs.Tasks.{adapted_speed, repick, count_sent, count_received}
use btest_rs.Server.Tcp.{
  TcpTx, TxPass, Read, received, closed, inject_status, send_packet, after_packet, receive,
  rx_status, tcp_tx_turn, tcp_rx_turn, tcp_status_turn, both_turn,
}
use btest_rs.Server.Status.{Exchanger, StatusPass, exchange_report, report_turn}

-- A turn that moved the received bytes of the interval into the totals.
pub record IsRecorded (s s' : BandwidthState) : Type 0 where
  pub emptied : s'.rx_bytes ≡ 0
  pub total : s'.total_rx_bytes ≡ s.total_rx_bytes + s.rx_bytes
  pub intervals : s'.intervals ≡ (s.intervals + 1) % u32_mod

-- The totals have room for the interval.
abbrev pub HasRoom : BandwidthState → Type 0
HasRoom s = s.total_rx_bytes + s.rx_bytes < u64_mod

module _ (c : Command) (s : BandwidthState) (running : s.running ≡ true) (room : HasRoom s) where
  -- In a test that receives, no received byte is lost between the interval and the totals when the
  -- report is written: the three status loops move all of them, and the two that write a message
  -- tell the peer their number modulo 2 ^ 32.
  pub received_conserved :
      (seq cpu : ℕ) (t : Exchanger) (e : StatusPass)
      → Command.server_rx c ≡ true
      → e.written ≡ true
      → let tcp = tcp_status_turn seq cpu true s in
        let udp = exchange_report c t e s in
        IsRecorded s (report_turn c seq s).shared
        × IsRecorded s tcp.shared
        × IsRecorded s udp.shared
        × (tcp.status
            ≡ some (record {
              seq = (seq + 1) % u32_mod;
              bytes_received = s.rx_bytes % u32_mod;
              cpu_load = cpu;
            }))
        × (udp.status
            ≡ some (record {
              seq = (t.seq + 1) % u32_mod;
              bytes_received = s.rx_bytes % u32_mod;
              cpu_load = e.cpu;
            }))
  unfolding report_turn tcp_status_turn exchange_report record_interval rx_status
  received_conserved seq cpu t e rx written = (
    record { emptied = ground arith; total = ground arith; intervals = ground arith },
    record { emptied = ground arith; total = ground arith; intervals = ground arith },
    record { emptied = ground arith; total = ground arith; intervals = ground arith },
    ground arith,
    ground arith,
  )

-- The tasks of a bidirectional TCP test.
pub data BothStep : BandwidthState → BandwidthState → Type 0 where
  send : (t : TcpTx) (e : TxPass) (s : BandwidthState) → BothStep s (tcp_tx_turn t e s).shared
  take_in : (r : Read) (s : BandwidthState) → BothStep s (tcp_rx_turn r s).0
  tick : (seq : ℕ) (s : BandwidthState) → BothStep s (both_turn seq s).shared
  halt : (s : BandwidthState) → BothStep s (stop s)

pub data BothSteps : BandwidthState → BandwidthState → Type 0 where
  over : (s : BandwidthState) → BothSteps s s
  after : {s s' s'' : BandwidthState} → BothStep s s' → BothSteps s' s'' → BothSteps s s''

sent_unrecorded :
    (t : TcpTx) (e : TxPass) (s : BandwidthState)
    → s.total_tx_bytes ≡ 0
    → (send_packet t e s).shared.total_tx_bytes ≡ 0
unfolding send_packet spend_budget stop after_packet repick count_sent
sent_unrecorded t e s h = ground arith

inject_unrecorded :
    (t : TcpTx) (e : TxPass) (s : BandwidthState)
    → s.total_tx_bytes ≡ 0
    → (inject_status t e s).shared.total_tx_bytes ≡ 0
unfolding inject_status record_interval stop
inject_unrecorded t e s h = ground arith

both_step_unrecorded :
    {s s' : BandwidthState} → BothStep s s' → s.total_tx_bytes ≡ 0 → s'.total_tx_bytes ≡ 0
unfolding tcp_tx_turn tcp_rx_turn receive both_turn stop spend_budget count_received
both_step_unrecorded (send t e s) h =
    let injected = inject_status t e s in
    let first = inject_unrecorded t e s h in
    ground (arith, first, sent_unrecorded injected.task e injected.shared first)
both_step_unrecorded (take_in closed s) h = ground arith
both_step_unrecorded (take_in (received n) s) h = ground arith
both_step_unrecorded (tick seq s) h = ground arith
both_step_unrecorded (halt s) h = h

both_steps_unrecorded :
    {s s' : BandwidthState} → BothSteps s s' → s.total_tx_bytes ≡ 0 → s'.total_tx_bytes ≡ 0
both_steps_unrecorded (over s) h = h
both_steps_unrecorded (after p ps) h = both_steps_unrecorded ps (both_step_unrecorded p h)

-- A bidirectional TCP test that starts on a new state reports no sent bytes at its end, whatever it
-- sent and in whatever order its tasks ran.
pub both_reports_nothing_sent : {s : BandwidthState} → BothSteps Bandwidth.new s → (summary s).0 ≡ 0
unfolding summary Bandwidth.new
both_reports_nothing_sent steps = both_steps_unrecorded steps refl

-- The speed that a report asks for is one and a half times its bytes, in bits, up to 357913941
-- bytes a second. Above, it is what is left modulo 2 ^ 32.
pub adapted_exactly :
    (bytes : ℕ)
    → (adapted_speed bytes ≡ 12 * bytes % u32_mod)
      × ((adapted_speed bytes ≡ 12 * bytes) ↔ (bytes ≤ 357913941))
unfolding adapted_speed
adapted_exactly bytes = ground arith
