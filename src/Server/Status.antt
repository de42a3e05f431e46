-- ===== src/Server/Status.antt =====
-- The status loops of src/server.rs.
use btest_rs.Base.{
  ℕ, ◌+◌, ◌%◌, Bool, true, not, ◌&&◌, none, some, ltb, if◌then◌else◌, u32_mod, Bytes,
}
use btest_rs.Bandwidth.{BandwidthState, one_second, record_interval, stop}
use btest_rs.Protocol.Command
use btest_rs.Protocol.Command.{Command}
use btest_rs.Protocol.StatusMessage
use btest_rs.Protocol.StatusMessage.{StatusMessage}
use btest_rs.Tasks.{Turn, go_on, end_loop, hear_status}

-- One second of `status_report_loop`.
unfoldable pub report_turn : Command → ℕ → BandwidthState → Turn ℕ
unfolding record_interval Command.server_tx Command.server_rx
report_turn c seq s =
    let tx = if Command.server_tx c then s.tx_bytes else 0 in
    let rx = if Command.server_rx c then s.rx_bytes else 0 in
    let lost = if Command.server_rx c then s.rx_lost_packets else 0 in
    let swapped = record s {
      tx_bytes = if Command.server_tx c then 0 else s.tx_bytes;
      rx_bytes = if Command.server_rx c then 0 else s.rx_bytes;
      rx_lost_packets = if Command.server_rx c then 0 else s.rx_lost_packets;
    } in
    if s.running
    then go_on (record_interval tx rx lost swapped) ((seq + 1) % u32_mod)
    else end_loop s seq

-- The variables of `udp_status_loop`.
pub record Exchanger : Type 0 where
  pub seq : ℕ  -- u32
  pub next_status : ℕ

-- How the wait for the peer's status ends: with its 12 bytes, an error, or the end of the second.
pub data Heard : Type 0 where
  message : Bytes → Heard
  broken : Heard
  silence : Heard

-- One pass: the time after the read, the time of the report, the load, and how the write ends.
pub record StatusPass : Type 0 where
  pub heard : Heard
  pub after_read : ℕ
  pub at : ℕ
  pub cpu : ℕ
  pub written : Bool

-- The server's own report, which it sends whatever it heard.
unfoldable pub exchange_report : Command → Exchanger → StatusPass → BandwidthState → Turn Exchanger
unfolding record_interval stop Command.server_tx Command.server_rx
exchange_report c t e s =
    let seq = (t.seq + 1) % u32_mod in
    let task = record t { seq = seq; next_status = e.at + one_second } in
    let swapped = record s { tx_bytes = 0; rx_bytes = 0; rx_lost_packets = 0 } in
    let report =
      (if Command.server_tx c && not (Command.server_rx c) then s.tx_bytes else s.rx_bytes) in
    if e.written
    then record {
      shared = record_interval s.tx_bytes s.rx_bytes s.rx_lost_packets swapped;
      task = task;
      status = some (record { seq = seq; bytes_received = report % u32_mod; cpu_load = e.cpu });
      pause = none;
      goes_on = true;
    }
    else end_loop (stop swapped) task

-- A status that comes before the report is due is only taken in.
unfoldable pub exchange_of :
    Heard → Command → Exchanger → StatusPass → BandwidthState → Turn Exchanger
unfolding exchange_report hear_status stop Command.server_tx StatusMessage.deserialize
exchange_of (message bs) c t e s =
    let heard = hear_status (Command.server_tx c) (StatusMessage.deserialize bs) s in
    if ltb e.after_read t.next_status then go_on heard t else exchange_report c t e heard
exchange_of broken c t e s = end_loop (stop s) t
exchange_of silence c t e s = exchange_report c t e s

unfoldable pub exchange_turn : Command → Exchanger → StatusPass → BandwidthState → Turn Exchanger
unfolding exchange_of
exchange_turn c t e s = if s.running then exchange_of e.heard c t e s else end_loop s t
