-- ===== src/Client/Status.antt =====
-- The status loops of src/client.rs.
use btest_rs.Base.{ℕ, ◌+◌, ◌%◌, true, none, some, ltb, if◌then◌else◌, u32_mod}
use btest_rs.Bandwidth.{BandwidthState, one_second, record_interval, stop}
use btest_rs.Protocol.Command
use btest_rs.Protocol.Command.{Command}
use btest_rs.Protocol.StatusMessage
use btest_rs.Protocol.StatusMessage.{StatusMessage}
use btest_rs.Tasks.{Turn, go_on, end_loop, hear_status}
use btest_rs.Server.Status.{Exchanger, StatusPass, Heard, message, broken, silence}

-- One second of `client_status_loop`.
unfoldable pub client_report_turn : Command → ℕ → BandwidthState → Turn ℕ
unfolding record_interval Command.client_tx Command.client_rx
client_report_turn c seq s =
    let tx = if Command.client_tx c then s.tx_bytes else 0 in
    let rx = if Command.client_rx c then s.rx_bytes else 0 in
    let swapped = record s {
      tx_bytes = if Command.client_tx c then 0 else s.tx_bytes;
      rx_bytes = if Command.client_rx c then 0 else s.rx_bytes;
    } in
    if s.running
    then go_on (record_interval tx rx 0 swapped) ((seq + 1) % u32_mod)
    else end_loop s seq

-- The client's own report, after the interval is recorded.
unfoldable pub client_exchange_report : Exchanger → StatusPass → BandwidthState → Turn Exchanger
unfolding record_interval stop
client_exchange_report t e s =
    let seq = (t.seq + 1) % u32_mod in
    let task = record t { seq = seq; next_status = e.at + one_second } in
    let recorded =
      record_interval s.tx_bytes s.rx_bytes s.rx_lost_packets
        (record s { tx_bytes = 0; rx_bytes = 0; rx_lost_packets = 0 }) in
    if e.written
    then record {
      shared = recorded;
      task = task;
      status = some (record { seq = seq; bytes_received = s.rx_bytes % u32_mod; cpu_load = e.cpu });
      pause = none;
      goes_on = true;
    }
    else end_loop (stop recorded) task

-- A status that comes before the report is due is only taken in.
unfoldable pub client_exchange_of :
    Heard → Command → Exchanger → StatusPass → BandwidthState → Turn Exchanger
unfolding client_exchange_report hear_status stop Command.client_tx StatusMessage.deserialize
client_exchange_of (message bs) c t e s =
    let heard = hear_status (Command.client_tx c) (StatusMessage.deserialize bs) s in
    if ltb e.after_read t.next_status then go_on heard t else client_exchange_report t e heard
client_exchange_of broken c t e s = end_loop (stop s) t
client_exchange_of silence c t e s = client_exchange_report t e s

unfoldable pub client_exchange_turn :
    Command → Exchanger → StatusPass → BandwidthState → Turn Exchanger
unfolding client_exchange_of
client_exchange_turn c t e s =
    if s.running then client_exchange_of e.heard c t e s else end_loop s t
