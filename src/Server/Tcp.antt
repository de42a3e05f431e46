-- ===== src/Server/Tcp.antt =====
-- The TCP loops of src/server.rs.
use btest_rs.Base.{
  ℕ, ◌+◌, ◌*◌, ◌%◌, max, Bool, true, false, ◌&&◌, Option, none, some, leb, if◌then◌else◌, u32_mod,
}
use btest_rs.Bandwidth.{BandwidthState, one_second, record_interval, stop, spend_budget}
use btest_rs.Protocol.StatusMessage.{StatusMessage}
use btest_rs.Tasks.{
  Turn, go_on, end_loop, Pace, start_pace, repick, keep_pace, count_sent, count_received,
}

-- The variables of `tcp_tx_loop_inner`.
pub record TcpTx : Type 0 where
  pub tx_size : ℕ
  pub effective_size : ℕ
  pub send_status : Bool
  pub pace : Pace
  pub next_status : ℕ
  pub status_seq : ℕ  -- u32

-- What the outside does in one pass: the load and the time at its top, how the writes end, and the
-- times that are read after them.
pub record TxPass : Type 0 where
  pub cpu : ℕ
  pub top : ℕ
  pub status_written : Bool
  pub after_status : ℕ
  pub packet_written : Bool
  pub after_packet : ℕ
  pub before_wait : ℕ

-- Larger writes without a limit.
abbrev pub effective : Option ℕ → ℕ → ℕ
effective none tx_size = max tx_size (256 * 1024)
effective (some iv) tx_size = tx_size

unfoldable pub tcp_tx_start : ℕ → ℕ → Bool → ℕ → TcpTx
unfolding start_pace
tcp_tx_start tx_size tx_speed send_status now =
    let pace = start_pace tx_speed tx_size now in
    record {
      tx_size = tx_size;
      effective_size = effective pace.interval tx_size;
      send_status = send_status;
      pace = pace;
      next_status = now + one_second;
      status_seq = 0;
    }

unfoldable pub rx_status : ℕ → ℕ → BandwidthState → StatusMessage
rx_status cpu seq s = record { seq = seq; bytes_received = s.rx_bytes % u32_mod; cpu_load = cpu }

-- The status message of the bidirectional mode, when it is due.
unfoldable pub inject_status : TcpTx → TxPass → BandwidthState → Turn TcpTx
unfolding record_interval stop rx_status
inject_status t e s =
    let seq = (t.status_seq + 1) % u32_mod in
    let swapped = record s { rx_bytes = 0 } in
    if t.send_status && leb t.next_status e.top
    then (if e.status_written
        then record {
          shared = record_interval 0 s.rx_bytes 0 swapped;
          task = record t { status_seq = seq; next_status = e.after_status + one_second };
          status = some (rx_status e.cpu seq s);
          pause = none;
          goes_on = true;
        }
        else end_loop (stop swapped) (record t { status_seq = seq }))
    else go_on s t

-- The packet was written: it is counted, and the pace kept.
unfoldable pub after_packet : TcpTx → TxPass → BandwidthState → Turn TcpTx
unfolding count_sent repick keep_pace
after_packet t e s =
    let repicked = repick t.tx_size e.after_packet (count_sent t.effective_size s) t.pace in
    let kept = keep_pace e.before_wait repicked.1 in
    record {
      shared = repicked.0;
      task = record t { pace = kept.0 };
      status = none;
      pause = kept.1;
      goes_on = true;
    }

unfoldable pub send_packet : TcpTx → TxPass → BandwidthState → Turn TcpTx
unfolding spend_budget stop after_packet
send_packet t e s =
    let spent = spend_budget t.effective_size s in
    if spent.1
    then (if e.packet_written then after_packet t e spent.0 else end_loop (stop spent.0) t)
    else end_loop spent.0 t

unfoldable pub tcp_tx_turn : TcpTx → TxPass → BandwidthState → Turn TcpTx
unfolding inject_status send_packet
tcp_tx_turn t e s =
    let injected = inject_status t e s in
    if s.running
    then (if injected.goes_on
        then record (send_packet injected.task e injected.shared) { status = injected.status }
        else injected)
    else end_loop s t

-- How a read ends: with some bytes, or with the end of the stream or an error.
pub data Read : Type 0 where
  received : ℕ → Read
  closed : Read

-- The bytes of a read are spent from the budget before they are counted.
unfoldable pub receive : Read → BandwidthState → BandwidthState × Bool
unfolding spend_budget stop count_received
receive closed s = (stop s, false)
receive (received n) s =
    let spent = spend_budget n s in
    if spent.1 then (count_received n spent.0, true) else (spent.0, false)

unfoldable pub tcp_rx_turn : Read → BandwidthState → BandwidthState × Bool
unfolding receive
tcp_rx_turn r s = if s.running then receive r s else (s, false)

-- One second of `tcp_status_sender`: its sequence number, the load, and how the write ends.
unfoldable pub tcp_status_turn : ℕ → ℕ → Bool → BandwidthState → Turn ℕ
unfolding record_interval stop rx_status
tcp_status_turn seq cpu written s =
    let next = (seq + 1) % u32_mod in
    let swapped = record s { rx_bytes = 0 } in
    if s.running
    then (if written
        then record {
          shared = record_interval 0 s.rx_bytes 0 swapped;
          task = next;
          status = some (rx_status cpu next s);
          pause = none;
          goes_on = true;
        }
        else end_loop (stop swapped) next)
    else end_loop s seq

-- The ticks of a bidirectional test in `run_tcp_test_inner`: the sent bytes are printed.
unfoldable pub both_turn : ℕ → BandwidthState → Turn ℕ
both_turn seq s =
    if s.running then go_on (record s { tx_bytes = 0 }) ((seq + 1) % u32_mod) else end_loop s seq
