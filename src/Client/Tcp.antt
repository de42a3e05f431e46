-- ===== src/Client/Tcp.antt =====
-- The TCP loops of src/client.rs.
use btest_rs.Base.{
  ℕ, min, bit_and, Bool, true, false, ◌&&◌, [], ◌∷◌, Option, none, some, Bytes, length, get_or, ltb,
  leb, ◌==◌, if◌then◌else◌,
}
use btest_rs.Bandwidth.{BandwidthState}
use btest_rs.Protocol.{status_msg_type, status_msg_size}
use btest_rs.Protocol.StatusMessage
use btest_rs.Protocol.StatusMessage.{StatusMessage}
use btest_rs.Tasks.{
  Turn, end_loop, Pace, start_pace, repick, keep_pace, count_sent, count_received, hear_status,
}
use btest_rs.Server.Tcp.{effective}

-- The variables of `tcp_client_tx_loop`.
pub record ClientTx : Type 0 where
  pub tx_size : ℕ
  pub effective_size : ℕ
  pub pace : Pace

-- One pass: whether the packet was written, and the times read after it.
pub record SendPass : Type 0 where
  pub packet_written : Bool
  pub after_packet : ℕ
  pub before_wait : ℕ

unfoldable pub client_tx_start : ℕ → ℕ → ℕ → ClientTx
unfolding start_pace
client_tx_start tx_size tx_speed now =
    let pace = start_pace tx_speed tx_size now in
    record { tx_size = tx_size; effective_size = effective pace.interval tx_size; pace = pace }

-- The packet is counted, and the pace kept.
unfoldable pub packet_sent : ClientTx → SendPass → BandwidthState → Turn ClientTx
unfolding count_sent repick keep_pace
packet_sent t e s =
    let repicked = repick t.tx_size e.after_packet (count_sent t.effective_size s) t.pace in
    let kept = keep_pace e.before_wait repicked.1 in
    record {
      shared = repicked.0;
      task = record t { pace = kept.0 };
      status = none;
      pause = kept.1;
      goes_on = true;
    }

-- A write that fails ends the loop, and leaves the test running.
unfoldable pub client_tx_turn : ClientTx → SendPass → BandwidthState → Turn ClientTx
unfolding packet_sent
client_tx_turn t e s =
    if s.running
    then (if e.packet_written then packet_sent t e s else end_loop s t)
    else end_loop s t

-- The load of the first status message in a buffer: the type, and a byte with its high bit set, with
-- the room of a message from there on.
unfoldable pub find_load : Bytes → Option ℕ
find_load [] = none
find_load (b ∷ bs) =
    let later = find_load bs in
    let raw = get_or bs 0 0 in
    if ltb (length (b ∷ bs)) status_msg_size
    then none
    else if b == status_msg_type && leb 0x80 raw
    then some (min (bit_and raw 0x7f) 100)
    else later

unfoldable pub store_load : Option ℕ → BandwidthState → BandwidthState
store_load none s = s
store_load (some load) s = record s { remote_cpu = load }

-- What a read gives: the bytes, at least one, or the end of the stream or an error.
pub data ReadBytes : Type 0 where
  got : Bytes → ReadBytes
  ended : ReadBytes

unfoldable pub take_in : ReadBytes → BandwidthState → BandwidthState × Bool
unfolding count_received find_load store_load
take_in ended s = (s, false)
take_in (got bs) s = (store_load (find_load bs) (count_received (length bs) s), true)

unfoldable pub client_rx_turn : ReadBytes → BandwidthState → BandwidthState × Bool
unfolding take_in
client_rx_turn r s = if s.running then take_in r s else (s, false)

-- A whole status message of `tcp_client_status_reader`, or an error.
unfoldable pub read_status : Option Bytes → BandwidthState → BandwidthState × Bool
unfolding hear_status StatusMessage.deserialize
read_status none s = (s, false)
read_status (some buf) s =
    if get_or buf 0 0 == status_msg_type && leb 0x80 (get_or buf 1 0)
    then (hear_status true (StatusMessage.deserialize buf) s, true)
    else (s, true)

unfoldable pub status_reader_turn : Option Bytes → BandwidthState → BandwidthState × Bool
unfolding read_status
status_reader_turn buf s = if s.running then read_status buf s else (s, false)
