-- ===== src/Client/Udp.antt =====
-- The UDP loops of src/client.rs.
use btest_rs.Base.{ℕ, ◌+◌, ◌%◌, true, Option, none, some, ltb, if◌then◌else◌, u32_mod, length}
use btest_rs.Bandwidth.{BandwidthState}
use btest_rs.Tasks.{
  Turn, go_on, end_loop, repick, keep_pace, count_sent, count_received, count_packet, backoff,
}
use btest_rs.Server.Udp.{UdpTx, UdpPass, Arrival, datagram, failed, timed_out, sequence_of}

-- The 50001st failed send in a row ends the loop.
unfoldable pub client_sent : Option ℕ → UdpTx → UdpPass → BandwidthState → Turn UdpTx
unfolding repick keep_pace count_sent backoff
client_sent (some n) t e s =
    let counted = record t { seq = (t.seq + 1) % u32_mod; consecutive_errors = 0 } in
    let repicked = repick t.tx_size e.after_packet (count_sent n s) t.pace in
    let kept = keep_pace e.before_wait repicked.1 in
    record {
      shared = repicked.0;
      task = record counted { pace = kept.0 };
      status = none;
      pause = kept.1;
      goes_on = true;
    }
client_sent none t e s =
    let errors = t.consecutive_errors + 1 in
    let missed = record t { consecutive_errors = errors } in
    if ltb 50000 errors
    then end_loop s missed
    else record (go_on s missed) { pause = some (backoff errors) }

-- A packet of less than four bytes has no room for its number: the task panics there.
unfoldable pub client_udp_tx_turn : UdpTx → UdpPass → BandwidthState → Turn UdpTx
unfolding client_sent
client_udp_tx_turn t e s =
    if s.running
    then (if ltb t.tx_size 4 then end_loop s t else client_sent e.sent t e s)
    else end_loop s t

unfoldable pub client_arrive : Arrival → Option ℕ → BandwidthState → Turn (Option ℕ)
unfolding count_received count_packet sequence_of
client_arrive (datagram bs) last s =
    let seq = sequence_of bs in
    if ltb (length bs) 4
    then go_on s last
    else go_on (count_packet last seq (count_received (length bs) s)) (some seq)
client_arrive failed last s = record (go_on s last) { pause = some 10000000 }
client_arrive timed_out last s = go_on s last

-- The task's variable is the last sequence number.
unfoldable pub client_udp_rx_turn : Option ℕ → Arrival → BandwidthState → Turn (Option ℕ)
unfolding client_arrive
client_udp_rx_turn last a s = if s.running then client_arrive a last s else end_loop s last
