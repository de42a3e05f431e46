-- ===== src/Server/Udp.antt =====
-- The UDP loops of src/server.rs.
use btest_rs.Base.{
  ◌≤◌, ℕ, ◌+◌, ◌*◌, ◌^◌, ◌%◌, not, ◌||◌, true, Option, none, some, ltb, if◌then◌else◌, u32_mod,
  Bytes, length, get_or,
}
use btest_rs.Bandwidth.{BandwidthState, spend_budget}
use btest_rs.Tasks.{
  Turn, go_on, end_loop, Pace, start_pace, repick, keep_pace, count_sent, count_received,
  count_packet, backoff,
}

-- The variables of `udp_tx_loop`.
pub record UdpTx : Type 0 where
  pub tx_size : ℕ
  pub seq : ℕ  -- u32
  pub pace : Pace
  pub consecutive_errors : ℕ  -- u32

-- One pass: how many bytes the socket took, if it took the packet, and the times read after it.
pub record UdpPass : Type 0 where
  pub sent : Option ℕ
  pub after_packet : ℕ
  pub before_wait : ℕ

-- A socket takes no more of a packet than there is.
abbrev pub IsTaken : ℕ → Option ℕ → Type 0
IsTaken tx_size none = Unit {0}
IsTaken tx_size (some n) = n ≤ tx_size

unfoldable pub udp_tx_start : ℕ → ℕ → ℕ → UdpTx
unfolding start_pace
udp_tx_start tx_size tx_speed now = record {
  tx_size = tx_size;
  seq = 0;
  pace = start_pace tx_speed tx_size now;
  consecutive_errors = 0;
}

-- The 50001st failed send in a row ends the loop.
unfoldable pub sent_or_failed : Option ℕ → UdpTx → UdpPass → BandwidthState → Turn UdpTx
unfolding repick keep_pace count_sent backoff
sent_or_failed (some n) t e s =
    let counted = record t { seq = (t.seq + 1) % u32_mod; consecutive_errors = 0 } in
    let repicked = repick t.tx_size e.after_packet (count_sent n s) t.pace in
    let kept = keep_pace e.before_wait repicked.1 in
    record {
      shared = repicked.0;
      task = record counted { pace = kept.0 };
      status = none;
      pause = kept.1;
      goes_on = true;
    }
sent_or_failed none t e s =
    let errors = t.consecutive_errors + 1 in
    let failed = record t { consecutive_errors = errors } in
    if ltb 50000 errors
    then end_loop s failed
    else record (go_on s failed) { pause = some (backoff errors) }

-- A packet of less than four bytes has no room for its number: the write of it panics, and the task
-- ends there.
unfoldable pub udp_tx_turn : UdpTx → UdpPass → BandwidthState → Turn UdpTx
unfolding spend_budget sent_or_failed
udp_tx_turn t e s =
    let spent = spend_budget t.tx_size s in
    if s.running
    then (if not spent.1 || ltb t.tx_size 4
        then end_loop spent.0 t
        else sent_or_failed e.sent t e spent.0)
    else end_loop s t

-- What `recv_from` gives within its five seconds.
pub data Arrival : Type 0 where
  datagram : Bytes → Arrival
  failed : Arrival
  timed_out : Arrival

-- The first four bytes, most significant first.
unfoldable pub sequence_of : Bytes → ℕ
sequence_of bs =
    get_or bs 0 0 * 2 ^ 24 + get_or bs 1 0 * 2 ^ 16 + get_or bs 2 0 * 2 ^ 8 + get_or bs 3 0

-- A datagram of at least four bytes.
unfoldable pub accept : Option ℕ → Bytes → BandwidthState → Turn (Option ℕ)
unfolding spend_budget count_received count_packet sequence_of
accept last bs s =
    let spent = spend_budget (length bs) s in
    let seq = sequence_of bs in
    if spent.1
    then go_on
        (record (count_packet last seq (count_received (length bs) spent.0)) { last_udp_seq = seq })
        (some seq)
    else end_loop spent.0 last

unfoldable pub arrive : Arrival → Option ℕ → BandwidthState → Turn (Option ℕ)
unfolding accept
arrive (datagram bs) last s = if ltb (length bs) 4 then go_on s last else accept last bs s
arrive failed last s = record (go_on s last) { pause = some 10000000 }
arrive timed_out last s = go_on s last

-- The task's variable is the last sequence number.
unfoldable pub udp_rx_turn : Option ℕ → Arrival → BandwidthState → Turn (Option ℕ)
unfolding arrive
udp_rx_turn last a s = if s.running then arrive a last s else end_loop s last
