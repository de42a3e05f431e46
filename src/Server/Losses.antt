-- ===== src/Server/Losses.antt =====
-- The losses that `udp_rx_loop` of src/server.rs counts.
use btest_rs.Base.{
  ℕ, ◌+◌, ◌≤◌, ◌<◌, ◌≡◌, refl, true, false, ltb, Option, some, List, [], ◌∷◌, Bytes, length,
  u32_mod, u64_mod, u64_max, arith,
}
use btest_rs.Bandwidth.{BandwidthState}
use btest_rs.Bandwidth.Budget.{spend_budget_unlimited}
use btest_rs.Tasks.{go_on, count_packet, count_received, gap}
use btest_rs.Server.Udp.{datagram, udp_rx_turn, arrive, accept, sequence_of}

-- The turns of the loop on the datagrams that arrive.
unfoldable pub receive_all : Option ℕ → List Bytes → BandwidthState → BandwidthState
unfolding udp_rx_turn
receive_all last [] s = s
receive_all last (bs ∷ rest) s =
    let turn = udp_rx_turn last (datagram bs) s in receive_all turn.task rest turn.shared

-- The numbers of the datagrams go up from `last`, below 2 ^ 32.
abbrev pub IsInOrder : ℕ → List Bytes → Type 0
IsInOrder last [] = Unit {0}
IsInOrder last (bs ∷ rest) =
    (4 ≤ length bs)
    × (last < sequence_of bs)
    × (sequence_of bs < u32_mod)
    × IsInOrder (sequence_of bs) rest

abbrev pub last_number : ℕ → List Bytes → ℕ
last_number last [] = last
last_number last (bs ∷ rest) = last_number (sequence_of bs) rest

-- A session without a budget, with room in its counters.
pub record IsReceiving (last : ℕ) (s : BandwidthState) : Type 0 where
  pub running : s.running ≡ true
  pub unlimited : s.byte_budget ≡ u64_max
  pub room : s.rx_packets + s.rx_lost_packets + u32_mod < u64_mod + last

-- One datagram in order.
module _ (last : ℕ) (bs : Bytes) {s : BandwidthState} (v : IsReceiving last s)
    (long : 4 ≤ length bs) (later : last < sequence_of bs) (small : sequence_of bs < u32_mod) where
  long_enough : ltb (length bs) 4 ≡ false
  long_enough = ground arith

  accepted : accept (some last) bs s ≡ (
      let seq = sequence_of bs in
      go_on
        (record (count_packet (some last) seq (count_received (length bs) s)) {
          last_udp_seq = seq;
        })
        (some seq))
  unfolding accept
  accepted = rw (spend_budget_unlimited (length bs) s v.unlimited)

  taken_in : udp_rx_turn (some last) (datagram bs) s ≡ accept (some last) bs s
  unfolding udp_rx_turn arrive
  taken_in = simp (v.running, long_enough)

  one_received :
      let t = udp_rx_turn (some last) (datagram bs) s in
      (t.task ≡ some (sequence_of bs))
      × IsReceiving (sequence_of bs) t.shared
      × (t.shared.rx_packets ≡ s.rx_packets + 1)
      × (t.shared.rx_packets + t.shared.rx_lost_packets + last
          ≡ s.rx_packets + s.rx_lost_packets + sequence_of bs)
  unfolding count_packet count_received gap
  one_received =
      rw (taken_in, accepted)
        (
          refl,
          record { running = v.running; unlimited = v.unlimited; room = ground arith },
          ground arith,
          ground arith,
        )

-- A receiver without a budget, with room in its counters, that is sent numbers in order, with some
-- missing, counts every datagram that arrives, and counts every number that does not as lost:
-- together they are the numbers after `last`, the last one that it had seen.
pub losses_counted :
    (last : ℕ) (arrivals : List Bytes) {s : BandwidthState}
    → IsReceiving last s
    → IsInOrder last arrivals
    → let s' = receive_all (some last) arrivals s in
      (s'.rx_packets ≡ s.rx_packets + length arrivals)
      × (s'.rx_packets + s'.rx_lost_packets + last
          ≡ s.rx_packets + s.rx_lost_packets + last_number last arrivals)
unfolding receive_all
losses_counted last [] v h = (omega arith, refl)
losses_counted last (bs ∷ rest) {s} v (long, later, small, h) =
    let one = one_received last bs v long later small in
    let more = losses_counted (sequence_of bs) rest one.1 h in
    rw (one.0, receive_all) (omega (arith, more.0, one.2), omega (arith, more.1, one.3))
