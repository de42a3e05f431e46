-- ===== src/Bandwidth.antt =====
-- The shared counters and the pacing of src/bandwidth.rs. An operation on the atomics takes the
-- state and returns the new one; `fetch_add` and `fetch_sub` wrap at the width of the counter.
-- Durations and instants are nanoseconds.
pub mod Budget
pub mod Race
pub mod Pacing
mod Tests
use btest_rs.Base.{
  ℕ, ◌+◌, ◌-◌, ◌*◌, ◌/◌, ◌%◌, max, Bool, true, false, Option, none, some, ltb, ◌==◌, if◌then◌else◌,
  u32_mod, u64_mod, u64_max,
}

pub record BandwidthState : Type 0 where
  pub tx_bytes : ℕ  -- u64
  pub rx_bytes : ℕ  -- u64
  pub tx_speed : ℕ  -- u32
  pub tx_speed_changed : Bool
  pub running : Bool
  pub rx_packets : ℕ  -- u64
  pub rx_lost_packets : ℕ  -- u64
  pub last_udp_seq : ℕ  -- u32
  pub total_tx_bytes : ℕ  -- u64
  pub total_rx_bytes : ℕ  -- u64
  pub total_lost_packets : ℕ  -- u64
  pub intervals : ℕ  -- u32
  pub remote_cpu : ℕ  -- u8
  pub byte_budget : ℕ  -- u64; `u64_max` is unlimited

abbrev pub add_u64 : ℕ → ℕ → ℕ
add_u64 a b = (a + b) % u64_mod

abbrev pub sub_u64 : ℕ → ℕ → ℕ
sub_u64 a b = (a + u64_mod - b) % u64_mod

unfoldable pub new : BandwidthState
new = record {
  tx_bytes = 0;
  rx_bytes = 0;
  tx_speed = 0;
  tx_speed_changed = false;
  running = true;
  rx_packets = 0;
  rx_lost_packets = 0;
  last_udp_seq = 0;
  total_tx_bytes = 0;
  total_rx_bytes = 0;
  total_lost_packets = 0;
  intervals = 0;
  remote_cpu = 0;
  byte_budget = u64_max;
}

unfoldable pub record_interval : ℕ → ℕ → ℕ → BandwidthState → BandwidthState
record_interval tx rx lost s = record s {
  total_tx_bytes = add_u64 s.total_tx_bytes tx;
  total_rx_bytes = add_u64 s.total_rx_bytes rx;
  total_lost_packets = add_u64 s.total_lost_packets lost;
  intervals = (s.intervals + 1) % u32_mod;
}

unfoldable pub stop : BandwidthState → BandwidthState
stop s = record s { running = false }

-- `spend_budget` with nothing between its load and its `fetch_sub`; `Race` has the two apart.
unfoldable pub spend_budget : ℕ → BandwidthState → BandwidthState × Bool
unfolding stop
spend_budget amount s =
    if s.byte_budget == u64_max
    then (s, true)
    else if ltb s.byte_budget amount
    then (stop s, false)
    else (record s { byte_budget = sub_u64 s.byte_budget amount }, true)

unfoldable pub set_budget : ℕ → BandwidthState → BandwidthState
set_budget budget s = record s { byte_budget = budget }

unfoldable pub summary : BandwidthState → ℕ × ℕ × ℕ × ℕ
summary s = (s.total_tx_bytes, s.total_rx_bytes, s.total_lost_packets, s.intervals)

abbrev pub one_second : ℕ
one_second = 1000000000

unfoldable pub calc_send_interval : ℕ → ℕ → Option ℕ
calc_send_interval tx_speed_bps tx_size =
    let interval_ns = one_second * (tx_size * 8) / tx_speed_bps in
    if tx_speed_bps == 0
    then none
    else if ltb 500000000 interval_ns
    then some one_second
    else some (max interval_ns 1)

-- `advance_next_send` returns the new `next_send` and the delay.
unfoldable pub advance_next_send : ℕ → ℕ → ℕ → ℕ × Option ℕ
advance_next_send next_send iv now =
    let moved = next_send + iv in
    let next = (if ltb (moved + iv) now then now else moved) in
    (next, if ltb now next then some (next - now) else none)
