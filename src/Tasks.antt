-- ===== src/Tasks.antt =====
-- What the loops of src/server.rs and src/client.rs share. Each loop is a task; one pass through
-- its body is a turn, which takes the shared counters and what the outside did during the pass: the
-- times that were read, and how the reads and writes ended. The body's code runs as one piece with
-- respect to the other tasks.

use btest_rs.Base.{
  ℕ, min, ◌+◌, ◌-◌, ◌*◌, ◌/◌, ◌%◌, Bool, true, false, Option, none, some, ltb, ◌==◌, if◌then◌else◌,
  u16_mod, u32_mod,
}
use btest_rs.Bandwidth.{BandwidthState, add_u64, calc_send_interval, advance_next_send}
use btest_rs.Protocol.StatusMessage.{StatusMessage}

-- The counters after the pass, the task's own variables, the status message that it wrote, how long
-- it sleeps, and whether the loop goes on.
pub record Turn {ℓ} (Task : Type ℓ) : Type ℓ where
  pub shared : BandwidthState
  pub task : Task
  pub status : Option StatusMessage
  pub pause : Option ℕ
  pub goes_on : Bool

abbrev pub go_on {ℓ} : {Task : Type ℓ} → BandwidthState → Task → Turn Task
go_on s t = record { shared = s; task = t; status = none; pause = none; goes_on = true }

abbrev pub end_loop {ℓ} : {Task : Type ℓ} → BandwidthState → Task → Turn Task
end_loop s t = record { shared = s; task = t; status = none; pause = none; goes_on = false }

-- The pace of a sender.
pub record Pace : Type 0 where
  pub interval : Option ℕ
  pub next_send : ℕ

unfoldable pub start_pace : ℕ → ℕ → ℕ → Pace
start_pace tx_speed tx_size now = record {
  interval = calc_send_interval tx_speed (tx_size % u16_mod);
  next_send = now;
}

-- A speed that the status loop has set is taken over, once.
unfoldable pub repick : ℕ → ℕ → BandwidthState → Pace → BandwidthState × Pace
unfolding start_pace
repick tx_size now s p =
    if s.tx_speed_changed
    then (record s { tx_speed_changed = false }, start_pace s.tx_speed tx_size now)
    else (s, p)

-- The wait before the next packet. Without an interval the loop only yields.
unfoldable pub keep_pace_of : Option ℕ → ℕ → Pace → Pace × Option ℕ
keep_pace_of none now p = (p, none)
keep_pace_of (some iv) now p =
    let moved = advance_next_send p.next_send iv now in (record p { next_send = moved.0 }, moved.1)

unfoldable pub keep_pace : ℕ → Pace → Pace × Option ℕ
unfolding keep_pace_of
keep_pace now p = keep_pace_of p.interval now p

-- The speed that a report of `bytes_received` asks for: one and a half times what arrived.
unfoldable pub adapted_speed : ℕ → ℕ
adapted_speed bytes_received = bytes_received * 8 * 3 / 2 % u32_mod

-- A report from the peer: its load, and the new speed if this side sends.
unfoldable pub hear_status : Bool → StatusMessage → BandwidthState → BandwidthState
unfolding adapted_speed
hear_status sends m s =
    let heard = record s { remote_cpu = m.cpu_load } in
    if sends
    then (if m.bytes_received == 0
        then heard
        else record heard { tx_speed = adapted_speed m.bytes_received; tx_speed_changed = true })
    else heard

unfoldable pub count_sent : ℕ → BandwidthState → BandwidthState
count_sent n s = record s { tx_bytes = add_u64 s.tx_bytes n }

unfoldable pub count_received : ℕ → BandwidthState → BandwidthState
count_received n s = record s { rx_bytes = add_u64 s.rx_bytes n }

-- The numbers that the arrival of `seq` shows to be missing.
unfoldable pub gap : Option ℕ → ℕ → ℕ
gap none seq = 0
gap (some last) seq =
    let expected = (last + 1) % u32_mod in if ltb expected seq then seq - expected else 0

-- A datagram that carries `seq`, after its bytes are counted.
unfoldable pub count_packet : Option ℕ → ℕ → BandwidthState → BandwidthState
unfolding gap
count_packet last seq s = record s {
  rx_packets = add_u64 s.rx_packets 1;
  rx_lost_packets = add_u64 s.rx_lost_packets (gap last seq);
}

-- The pause after `errors` failed sends in a row, in nanoseconds.
unfoldable pub backoff : ℕ → ℕ
backoff errors = min (200 + min errors 5000 * 10) 10000 * 1000
