-- ===== src/Bandwidth/Pacing.antt =====
-- The pacing of a sender: `calc_send_interval` chooses the gap, `advance_next_send` keeps it.
use btest_rs.Base.{
  ℕ, ◌+◌, ◌*◌, ◌/◌, ◌≤◌, ◌<◌, ◌≡◌, ◌↔◌, ◌⊎◌, inl, inr, zero, suc, max, refl, false, ◌==◌, ltb,
  Bool-cases, none, some, List, [], ◌∷◌, arith, length,
}
use native.Mathlib.Nat.{mul-le-mul_right}
use btest_rs.Bandwidth.{one_second, calc_send_interval, advance_next_send}

-- Only speed 0 is unlimited.
calc_send_interval-none : (speed size : ℕ) → (calc_send_interval speed size ≡ none) ↔ (speed ≡ 0)
unfolding calc_send_interval
calc_send_interval-none speed size = ground arith

div_bounds : (n d : ℕ) → 0 < d → (n / d * d ≤ n) × (n < (n / d + 1) * d)
div_bounds n d h = grind arith

positive_test : (n : ℕ) → 0 < n → (n == 0) ≡ false
positive_test n h = ground arith

scaled_le : (a r d n : ℕ) → a ≤ r → r * d ≤ n → a * d ≤ n
scaled_le a r d n h k = omega (arith, mul-le-mul_right d h)

scaled_lt : (a r d n : ℕ) → r < a → n < (r + 1) * d → n < a * d
scaled_lt a r d n h k = let next : r + 1 ≤ a = omega arith in omega (arith, mul-le-mul_right d next)

max_one : (raw : ℕ) → max (suc raw) 1 ≡ suc raw
max_one raw = omega arith

-- An interval of at most half a second.
quick_rate :
    (raw speed bits : ℕ)
    → raw ≤ 500000000
    → raw * speed ≤ bits
    → bits < (raw + 1) * speed
    → ((500000001 * speed ≤ bits) × (max raw 1 ≡ one_second))
      ⊎ (((bits < speed) × (max raw 1 ≡ 1))
          ⊎ ((bits < 500000001 * speed)
              × (max raw 1 * speed ≤ bits)
              × (bits < (max raw 1 + 1) * speed)))
quick_rate zero speed bits h low high = inr (inl (omega arith, refl))
quick_rate (suc raw) speed bits h low high = inr (
    inr (
      scaled_lt 500000001 (suc raw) speed bits (omega arith) high,
      rw (max_one raw) low,
      rw (max_one raw) high,
    ))

-- With a speed above 0 there is an interval. If a packet of `size` bytes takes more than half a second
-- at the speed, by at least a nanosecond, the interval is one second; if it takes less than a
-- nanosecond, it is one nanosecond; and otherwise one packet each interval runs at the speed, rounded
-- up by less than a nanosecond's worth.
pub interval_rate :
    (speed size : ℕ)
    → 0 < speed
    → let bits = one_second * (size * 8) in
      (iv : ℕ) × (calc_send_interval speed size ≡ some iv)
      × (((500000001 * speed ≤ bits) × (iv ≡ one_second))
          ⊎ (((bits < speed) × (iv ≡ 1))
              ⊎ ((bits < 500000001 * speed) × (iv * speed ≤ bits) × (bits < (iv + 1) * speed))))
unfolding calc_send_interval
interval_rate speed size h =
    let bits = one_second * (size * 8) in
    let raw = bits / speed in
    let bounds = div_bounds bits speed h in
    rw (positive_test speed h) (elim (Bool-cases (ltb 500000000 raw)) [
      | inl slow ↦
          rw slow (
            one_second,
            refl,
            inl (scaled_le 500000001 raw speed bits (ground arith) bounds.0, refl),
          )
      | inr quick ↦
          rw quick (max raw 1, refl, quick_rate raw speed bits (ground arith) bounds.0 bounds.1)
    ])

-- The sender waits for the delay: no send before `next_send`.
abbrev pub IsPaced : ℕ → ℕ → List ℕ → Type 0
IsPaced iv next [] = Unit {0}
IsPaced iv next (now ∷ rest) = (next ≤ now) × IsPaced iv (advance_next_send next iv now).0 rest

abbrev pub last_or : ℕ → List ℕ → ℕ
last_or d [] = d
last_or d (now ∷ rest) = last_or now rest

advance_bounds :
    (next iv now : ℕ)
    → next ≤ now
    → (next + iv ≤ (advance_next_send next iv now).0)
      × ((advance_next_send next iv now).0 ≤ now + iv)
unfolding advance_next_send
advance_bounds next iv now h = ground arith

-- A sender that obeys the delays sends at most one packet more than its interval allows: `k`
-- sends from the time `next` on take the time of k - 1 intervals at least, whatever the drift.
pub sends_paced :
    (iv next : ℕ) (nows : List ℕ)
    → IsPaced iv next nows
    → next + length nows * iv ≤ last_or next nows + iv
sends_paced iv next [] p = omega arith
sends_paced iv next (now ∷ []) p = omega arith
sends_paced iv next (now ∷ later ∷ rest) p = omega (
  arith,
  advance_bounds next iv now p.0,
  sends_paced iv (advance_next_send next iv now).0 (later ∷ rest) p.1,
)

-- After a call the schedule lags the clock by at most one interval, and the delay is at most one.
pub drift_bounded :
    (next iv now : ℕ)
    → let r = advance_next_send next iv now in
      (now ≤ r.0 + iv)
      × (next ≤ now → (d : ℕ) → r.1 ≡ some d → (1 ≤ d) × (d ≤ iv) × (now + d ≡ r.0))
unfolding advance_next_send
drift_bounded next iv now = (ground arith, λ le d e. ground arith)
