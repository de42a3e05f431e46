-- ===== src/Cpu/Load.antt =====
-- What `compute_usage` of src/cpu.rs gives.
use btest_rs.Base.{ℕ, ◌≡◌, ◌≤◌, ◌<◌, ◌+◌, ◌-◌, ◌*◌, ◌/◌, ◌%◌, ◌^◌, false, min, ◌==◌, u64_mod, arith}
use native.Mathlib.Nat.{div-le_of_le-mul, div-mul-le_self, lt-div-mul-add}
use btest_rs.Cpu.{compute_usage, wrapping_sub}

wrapping_sub-small : (a b : ℕ) → b ≤ a → a < u64_mod → wrapping_sub a b ≡ a - b
wrapping_sub-small a b h k = omega arith

add_one_times : (a t : ℕ) → (a + 1) * t ≡ a * t + t
add_one_times a t = grind arith

min_below : (a : ℕ) → a ≤ 100 → min a 100 ≡ a
min_below a h = omega arith

positive_test : (n : ℕ) → 0 < n → (n == 0) ≡ false
positive_test n h = ground arith

-- A share of a total, rounded down.
percentage :
    (b t : ℕ)
    → 0 < t
    → b ≤ t
    → (b * 100 / t ≤ 100) × (b * 100 / t * t ≤ b * 100) × (b * 100 < (b * 100 / t + 1) * t)
percentage b t h k =
    let bound : b * 100 ≤ t * 100 = omega arith in
    let next : (b * 100 / t + 1) * t ≡ b * 100 / t * t + t = add_one_times (b * 100 / t) t in
    (div-le_of_le-mul t bound, div-mul-le_self (b * 100) t, rw next (lt-div-mul-add h))

reduced :
    (t i : ℕ)
    → 0 < t
    → i ≤ t
    → t < 2 ^ 57
    → min ((wrapping_sub t i * 100) % u64_mod / t) 100 ≡ (t - i) * 100 / t
reduced t i h k small =
    let fits : (t - i) * 100 % u64_mod ≡ (t - i) * 100 = omega arith in
    rw (wrapping_sub-small t i k (omega arith), fits)
      (min_below ((t - i) * 100 / t) ((percentage (t - i) t h (omega arith)).0))

-- Where the ticks have grown, the idle ticks have not grown by more than all ticks, and all ticks are
-- fewer than 2 ^ 57, the load is at most 100 and is the percentage of the ticks that were not idle,
-- rounded down.
pub compute_usage-percentage :
    (total idle total' idle' : ℕ)
    → total < total'
    → idle' - idle ≤ total' - total
    → total' < 2 ^ 57
    → let load = compute_usage (total, idle) (total', idle') in
      let busy = (total' - total) - (idle' - idle) in
      (load ≤ 100)
      × (load * (total' - total) ≤ busy * 100)
      × (busy * 100 < (load + 1) * (total' - total))
unfolding compute_usage
compute_usage-percentage total idle total' idle' h k small =
    let grown : 0 < total' - total = omega arith in
    rw
      (
        positive_test (total' - total) grown,
        reduced (total' - total) (idle' - idle) grown k (omega arith),
      )
      (percentage ((total' - total) - (idle' - idle)) (total' - total) grown (omega arith))
