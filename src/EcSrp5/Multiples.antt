-- ===== src/EcSrp5/Multiples.antt =====
-- `scalar_mul` of src/ecsrp5.rs: how long its loop is, and what it adds up.
use btest_rs.Base.{
  ℕ, zero, suc, ◌≡◌, sym, subst, ◌+◌, if◌then◌else◌, ◌<◌, ◌≤◌, ◌*◌, ◌/◌, ◌%◌, ◌^◌, ◌==◌, refl, ap,
  ◌∙◌, false, arith,
}
use native.Mathlib.Nat.{div-div-eq-div-mul}
use btest_rs.EcSrp5.Field.{Modpow}
use btest_rs.EcSrp5.Point
use btest_rs.EcSrp5.Point.{Point, add, bits, bits_from, scalar_loop, scalar_mul}

bits_bound_from : (fuel k n : ℕ) → n < 2 ^ k → bits_from fuel n ≤ k
unfolding bits_from
bits_bound_from zero k n h = omega arith
bits_bound_from (suc fuel) zero n h = ground arith
bits_bound_from (suc fuel) (suc k) n h = ground (arith, bits_bound_from fuel k (n / 2))

bits_cover_from : (fuel n : ℕ) → n ≤ fuel → n < 2 ^ bits_from fuel n
unfolding bits_from
bits_cover_from zero n h = omega arith
bits_cover_from (suc fuel) zero h = omega arith
bits_cover_from (suc fuel) (suc n) h = rw (not_zero n) (
    doubled_bound (suc n) (bits_from fuel (suc n / 2))
      (bits_cover_from fuel (suc n / 2) (omega arith)))
  where
    not_zero : (n : ℕ) → (suc n == 0) ≡ false
    not_zero n = ground arith

    doubled_bound : (n k : ℕ) → n / 2 < 2 ^ k → n < 2 ^ suc k
    doubled_bound n k h = omega arith

-- Doublings, the innermost first.
unfoldable pub doubled : Modpow → ℕ → Point → Point
doubled modpow zero p = p
doubled modpow (suc k) p = doubled modpow k (add modpow p p)

-- The multiple as a sum, from the lowest digit on: the points doubled `i` times, for the digits `i`
-- below `k` of the scalar that are 1.
unfoldable pub digit_sum : Modpow → Point → ℕ → ℕ → Point
unfolding doubled
digit_sum modpow p n zero = Point.at_infinity
digit_sum modpow p n (suc i) =
    if n / 2 ^ i % 2 == 1
    then add modpow (digit_sum modpow p n i) (doubled modpow i p)
    else digit_sum modpow p n i

doubled_last :
    (modpow : Modpow) (i : ℕ) (p : Point)
    → doubled modpow (suc i) p ≡ add modpow (doubled modpow i p) (doubled modpow i p)
unfolding doubled
doubled_last modpow zero p = refl
doubled_last modpow (suc i) p = doubled_last modpow i (add modpow p p)

twice_last : (i : ℕ) → 2 ^ i * 2 ≡ 2 ^ suc i
twice_last i = omega arith

next_half : (n i : ℕ) → n / 2 ^ i / 2 ≡ n / 2 ^ suc i
next_half n i = div-div-eq-div-mul n (2 ^ i) 2 ∙ ap (λ d. n / d) (twice_last i)

module _ (modpow : Modpow) (p : Point) (n : ℕ) where
  -- From the digit `i` on, the loop adds up the rest.
  loop-digit_sum :
      (k i : ℕ)
      → scalar_loop modpow k (n / 2 ^ i) (digit_sum modpow p n i) (doubled modpow i p)
        ≡ digit_sum modpow p n (k + i)
  unfolding scalar_loop digit_sum
  loop-digit_sum zero i = ap (digit_sum modpow p n) (omega arith)
  loop-digit_sum (suc k) i =
      let rest : scalar_loop modpow k (n / 2 ^ i / 2) (digit_sum modpow p n (suc i))
            (add modpow (doubled modpow i p) (doubled modpow i p))
          ≡ digit_sum modpow p n (k + suc i) =
        rw (next_half n i, sym (doubled_last modpow i p)) (loop-digit_sum k (suc i)) in
      rest ∙ ap (digit_sum modpow p n) (omega arith)

-- A scalar below `2 ^ m` has at most `m` digits, and is below 2 to the power of their number; its
-- multiple of a point is the sum of the doubled points for its digits that are 1, from the lowest
-- digit on, one addition each.
pub scalar_mul-digit_sum :
    (modpow : Modpow) (p : Point) (m n : ℕ)
    → n < 2 ^ m
    → (bits n ≤ m) × (n < 2 ^ bits n) × (scalar_mul modpow p n ≡ digit_sum modpow p n (bits n))
unfolding bits scalar_mul digit_sum doubled
scalar_mul-digit_sum modpow p m n h =
    let whole : n / 2 ^ 0 ≡ n = omega arith in
    let ending : bits n + 0 ≡ bits n = omega arith in
    (
      bits_bound_from n m n h,
      bits_cover_from n n (omega arith),
      subst
            (λ d.
              scalar_loop modpow (bits n) d Point.at_infinity p ≡ digit_sum modpow p n (bits n + 0))
            whole (loop-digit_sum modpow p n (bits n) 0)
          ∙ ap (digit_sum modpow p n) ending,
    )
