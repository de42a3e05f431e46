-- ===== src/EcSrp5/Roots.antt =====
-- What `prime_mod_sqrt` of src/ecsrp5.rs promises where it uses Atkin's algorithm.
use btest_rs.Base.{
  ℕ, zero, suc, ==_iff, ◌≡◌, ◌<◌, ◌+◌, ◌-◌, ◌*◌, ◌%◌, ◌==◌, ◌⊎◌, ◌≢◌, inl, inr, sym, ap, subst, ◌∙◌,
  Bool, true, if◌then◌else◌, arith,
}
use native.Mathlib.Nat.{add-mul-mod_self_left, mod-mod, mod-eq_of_lt, mod-lt, zero-mod}
use btest_rs.EcSrp5.Field.{Modpow, legendre_symbol}
use btest_rs.EcSrp5.Sqrt.{Roots, prime_mod_sqrt, is_residue, atkin}

-- Two roots of `n`: both 0, or two that differ and sum to the modulus.
pub record IsRoots (n p x y : ℕ) : Type 0 where
  pub first : (x * x) % p ≡ n % p
  pub second : (y * y) % p ≡ n % p
  pub related : ((x ≡ 0) × (y ≡ 0)) ⊎ (((0 < x) × (x < p)) × (x + y ≡ p))

crossed : (x y : ℕ) → y * y + (x + y) * x ≡ x * x + (x + y) * y
crossed x y = grind arith

square_sum : (p x y : ℕ) → x + y ≡ p → (y * y) % p ≡ (x * x) % p
square_sum p x y h =
    sym (add-mul-mod_self_left (y * y) p x)
    ∙ ap (λ t. t % p) (subst (λ q. y * y + q * x ≡ x * x + q * y) h (crossed x y))
    ∙ add-mul-mod_self_left (x * x) p y

checked :
    (b : Bool) (x y x' y' : ℕ)
    → (if b then Roots.roots x y else Roots.no_roots) ≡ Roots.roots x' y'
    → (b ≡ true) × ((x ≡ x') × (y ≡ y'))
checked b x y x' y' h = ground arith

positive_root : (a p x : ℕ) → 0 < a → (x * x) % p ≡ a → 0 < x
positive_root a p zero h e = absurd (omega (arith, zero-mod p))
positive_root a p (suc x) h e = omega arith

both_found : (a p x y : ℕ) → 0 < a → a < p → x < p → (x * x) % p ≡ a → p - x ≡ y → IsRoots a p x y
both_found a p x y h below small square rest =
    let sum : x + y ≡ p = omega arith in
    let squared : (x * x) % p ≡ a % p = square ∙ sym (mod-eq_of_lt below) in
    record {
      first = squared;
      second = square_sum p x y sum ∙ squared;
      related = inr ((positive_root a p x h square, small), sum);
    }

verified :
    (q a p x y : ℕ)
    → 0 < a
    → a < p
    → (if ((q % p) * (q % p)) % p == a then Roots.roots (q % p) (p - q % p) else Roots.no_roots)
      ≡ Roots.roots x y
    → IsRoots a p x y
verified q a p x y h below e =
    let positive : 0 < p = omega arith in
    let parts = checked _ _ _ x y e in
    let small = subst (λ z. z < p) (parts.1.0) (mod-lt q positive) in
    both_found a p x y h below small
      (subst (λ z. (z * z) % p ≡ a) (parts.1.0) ((==_iff _ a).0 (parts.0)))
      (subst (λ z. p - z ≡ y) (parts.1.0) (parts.1.1))

atkin_lem :
    (modpow : Modpow) (a p x y : ℕ)
    → 0 < a
    → a < p
    → atkin modpow a p ≡ Roots.roots x y
    → IsRoots a p x y
unfolding atkin
atkin_lem modpow a p x y h below e = verified _ a p x y h below e

by_case :
    (a p : ℕ) (square : Bool) (r other : Roots) (x y : ℕ)
    → p % 8 ≡ 5
    → (if a == 0
        then Roots.roots 0 0
        else if square
        then (if p % 8 == 5 then r else other)
        else Roots.no_roots)
      ≡ Roots.roots x y
    → ((a ≡ 0) × ((x ≡ 0) × (y ≡ 0))) ⊎ ((0 < a) × (r ≡ Roots.roots x y))
by_case a p square r other x y h e = ground arith

zero_found : (n p x y : ℕ) → n % p ≡ 0 → x ≡ 0 → y ≡ 0 → IsRoots n p x y
zero_found n p x y h zero_x zero_y =
    let zero_square : (z : ℕ) → z ≡ 0 → (z * z) % p ≡ n % p =
      (λ z e. subst (λ t. (t * t) % p ≡ n % p) (sym e) (zero-mod p ∙ sym h)) in
    record {
      first = zero_square x zero_x;
      second = zero_square y zero_y;
      related = inl (zero_x, zero_y);
    }

reduced : (n p x y : ℕ) → IsRoots (n % p) p x y → IsRoots n p x y
reduced n p x y r = record {
  first = r.first ∙ mod-mod n p;
  second = r.second ∙ mod-mod n p;
  related = r.related;
}

-- For a modulus that leaves 5 on division by 8, whatever `modpow` gives: two numbers returned are
-- square roots of the argument modulo it, both 0, or both between 0 and the modulus with the
-- modulus as their sum.
pub prime_mod_sqrt-IsRoots :
    (fuel : ℕ) (modpow : Modpow) (n p x y : ℕ)
    → p % 8 ≡ 5
    → prime_mod_sqrt fuel modpow n p ≡ Roots.roots x y
    → IsRoots n p x y
unfolding prime_mod_sqrt
prime_mod_sqrt-IsRoots fuel modpow n p x y h e =
    elim (by_case (n % p) p (is_residue (legendre_symbol modpow (n % p) p)) (atkin modpow (n % p) p)
      _ x y h e) [
        | inl (zero_n, (zero_x, zero_y)) ↦ zero_found n p x y zero_n zero_x zero_y
        | inr (positive, found) ↦
            reduced n p x y (atkin_lem modpow (n % p) p x y positive (mod-lt n (omega arith)) found)
      ]

-- For a modulus that leaves 3, 5 or 7 on division by 8, the square root is found or refused without
-- the loops of Tonelli and Shanks: no fuel is needed.
pub prime_mod_sqrt_ends :
    (fuel : ℕ) (modpow : Modpow) (n p : ℕ)
    → ((p % 8 ≡ 3) ⊎ (p % 8 ≡ 5)) ⊎ (p % 8 ≡ 7)
    → (prime_mod_sqrt fuel modpow n p ≢ Roots.spent)
      × (prime_mod_sqrt fuel modpow n p ≡ prime_mod_sqrt 0 modpow n p)
unfolding prime_mod_sqrt atkin
prime_mod_sqrt_ends fuel modpow n p h = ground arith
