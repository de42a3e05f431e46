-- ===== src/EcSrp5/Lifting.antt =====
-- The points that `lift_x` of src/ecsrp5.rs finds over one x.
use btest_rs.Base.{
  ℕ, ◌≡◌, ◌<◌, ◌+◌, ◌*◌, ◌%◌, ◌⊎◌, inl, inr, refl, sym, subst, ◌∙◌, Bool, true, false,
  if◌then◌else◌, arith,
}
use native.Mathlib.Nat.{mod-mod}
use btest_rs.EcSrp5.Field.{Modpow, field_p}
use btest_rs.EcSrp5.Sqrt.{Roots, prime_mod_sqrt}
use btest_rs.EcSrp5.Point
use btest_rs.EcSrp5.Point.{Point}
use btest_rs.EcSrp5.Curve.{WCurve, lift_x, with_parity, is_odd, y_squared}
use btest_rs.EcSrp5.Roots.{IsRoots, prime_mod_sqrt-IsRoots}

-- A point over `x`, whose y is a root of the curve's equation and has the parity asked for unless
-- it is 0.
pub record IsLift (w : WCurve) (x : ℕ) (parity : Bool) (pt : Point) : Type 0 where
  pub finite : pt.infinity ≡ false
  pub over : pt.x ≡ (x % field_p + w.conversion_from_m) % field_p
  pub on_curve : (pt.y * pt.y) % field_p ≡ y_squared (x % field_p)
  pub small : pt.y < field_p
  pub chosen : (pt.y ≡ 0) ⊎ (is_odd pt.y ≡ parity)

Roots-cases :
    (r : Roots)
    → ((x : ℕ) × (y : ℕ) × (r ≡ Roots.roots x y)) ⊎ ((r ≡ Roots.no_roots) ⊎ (r ≡ Roots.spent))
Roots-cases (Roots.roots x y) = inl (x, y, refl)
Roots-cases Roots.no_roots = inr (inl refl)
Roots-cases Roots.spent = inr (inr refl)

-- The y of `with_parity`.
abbrev pub chosen_root : Bool → ℕ → ℕ → ℕ
chosen_root true y1 y2 = if is_odd y1 then y1 else y2
chosen_root false y1 y2 = if is_odd y1 then y2 else y1

pub with_parity_root :
    (parity : Bool) (x_w y1 y2 : ℕ)
    → with_parity parity x_w y1 y2 ≡ Point.new x_w (chosen_root parity y1 y2)
unfolding with_parity
with_parity_root true x_w y1 y2 = ground arith
with_parity_root false x_w y1 y2 = ground arith

either_root :
    (parity : Bool) (y1 y2 : ℕ) → (chosen_root parity y1 y2 ≡ y1) ⊎ (chosen_root parity y1 y2 ≡ y2)
either_root true y1 y2 = ground arith
either_root false y1 y2 = ground arith

abbrev pub Related : ℕ → ℕ → ℕ → Type 0
Related p y1 y2 = ((y1 ≡ 0) × (y2 ≡ 0)) ⊎ (((0 < y1) × (y1 < p)) × (y1 + y2 ≡ p))

parity_chosen :
    (p : ℕ) (parity : Bool) (y1 y2 : ℕ)
    → p % 2 ≡ 1
    → Related p y1 y2
    → (chosen_root parity y1 y2 < p)
      × ((chosen_root parity y1 y2 ≡ 0) ⊎ (is_odd (chosen_root parity y1 y2) ≡ parity))
parity_chosen p true y1 y2 h r = ground arith
parity_chosen p false y1 y2 h r = ground arith

-- The roots of the two parities are the two roots.
pub roots_paired :
    (p y1 y2 : ℕ)
    → Related p y1 y2
    → ((chosen_root true y1 y2 ≡ 0) × (chosen_root false y1 y2 ≡ 0))
      ⊎ (chosen_root true y1 y2 + chosen_root false y1 y2 ≡ p)
roots_paired p y1 y2 r = ground arith

square_chosen :
    (n p : ℕ) (parity : Bool) (y1 y2 : ℕ)
    → IsRoots n p y1 y2
    → (chosen_root parity y1 y2 * chosen_root parity y1 y2) % p ≡ n % p
square_chosen n p parity y1 y2 r = elim (either_root parity y1 y2) [
  | inl e ↦ subst (λ y. (y * y) % p ≡ n % p) (sym e) (r.first)
  | inr e ↦ subst (λ y. (y * y) % p ≡ n % p) (sym e) (r.second)
]

pick :
    (w : WCurve) (x : ℕ) (parity : Bool) (y1 y2 : ℕ)
    → IsRoots (y_squared (x % field_p)) field_p y1 y2
    → IsLift w x parity
        (Point.new ((x % field_p + w.conversion_from_m) % field_p) (chosen_root parity y1 y2))
unfolding Point.new
pick w x parity y1 y2 r =
    let about = parity_chosen field_p parity y1 y2 refl (r.related) in
    record {
      finite = refl;
      over = refl;
      on_curve = square_chosen (y_squared (x % field_p)) field_p parity y1 y2 r ∙ mod-mod _ field_p;
      small = about.0;
      chosen = about.1;
    }

-- The points over `x` for both parities: two roots, or none.
pub record IsPair (w : WCurve) (x : ℕ) (lift : Bool → Point) : Type 0 where
  pub y1 : ℕ
  pub y2 : ℕ
  pub pair : IsRoots (y_squared (x % field_p)) field_p y1 y2
  pub points :
      (parity : Bool)
      → lift parity
        ≡ Point.new ((x % field_p + w.conversion_from_m) % field_p) (chosen_root parity y1 y2)

module _ (modpow : Modpow) (w : WCurve) (x : ℕ) where
  lifts_found :
      (y1 y2 : ℕ)
      → prime_mod_sqrt 0 modpow (y_squared (x % field_p)) field_p ≡ Roots.roots y1 y2
      → IsPair w x (lift_x modpow w x)
  unfolding lift_x
  lifts_found y1 y2 e = record {
    y1 = y1;
    y2 = y2;
    pair = prime_mod_sqrt-IsRoots 0 modpow _ field_p y1 y2 refl e;
    points = λ parity. rw e (with_parity_root parity _ y1 y2);
  }

  pub lift_x-cases :
      IsPair w x (lift_x modpow w x)
      ⊎ ((parity : Bool) → lift_x modpow w x parity ≡ Point.at_infinity)
  unfolding lift_x
  lift_x-cases = elim (Roots-cases (prime_mod_sqrt 0 modpow (y_squared (x % field_p)) field_p)) [
    | inl (y1, y2, e) ↦ inl (lifts_found y1 y2 e)
    | inr (inl e) ↦ inr (λ parity. rw e refl)
    | inr (inr e) ↦ inr (λ parity. rw e refl)
  ]

  -- `lift_x` gives the point at infinity, or a point over the x it is given whose y is below the
  -- field's prime, solves the equation of the curve, and has the parity asked for unless it is 0;
  -- and it does the first for both parities or for none.
  pub lift_x-IsLift :
      ((parity : Bool) → IsLift w x parity (lift_x modpow w x parity))
      ⊎ ((parity : Bool) → lift_x modpow w x parity ≡ Point.at_infinity)
  lift_x-IsLift = elim lift_x-cases [
    | inl p ↦ inl (λ parity.
        subst (IsLift w x parity) (sym (p.points parity)) (pick w x parity (p.y1) (p.y2) (p.pair)))
    | inr none ↦ inr none
  ]
