-- ===== src/EcSrp5/Blinding.antt =====
-- The point that takes the password off the server's key, in src/ecsrp5.rs, and the coordinates that
-- are sent.
use btest_rs.Base.{
  ℕ, zero, suc, ◌≡◌, ◌≢◌, ◌<◌, ◌+◌, ◌-◌, ◌%◌, ◌==◌, ◌⊎◌, inl, inr, refl, sym, ap, subst, ◌∙◌, Bool,
  true, false, not, if◌then◌else◌, arith, Bytes, some, length, ==_refl, ◌^◌,
}
use mathlib.Core.Bool.{true≢false}
use mathlib.Core.Option.{some-injective}
use native.Mathlib.Nat.{mod-lt, add-mod, add-mod_right, mod-mod, mod-eq_of_lt}
use btest_rs.EcSrp5.Field.{Modpow, field_p}
use btest_rs.EcSrp5.Point
use btest_rs.EcSrp5.Point.{Point}
use btest_rs.EcSrp5.Octets.{from_bytes_be, bigint_to_32bytes}
use btest_rs.EcSrp5.Padding.{padded_alike}
use btest_rs.EcSrp5.Curve
use btest_rs.EcSrp5.Curve.{WCurve, lift_x, to_montgomery, redp1, redp1_loop, is_odd}
use btest_rs.EcSrp5.Lifting.{IsLift, chosen_root, roots_paired, lift_x-cases, lift_x-IsLift}

-- The two points of an x: the same x, and y both 0 or, with the prime as their sum, opposite.
abbrev pub Opposite : Modpow → Point → Point → Type 0
Opposite modpow a b =
    (a.x ≡ b.x)
    × (((a.y ≡ 0) × (b.y ≡ 0))
        ⊎ ((a.y + b.y ≡ field_p) × (Point.add modpow a b ≡ Point.at_infinity)))

odd_sum : (p a b : ℕ) → p % 2 ≡ 1 → a + b ≡ p → (a == b) ≡ false
odd_sum p a b h e = ground arith

opposite_points :
    (modpow : Modpow) (x a b : ℕ)
    → a + b ≡ field_p
    → Point.add modpow (Point.new x a) (Point.new x b) ≡ Point.at_infinity
unfolding Point.add Point.new
opposite_points modpow x a b h = rw (==_refl x, odd_sum field_p a b refl h) refl

cancelling_points :
    (modpow : Modpow) (x a b : ℕ)
    → ((b ≡ 0) × (a ≡ 0)) ⊎ (b + a ≡ field_p)
    → Opposite modpow (Point.new x a) (Point.new x b)
unfolding Point.new
cancelling_points modpow x a b (inl (h, k)) = (refl, inl (k, h))
cancelling_points modpow x a b (inr e) =
    let sum : a + b ≡ field_p = omega arith in (refl, inr (sum, opposite_points modpow x a b sum))

module _ (modpow : Modpow) (sha256 : Bytes → Bytes) (w : WCurve) where
  abbrev next : Bytes → Bytes
  next x = bigint_to_32bytes (from_bytes_be x + 1)

  step_found :
      (fuel : ℕ) (x : Bytes) (parity : Bool) (a b : ℕ)
      → lift_x modpow w (from_bytes_be (sha256 x)) parity ≡ Point.new a b
      → redp1_loop (suc fuel) modpow sha256 w x parity ≡ some (Point.new a b)
  unfolding redp1_loop Point.new
  step_found fuel x parity a b h = rw h refl

  step_next :
      (fuel : ℕ) (x : Bytes) (parity : Bool)
      → lift_x modpow w (from_bytes_be (sha256 x)) parity ≡ Point.at_infinity
      → redp1_loop (suc fuel) modpow sha256 w x parity
        ≡ redp1_loop fuel modpow sha256 w (next x) parity
  unfolding redp1_loop Point.at_infinity
  step_next fuel x parity h = rw h refl

  same_search :
      (fuel : ℕ) (x : Bytes) (v : Point)
      → redp1_loop fuel modpow sha256 w x true ≡ some v
      → (u : Point) × (redp1_loop fuel modpow sha256 w x false ≡ some u) × Opposite modpow u v
  unfolding redp1_loop
  same_search zero x v h = absurd (ground arith)
  same_search (suc fuel) x v h = elim (lift_x-cases modpow w (from_bytes_be (sha256 x))) [
    | inl p ↦
        let here = step_found fuel x true _ _ (p.points true) in
        (
          Point.new _ (chosen_root false (p.y1) (p.y2)),
          step_found fuel x false _ _ (p.points false),
          subst (Opposite modpow (Point.new _ (chosen_root false (p.y1) (p.y2))))
              (some-injective _ v (sym here ∙ h))
              (cancelling_points modpow _ _ _
                (roots_paired field_p (p.y1) (p.y2) (p.pair.related))),
        )
    | inr missing ↦
        let there = same_search fuel (next x) v (sym (step_next fuel x true (missing true)) ∙ h) in
        (there.0, step_next fuel x false (missing false) ∙ there.1, there.2)
  ]

  -- The searches of `redp1` for the two parities end together. The point that the server adds to its
  -- key and the one that the client adds to what it receives have the same x, and their y are both 0,
  -- or they sum to the field's prime and the points to the point at infinity.
  pub redp1-Opposite :
      (fuel : ℕ) (x_gamma : Bytes) (v : Point)
      → redp1 fuel modpow sha256 w x_gamma true ≡ some v
      → (u : Point) × (redp1 fuel modpow sha256 w x_gamma false ≡ some u) × Opposite modpow u v
  unfolding redp1
  redp1-Opposite fuel x_gamma v h = same_search fuel (sha256 x_gamma) v h

-- Converted to Weierstrass form and back.
converted : (p f a : ℕ) → a < p → f < p → ((a + f) % p + (p - f) % p) % p ≡ a
converted p f a h k =
    let whole : a + f + (p - f) ≡ a + p = omega arith in
    sym (add-mod (a + f) (p - f) p) ∙ ap (λ t. t % p) whole ∙ add-mod_right a p ∙ mod-eq_of_lt h

parity_byte :
    (y : ℕ) (parity : Bool) → is_odd y ≡ parity → not ((if is_odd y then 1 else 0) == 0) ≡ parity
parity_byte y parity h = ground arith

at_infinity_infinite : (pt : Point) → pt.infinity ≡ false → pt ≡ Point.at_infinity → ⊥
unfolding Point.at_infinity
at_infinity_infinite pt finite e =
    absurd (true≢false (sym (ap (λ (p : Point). p.infinity) e) ∙ finite))

module _ (modpow : Modpow) where
  abbrev curve : WCurve
  curve = Curve.new modpow

  back_converted :
      (x : ℕ)
      → ((x % field_p + curve.conversion_from_m) % field_p + curve.conversion_to_m) % field_p
        ≡ x % field_p
  unfolding Curve.new
  back_converted x =
      converted field_p _ (x % field_p) (mod-lt x (omega arith)) (mod-lt _ (omega arith))

  sent_x :
      (x : ℕ) (parity : Bool) (pt : Point)
      → IsLift curve x parity pt
      → (pt.x + curve.conversion_to_m) % field_p ≡ x % field_p
  sent_x x parity pt l = ap (λ t. (t + curve.conversion_to_m) % field_p) (l.over) ∙ back_converted x

  below_octets : (x : ℕ) → x % field_p < 2 ^ 256
  below_octets x = omega (arith, mod-lt x {m = field_p} (omega arith))

  lift_x-mod :
      (x : ℕ) (parity : Bool)
      → lift_x modpow curve (x % field_p) parity ≡ lift_x modpow curve x parity
  unfolding lift_x
  lift_x-mod x parity = rw (mod-mod x field_p) refl

  sent_parity :
      (x : ℕ) (parity : Bool) (pt : Point)
      → IsLift curve x parity pt
      → pt.y ≢ 0
      → not ((if is_odd pt.y then 1 else 0) == 0) ≡ parity
  sent_parity x parity pt l nonzero = elim (l.chosen) [
    | inl zero_y ↦ absurd (nonzero zero_y)
    | inr same ↦ parity_byte pt.y parity same
  ]

  received :
      (x : ℕ) (parity : Bool) (pt : Point)
      → IsLift curve x parity pt
      → pt.y ≢ 0
      → let sent = to_montgomery curve pt in
        (from_bytes_be (sent.0) ≡ x % field_p)
        × (length (sent.0) ≡ 32)
        × (lift_x modpow curve (from_bytes_be (sent.0)) (not (sent.1 == 0))
            ≡ lift_x modpow curve x parity)
  unfolding to_montgomery
  received x parity pt l nonzero =
      let about = padded_alike (x % field_p) (below_octets x) in
      rw (sent_x x parity pt l, about.0, sent_parity x parity pt l nonzero, lift_x-mod x parity)
        (refl, about.1.1, refl)

  -- A point that is lifted from an x, is not at infinity and has a y other than 0 is sent as the
  -- bytes of that x modulo the prime, 32 of them, and one byte that tells the parity; what the peer
  -- lifts from these is the same point.
  pub lift_x-to_montgomery :
      (x : ℕ) (parity : Bool)
      → let pt = lift_x modpow curve x parity in
        let sent = to_montgomery curve pt in
        pt.infinity ≡ false
        → pt.y ≢ 0
        → (from_bytes_be (sent.0) ≡ x % field_p)
          × (length (sent.0) ≡ 32)
          × (lift_x modpow curve (from_bytes_be (sent.0)) (not (sent.1 == 0)) ≡ pt)
  lift_x-to_montgomery x parity finite nonzero = elim (lift_x-IsLift modpow curve x) [
    | inl lifts ↦ received x parity (lift_x modpow curve x parity) (lifts parity) nonzero
    | inr missing ↦
        absurd (at_infinity_infinite (lift_x modpow curve x parity) finite (missing parity))
  ]
