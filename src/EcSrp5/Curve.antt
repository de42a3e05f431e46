-- ===== src/EcSrp5/Curve.antt =====
-- `WCurve` of src/ecsrp5.rs: Curve25519 in Weierstrass form.
use btest_rs.Base.{
  ℕ, zero, suc, ◌+◌, ◌-◌, ◌*◌, ◌%◌, ◌==◌, Bool, true, false, not, Option, none, some, ◌∷◌, ◌++◌,
  Bytes, if◌then◌else◌,
}
use btest_rs.EcSrp5.Field.{field_p, mont_a, Modpow, modinv}
use btest_rs.EcSrp5.Sqrt.{Roots, prime_mod_sqrt}
use btest_rs.EcSrp5.Point.{Point}
use btest_rs.EcSrp5.Point
use btest_rs.EcSrp5.Octets.{from_bytes_be, bigint_to_32bytes, coordinate_bytes}

pub record WCurve : Type 0 where
  pub g : Point
  pub conversion_from_m : ℕ
  pub conversion_to_m : ℕ

-- `y.bit(0)`
abbrev pub is_odd : ℕ → Bool
is_odd y = y % 2 == 1

-- The root whose lowest bit is `parity`; the second where the first has another.
unfoldable pub with_parity : Bool → ℕ → ℕ → ℕ → Point
unfolding Point.new
with_parity true x_w y1 y2 = if is_odd y1 then Point.new x_w y1 else Point.new x_w y2
with_parity false x_w y1 y2 = if not (is_odd y1) then Point.new x_w y1 else Point.new x_w y2

abbrev pub lifted : Bool → ℕ → Roots → Point
lifted parity x_w (Roots.roots y1 y2) = with_parity parity x_w y1 y2
lifted parity x_w Roots.no_roots = Point.at_infinity
lifted parity x_w Roots.spent = Point.at_infinity

abbrev pub y_squared : ℕ → ℕ
y_squared x = (x * x * x + mont_a * x * x + x) % field_p

module _ (modpow : Modpow) where
  unfoldable pub lift_x : WCurve → ℕ → Bool → Point
  unfolding prime_mod_sqrt with_parity
  lift_x w x_mont parity =
      let x = x_mont % field_p in
      lifted parity ((x + w.conversion_from_m) % field_p)
        (prime_mod_sqrt 0 modpow (y_squared x) field_p)

  unfoldable pub new : WCurve
  unfolding lift_x modinv
  new =
      let from_m = (mont_a * modinv modpow 3 field_p) % field_p in
      let curve : WCurve = record {
        g = Point.at_infinity;
        conversion_from_m = from_m;
        conversion_to_m = (field_p - from_m) % field_p;
      } in
      record curve { g = lift_x curve 9 false }

unfoldable pub to_montgomery : WCurve → Point → Bytes × ℕ
unfolding coordinate_bytes
to_montgomery w pt =
    (coordinate_bytes ((pt.x + w.conversion_to_m) % field_p), if is_odd pt.y then 1 else 0)

unfoldable pub gen_public_key : Modpow → WCurve → Bytes → Bytes × ℕ
unfolding to_montgomery from_bytes_be
gen_public_key modpow w priv_key =
    to_montgomery w (Point.scalar_mul modpow w.g (from_bytes_be priv_key))

-- `redp1`, from `x`: hash, lift, and try the next number where there is no point.
unfoldable pub redp1_loop : ℕ → Modpow → (Bytes → Bytes) → WCurve → Bytes → Bool → Option Point
unfolding lift_x from_bytes_be bigint_to_32bytes
redp1_loop zero modpow sha256 w x parity = none
redp1_loop (suc fuel) modpow sha256 w x parity =
    let pt = lift_x modpow w (from_bytes_be (sha256 x)) parity in
    let more = redp1_loop fuel modpow sha256 w (bigint_to_32bytes (from_bytes_be x + 1)) parity in
    if pt.infinity then more else some pt

unfoldable pub redp1 : ℕ → Modpow → (Bytes → Bytes) → WCurve → Bytes → Bool → Option Point
unfolding redp1_loop
redp1 fuel modpow sha256 w x_bytes parity = redp1_loop fuel modpow sha256 w (sha256 x_bytes) parity

-- SHA-256(salt + SHA-256(username:password))
unfoldable pub gen_password_validator_priv : (Bytes → Bytes) → Bytes → Bytes → Bytes → Bytes
gen_password_validator_priv sha256 username password salt =
    sha256 (salt ++ sha256 (username ++ 58 ∷ password))
