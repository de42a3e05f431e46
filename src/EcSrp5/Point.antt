-- ===== src/EcSrp5/Point.antt =====
-- `Point` of src/ecsrp5.rs: the points of the curve in Weierstrass form, their sum and multiples.
use btest_rs.Base.{
  ℕ, zero, suc, ◌+◌, ◌*◌, ◌/◌, ◌%◌, ◌==◌, Bool, true, false, not, ◌&&◌, if◌then◌else◌,
}
use btest_rs.EcSrp5.Field.{field_p, weierstrass_a, Modpow, modinv, mod_sub}

pub record Point : Type 0 where
  pub x : ℕ
  pub y : ℕ
  pub infinity : Bool

unfoldable pub at_infinity : Point
at_infinity = record { x = 0; y = 0; infinity = true }

unfoldable pub new : ℕ → ℕ → Point
new x y = record { x = x; y = y; infinity = false }

-- The slope of the line through two points, or of the tangent.
unfoldable pub slope : Modpow → Point → Point → ℕ
unfolding modinv mod_sub
slope modpow a b =
    if a.x == b.x && a.y == b.y
    then ((3 * a.x * a.x + weierstrass_a) % field_p * modinv modpow ((2 * a.y) % field_p) field_p)
      % field_p
    else (mod_sub field_p b.y a.y * modinv modpow (mod_sub field_p b.x a.x) field_p) % field_p

-- The third point of the line of slope `lam`, turned over.
unfoldable pub through : ℕ → Point → Point → Point
unfolding new mod_sub
through lam a b =
    let x3 = mod_sub field_p ((lam * lam) % field_p) ((a.x + b.x) % field_p) in
    let y3 = mod_sub field_p ((lam * mod_sub field_p a.x x3) % field_p) a.y in new x3 y3

unfoldable pub add : Modpow → Point → Point → Point
unfolding at_infinity slope through
add modpow a b =
    if a.infinity
    then b
    else if b.infinity
    then a
    else if a.x == b.x && not (a.y == b.y)
    then at_infinity
    else through (slope modpow a b) a b

-- The number of binary digits of a scalar.
unfoldable pub bits_from : ℕ → ℕ → ℕ
bits_from zero n = 0
bits_from (suc fuel) n = let more = bits_from fuel (n / 2) in if n == 0 then 0 else suc more

unfoldable pub bits : ℕ → ℕ
unfolding bits_from
bits n = bits_from n n

-- Double and add, from the lowest digit; the scalar is the digits that are left.
unfoldable pub scalar_loop : Modpow → ℕ → ℕ → Point → Point → Point
unfolding add
scalar_loop modpow zero n result base = result
scalar_loop modpow (suc k) n result base =
    scalar_loop modpow k (n / 2) (if n % 2 == 1 then add modpow result base else result)
      (add modpow base base)

unfoldable pub scalar_mul : Modpow → Point → ℕ → Point
unfolding at_infinity scalar_loop bits
scalar_mul modpow p scalar = scalar_loop modpow (bits scalar) scalar at_infinity p
