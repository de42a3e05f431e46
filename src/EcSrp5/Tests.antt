-- ===== src/EcSrp5/Tests.antt =====
-- The curve and the exchange of src/ecsrp5.rs on the session of Example.
use btest_rs.Base.{
  ◌≡◌, ◌≢◌, ◌≤◌, ◌<◌, refl, ap, ◌^◌, ◌==◌, not, false, [], ◌∷◌, ◌++◌, replicate, length, some,
  arith, get_or,
}
use btest_rs.Stream.{ok}
use btest_rs.Stream.Laws.{open_stream}
use btest_rs.EcSrp5.Curve.{new, lift_x, to_montgomery, redp1}
use btest_rs.EcSrp5.Octets.{from_bytes_be, bigint_to_32bytes}
use btest_rs.EcSrp5.Sqrt.{Roots, prime_mod_sqrt}
use btest_rs.EcSrp5.Point
use btest_rs.EcSrp5.Field.{Modpow}
use btest_rs.EcSrp5.Point.{Point, add}
use btest_rs.EcSrp5.Exchange.{
  framed, curve, derive, client_message, server_message, server_key, client_authenticate,
  server_authenticate,
}
use btest_rs.EcSrp5.Example.{
  power, crypto, small_digest, small_digest_32, user, secret, salt, key_of, user-IsUsername, gamma,
  blind, search_ends, search_ends_too, same_secret,
}
use btest_rs.EcSrp5.Roots.{IsRoots, prime_mod_sqrt-IsRoots}
use btest_rs.EcSrp5.Blinding.{Opposite, redp1-Opposite, lift_x-to_montgomery}
use btest_rs.EcSrp5.Multiples.{digit_sum, scalar_mul-digit_sum}
use btest_rs.EcSrp5.Agreement.{ends_agree, own, proof, reply, x_gamma}

-- The generator is a point, and its coordinate on the Montgomery curve is 9.
generator :
    ((new power).g.infinity ≡ false)
    × (from_bytes_be ((to_montgomery (new power) (new power).g).0) ≡ 9)
unfolding new power from_bytes_be to_montgomery
generator = (refl, refl)

ends_agree_example :
    let key = server_message crypto (server_key crypto (key_of 2) gamma) salt in
    let name = client_message crypto user (own crypto user secret salt (key_of 3) (key_of 2)) in
    let p = proof crypto user secret salt (key_of 3) (key_of 2) gamma blind in
    let r = reply crypto user secret salt (key_of 3) (key_of 2) gamma blind in
    (server_authenticate crypto
        (key_of 2)
        user
        (derive crypto salt user secret)
        (open_stream (name ++ (framed p ++ [])) [])
      ≡ ok tt (open_stream [] (([] ++ key) ++ framed r)))
    × (client_authenticate crypto (key_of 3) user secret (open_stream (key ++ (framed r ++ [])) [])
        ≡ ok tt (open_stream [] (([] ++ name) ++ framed p)))
ends_agree_example =
    ends_agree crypto user secret salt (key_of 3) (key_of 2) small_digest_32 gamma blind same_secret
      user-IsUsername refl search_ends_too search_ends [] [] [] []

-- 4 and 9 are the roots of 3 modulo 13.
root_found : prime_mod_sqrt 0 power 16 13 ≡ Roots.roots 9 4
unfolding prime_mod_sqrt power
root_found = refl

prime_mod_sqrt-IsRoots_example : IsRoots 16 13 9 4
prime_mod_sqrt-IsRoots_example = prime_mod_sqrt-IsRoots 0 power 16 13 9 4 refl root_found

-- For 17, which leaves 1, the loops run.
looped : prime_mod_sqrt 9 power 13 17 ≡ Roots.roots 8 9
unfolding prime_mod_sqrt power
looped = refl

redp1-Opposite_example :
    (u : Point) × (redp1 20 power small_digest
        (curve crypto)
        (x_gamma crypto user secret salt (key_of 3) (key_of 2))
        false
      ≡ some u)
    × Opposite power u blind
redp1-Opposite_example =
    redp1-Opposite power small_digest (curve crypto) 20
      (x_gamma crypto user secret salt (key_of 3) (key_of 2)) blind search_ends

generator_finite : (lift_x power (new power) 9 false).infinity ≡ false
unfolding lift_x new power
generator_finite = refl

generator_y : (lift_x power (new power) 9 false).y ≢ 0
unfolding lift_x new power
generator_y e = absurd (omega (arith, e))

lift_x-to_montgomery_example :
    let sent = to_montgomery (new power) (lift_x power (new power) 9 false) in
    (from_bytes_be (sent.0) ≡ 9)
    × (length (sent.0) ≡ 32)
    × (lift_x power (new power) (from_bytes_be (sent.0)) (not (sent.1 == 0))
        ≡ lift_x power (new power) 9 false)
lift_x-to_montgomery_example = lift_x-to_montgomery power 9 false generator_finite generator_y

scalar_mul-digit_sum_example :
    (Point.bits 5 ≤ 3)
    × (5 < 2 ^ Point.bits 5)
    × (Point.scalar_mul power (new power).g 5 ≡ digit_sum power (new power).g 5 (Point.bits 5))
scalar_mul-digit_sum_example = scalar_mul-digit_sum power (new power).g 3 5 (omega arith)

-- The multiple by 5 is the point and the point doubled twice.
five_times :
    (power : Modpow) (p : Point)
    → digit_sum power p 5 3
      ≡ add power (add power Point.at_infinity p) (add power (add power p p) (add power p p))
unfolding digit_sum
five_times power p = refl

-- A number of 33 bytes loses its highest.
wrapped : bigint_to_32bytes (2 ^ 256) ≡ replicate 32 0
unfolding bigint_to_32bytes
wrapped = refl

other_user : (98 ∷ []) ≢ user
other_user e = absurd (omega (arith, ap (λ n. get_or n 0 0) e))
