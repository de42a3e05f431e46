-- ===== src/EcSrp5/Example.antt =====
-- A session of src/ecsrp5.rs with square and multiply for `modpow`, and a digest that can be read.
use btest_rs.Base.{
  ℕ, ◌≡◌, refl, suc, zero, ◌+◌, ◌*◌, ◌%◌, ◌==◌, if◌then◌else◌, ◌/◌, Bool, false, true, Bytes, [],
  ◌∷◌, ◌++◌, replicate, length, Option, none, some, arith, absent, is_utf8,
}
use btest_rs.EcSrp5.Curve.{new, gen_public_key, redp1, gen_password_validator_priv}
use btest_rs.EcSrp5.Point
use btest_rs.EcSrp5.Point.{Point}
use btest_rs.EcSrp5.Exchange.{
  Crypto, EcSrp5Credentials, curve, derive, client_secret, server_secret, server_key,
}
use btest_rs.EcSrp5.ServerEnd.{IsUsername}
use btest_rs.EcSrp5.Agreement.{x_gamma, Searched, z_client, z_server}

unfoldable pub power_from : ℕ → ℕ → ℕ → ℕ → ℕ → ℕ
power_from zero acc a e m = acc
power_from (suc fuel) acc a e m =
    let more =
      power_from fuel (if e % 2 == 1 then (acc * a) % m else acc) ((a * a) % m) (e / 2) m in
    if e == 0 then acc else more

unfoldable pub power : ℕ → ℕ → ℕ → ℕ
unfolding power_from
power a e m = power_from 300 (1 % m) (a % m) e m

abbrev pub total : Bytes → ℕ
total [] = 0
total (b ∷ bs) = b + total bs

-- A digest of 32 bytes that tells sums apart.
abbrev pub small_digest : Bytes → Bytes
small_digest x = replicate 31 0 ++ (total x % 7 ∷ [])

pub small_digest_32 : (x : Bytes) → length (small_digest x) ≡ 32
small_digest_32 x = refl

abbrev pub crypto : Crypto
crypto = record { modpow = power; sha256 = small_digest; fuel = 20 }

abbrev pub user : Bytes
user = 97 ∷ 100 ∷ 109 ∷ []

abbrev pub secret : Bytes
secret = 115 ∷ 51 ∷ []

abbrev pub salt : Bytes
salt = replicate 16 5

abbrev pub key_of : ℕ → Bytes
key_of n = replicate 31 0 ++ (n ∷ [])

pub user-IsUsername : IsUsername user
unfolding absent is_utf8
user-IsUsername = record { fits = omega arith; no_zero = refl; text = refl }

abbrev pub point_of : Option Point → Point
point_of none = Point.at_infinity
point_of (some p) = p

abbrev pub found_point : Bool → Point
found_point parity = point_of (
    redp1 20 power small_digest (curve crypto)
      (x_gamma crypto user secret salt (key_of 3) (key_of 2)) parity)

abbrev pub gamma : Point
gamma = found_point false

abbrev pub blind : Point
blind = found_point true

pub search_ends : Searched crypto user secret salt (key_of 3) (key_of 2) true blind
unfolding redp1 curve gen_public_key gen_password_validator_priv power Point.scalar_mul Point.add
    new
search_ends = refl

pub search_ends_too : Searched crypto user secret salt (key_of 3) (key_of 2) false gamma
unfolding redp1 curve gen_public_key gen_password_validator_priv power Point.scalar_mul Point.add
    new
search_ends_too = refl

pub same_secret :
    z_client crypto user secret salt (key_of 3) (key_of 2) gamma blind
    ≡ z_server crypto user secret salt (key_of 3) (key_of 2) gamma
unfolding redp1 curve gen_public_key gen_password_validator_priv power client_secret server_secret
    server_key derive Point.scalar_mul Point.add new
same_secret = refl

abbrev pub credentials : EcSrp5Credentials
credentials = derive crypto salt user secret

pub credentials_found :
    redp1 20 power small_digest (curve crypto) credentials.x_gamma false ≡ some gamma
unfolding derive
credentials_found = search_ends_too
