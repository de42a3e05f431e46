-- ===== src/Auth/Tests.antt =====
-- The exchange of src/auth.rs on a digest that can be read: the first 16 bytes.
use btest_rs.Base.{
  ℕ, ◌≡◌, ◌≢◌, refl, some, [], ◌∷◌, ◌++◌, Bytes, length, length-take, length-append,
  length-replicate, take, replicate, arith, absent, is_utf8, ap, get_or,
}
use btest_rs.Protocol.{auth_ok, auth_required}
use btest_rs.Stream.{ok}
use btest_rs.Stream.Laws.{open_stream}
use btest_rs.Auth.{client_authenticate, server_authenticate, compute_auth_hash}
use btest_rs.Auth.Interop.{IsName, response_of, logs_in}

abbrev first_16 : Bytes → Bytes
first_16 x = take 16 (x ++ replicate 16 0)

digest_16 : (x : Bytes) → length (first_16 x) ≡ 16
digest_16 x = omega (
  arith,
  length-take 16 (x ++ replicate 16 0),
  length-append x (replicate 16 0),
  length-replicate {A = ℕ} 16 0,
)

abbrev user : Bytes
user = 97 ∷ 100 ∷ 109 ∷ []

abbrev secret : Bytes
secret = 115 ∷ 51 ∷ []

abbrev other : Bytes
other = 115 ∷ 52 ∷ []

abbrev nonce : Bytes
nonce = replicate 16 9

user-IsName : IsName user
unfolding absent is_utf8
user-IsName = record { fits = omega arith; no_zero = refl; text = refl }

logs_in_example :
    let r = response_of first_16 user secret nonce in
    (client_authenticate first_16 auth_required user secret
        (open_stream (nonce ++ (auth_ok ++ [])) [])
      ≡ ok tt (open_stream [] ([] ++ r)))
    × (server_authenticate first_16
          (some user)
          (some secret)
          nonce
          auth_ok
          (open_stream (r ++ []) [])
        ≡ ok tt (open_stream [] ((([] ++ auth_required) ++ nonce) ++ auth_ok)))
logs_in_example = logs_in first_16 digest_16 nonce refl user-IsName secret [] [] [] []

different : compute_auth_hash first_16 other nonce ≢ compute_auth_hash first_16 secret nonce
unfolding compute_auth_hash
different e = absurd (omega (arith, ap (λ x. get_or x 1 0) e))
