-- ===== src/ProServer/Login/Laws.antt =====
-- Who `handle_pro_connection` of src/server_pro/server_loop.rs lets in.
use mathlib.Core.Option.{some_inj}
use btest_rs.Base.{
  arith, refl, Bool, true, false, ◌&&◌, Option, none, some, ◌++◌, Bytes, length, take, drop,
  bytes_eq, bytes_eq_iff, ◌↔◌, ◌⊎◌, inl, inr, Bool-cases, ◌≡◌, ◌∙◌, ap, sym, if◌then◌else◌,
}
use btest_rs.Protocol.{auth_required, auth_failed}
use btest_rs.Stream
use btest_rs.Stream.{Stream, Outcome, ok, err, ◌>>◌, pure, read_exact, write_all}
use btest_rs.Stream.Laws.{open_stream, read_exact_prefix}
use btest_rs.Auth.{received_name, compute_auth_hash}
use btest_rs.UserDb.{User, UserDb, select_user, select_password}
use btest_rs.UserDb.Users.{get_user, get_password, find_user}
use btest_rs.ProServer.Login.{log_in, verify, hash_matches, turn_away}

-- An enabled user with the digest of its stored password.
abbrev admits : (Bytes → Bytes) → Bytes → Option User → Bytes → Bool
admits md5 challenge none hash = false
admits md5 challenge (some u) hash =
    u.enabled && bytes_eq hash (compute_auth_hash md5 u.password_raw challenge)

abbrev verdict : Bool → Bytes → Stream → Stream → Outcome Bytes
verdict b username accepted refused =
    if b then ok username accepted else err Stream.auth_failed refused

abbrev is_accepted : Outcome Bytes → Bool
is_accepted (ok _ _) = true
is_accepted (err _ _) = false

verdict_ok :
    (b : Bool) (username : Bytes) (s s' : Stream)
    → (verdict b username s s' ≡ ok username s) ↔ (b ≡ true)
verdict_ok true username s s' = (λ h. refl, λ h. refl)
verdict_ok false username s s' = (λ h. ap is_accepted h, λ h. absurd (ground arith))

abbrev is_some {ℓ} : {A : Type ℓ} → Option A → Bool
is_some none = false
is_some (some _) = true

-- An outcome that is a verdict is one of the two, and the first exactly when the test holds.
decided :
    {P : Type 0} (b : Bool) (username : Bytes) (s s' : Stream) (r : Outcome Bytes)
    → (b ≡ true) ↔ P
    → r ≡ verdict b username s s'
    → ((r ≡ ok username s) ↔ P) × ((r ≡ ok username s) ⊎ (r ≡ err Stream.auth_failed s'))
decided b username s s' r test e = (
  (
    λ h. test.0 ((verdict_ok b username s s').0 (sym e ∙ h)),
    λ p. e ∙ (verdict_ok b username s s').1 (test.1 p),
  ),
  either b username s s' r e,
)
  where
    either :
        (b : Bool) (username : Bytes) (s s' : Stream) (r : Outcome Bytes)
        → r ≡ verdict b username s s'
        → (r ≡ ok username s) ⊎ (r ≡ err Stream.auth_failed s')
    either true username s s' r e = inl e
    either false username s s' r e = inr e

admits_iff :
    (md5 : Bytes → Bytes) (challenge : Bytes) (user : Option User) (hash : Bytes)
    → (admits md5 challenge user hash ≡ true) ↔ (
        (u : User) × (user ≡ some u)
        × (u.enabled ≡ true)
        × (hash ≡ compute_auth_hash md5 u.password_raw challenge))
admits_iff md5 challenge none hash = (λ h. absurd (ground arith), λ h. ap is_some (h.1))
admits_iff md5 challenge (some u) hash =
    let digest = bytes_eq_iff hash (compute_auth_hash md5 u.password_raw challenge) in
    (
      λ h. (u, refl, ground arith, digest.0 (ground arith)),
      λ h.
          let same : u ≡ h.0 = some_inj.0 h.1 in
          let enabled : u.enabled ≡ true = ap (λ v. v.enabled) same ∙ h.2 in
          let right =
            digest.1 (h.3 ∙ ap (λ v. compute_auth_hash md5 v.password_raw challenge) (sym same)) in
          ground (arith, enabled, right),
    )

module _ (md5 : Bytes → Bytes) (challenge ok_response : Bytes) (db : UserDb)
    (works : db.fails select_user ≡ false) where
  checked :
      (b : Bool) (username rest w : Bytes)
      → (if b then write_all ok_response >> pure username else turn_away) (open_stream rest w)
        ≡ verdict b username
            (open_stream rest (w ++ ok_response))
            (open_stream rest (w ++ auth_failed))
  unfolding turn_away write_all
  checked true username rest w = refl
  checked false username rest w = refl

  digest_tested :
      (u : User) (username hash : Bytes)
      → db.fails select_password ≡ false
      → find_user username db.users ≡ some u
      → u.enabled ≡ true
      → hash_matches md5 challenge (get_password username db) hash
        ≡ bytes_eq hash (compute_auth_hash md5 u.password_raw challenge)
  unfolding get_password hash_matches
  digest_tested u username hash reads e enabled = rw (reads, e, enabled) refl

  verify-admits :
      (user : Option User) (username hash rest w : Bytes)
      → db.fails select_password ≡ false
      → find_user username db.users ≡ user
      → verify md5 challenge ok_response db (some user) username hash (open_stream rest w)
        ≡ verdict
            (admits md5 challenge user hash)
            username
            (open_stream rest (w ++ ok_response))
            (open_stream rest (w ++ auth_failed))
  unfolding verify turn_away write_all
  verify-admits none username hash rest w reads e = refl
  verify-admits (some u) username hash rest w reads e = elim (Bool-cases u.enabled) [
    | inl enabled ↦
        rw (enabled, digest_tested u username hash reads e enabled)
          (checked (bytes_eq hash (compute_auth_hash md5 u.password_raw challenge)) username rest w)
    | inr disabled ↦ rw disabled refl
  ]

  -- With a database that answers its queries, the server reads one response of 48 bytes and lets its
  -- user in exactly when the name is that of a user in the table who is enabled and the digest is the
  -- one of that user's password and the challenge. Otherwise it sends the refusal and fails.
  pub log_in_decides :
      (response rest w : Bytes)
      → length response ≡ 48
      → db.fails select_password ≡ false
      → let username = received_name (drop 16 response) in
        let asked = (w ++ auth_required) ++ challenge in
        let r = log_in md5 db challenge ok_response (open_stream (response ++ rest) w) in
        ((r ≡ ok username (open_stream rest (asked ++ ok_response))) ↔ (
          (u : User) × (find_user username db.users ≡ some u)
          × (u.enabled ≡ true)
          × (take 16 response ≡ compute_auth_hash md5 u.password_raw challenge)))
        × ((r ≡ ok username (open_stream rest (asked ++ ok_response)))
            ⊎ (r ≡ err Stream.auth_failed (open_stream rest (asked ++ auth_failed))))
  unfolding log_in write_all get_user
  log_in_decides response rest w h reads =
      let username = received_name (drop 16 response) in
      let user = find_user username db.users in
      let asked = (w ++ auth_required) ++ challenge in
      decided (admits md5 challenge user (take 16 response)) username _ _ _
        (admits_iff md5 challenge user (take 16 response))
        (rw (read_exact_prefix 48 response rest asked h, works)
          (verify-admits user username (take 16 response) rest asked reads refl))

  -- If the query for the password fails, an enabled user is let in whatever digest the response has.
  pub failing_query_lets_in :
      (response rest w : Bytes) (u : User)
      → length response ≡ 48
      → db.fails select_password ≡ true
      → let username = received_name (drop 16 response) in
        find_user username db.users ≡ some u
        → u.enabled ≡ true
        → log_in md5 db challenge ok_response (open_stream (response ++ rest) w)
          ≡ ok username (open_stream rest (((w ++ auth_required) ++ challenge) ++ ok_response))
  unfolding log_in write_all get_user verify get_password hash_matches
  failing_query_lets_in response rest w u h fails found enabled =
      rw
        (
          read_exact_prefix 48 response rest ((w ++ auth_required) ++ challenge) h,
          works,
          found,
          enabled,
          fails,
        )
        refl
