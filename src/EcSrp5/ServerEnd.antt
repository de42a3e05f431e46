-- ===== src/EcSrp5/ServerEnd.antt =====
-- `server_authenticate` of src/ecsrp5.rs on what a client sends.
use btest_rs.Base.{
  ℕ, suc, ◌≡◌, ◌<◌, ◌≤◌, ◌+◌, refl, Bool, true, false, not, ◌==◌, [], ◌∷◌, ◌++◌, Bytes, length,
  length-append, take, drop, take_prefix, ltb, some, arith, if◌then◌else◌, find_zero, absent,
  is_utf8, bytes_eq, bytes_eq_refl, bytes_eq_sound, Bool-cases, inl, inr, ◌≢◌,
}
use btest_rs.Stream
use btest_rs.Stream.{Outcome, ok, err, Exchange, write_all}
use btest_rs.Stream.Laws.{open_stream}
use btest_rs.EcSrp5.Point.{Point}
use btest_rs.EcSrp5.Curve.{redp1}
use btest_rs.EcSrp5.Exchange.{
  Crypto, EcSrp5Credentials, framed, curve, client_cc, server_cc, client_message, server_key,
  server_message, server_secret, server_verify, server_challenge, server_answer, answer_at,
  server_authenticate,
}
use btest_rs.EcSrp5.Frames.{read_framed-framed, get_or-append}

find_zero_after : (u rest : Bytes) → absent 0 u ≡ true → find_zero (u ++ 0 ∷ rest) ≡ some (length u)
unfolding find_zero absent
find_zero_after [] rest h = refl
find_zero_after (b ∷ u) rest h = ground (arith, find_zero_after u rest)

-- A name that the first message has room for: text without a zero byte.
pub record IsUsername (u : Bytes) : Type 0 where
  pub fits : length u ≤ 221
  pub no_zero : absent 0 u ≡ true
  pub text : is_utf8 u ≡ true

drop_name : (u rest : Bytes) → drop (suc (length u)) (u ++ 0 ∷ rest) ≡ rest
drop_name [] rest = refl
drop_name (x ∷ u) rest = drop_name u rest

granted :
    (b : Bool) (m : Bytes) (rest w : Bytes)
    → Path
        (Outcome (Unit {0}))
        ((if b then write_all m else Stream.raise Stream.auth_failed) (open_stream rest w))
        (if b
          then ok tt (open_stream rest (w ++ m))
          else err Stream.auth_failed (open_stream rest w))
unfolding write_all
granted true m rest w = refl
granted false m rest w = refl

module _ (c : Crypto) (s_b : Bytes) (creds : EcSrp5Credentials) where
  long_enough :
      (u x : Bytes) (pb : ℕ)
      → length x ≡ 32
      → ltb (length (u ++ 0 ∷ (x ++ pb ∷ []))) (suc (length u) + 33) ≡ false
  long_enough u x pb h =
      rw (length-append u (0 ∷ (x ++ pb ∷ [])), length-append x (pb ∷ [])) (ground arith)

  -- The key that follows the name.
  name_matches :
      (u x : Bytes) (pb : ℕ) (gamma : Point)
      → IsUsername u
      → length x ≡ 32
      → redp1 c.fuel c.modpow c.sha256 (curve c) creds.x_gamma false ≡ some gamma
      → Path
          (Exchange {0} Unit)
          (server_answer c s_b creds u (u ++ 0 ∷ (x ++ pb ∷ [])))
          (server_challenge c creds s_b x (not (pb == 0)) gamma)
  unfolding server_answer answer_at
  name_matches u x pb gamma v h e =
      rw
        (
          find_zero_after u (x ++ pb ∷ []) v.no_zero,
          take_prefix (length u) u (0 ∷ (x ++ pb ∷ [])) refl,
          v.text,
          bytes_eq_refl u,
          long_enough u x pb h,
          drop_name u (x ++ pb ∷ []),
          e,
          take_prefix 32 x (pb ∷ []) h,
          get_or-append x pb 0 [] 32 h,
        )
        refl

  verified :
      (j z proof rest w : Bytes)
      → length proof < 256
      → server_verify c j z (open_stream (framed proof ++ rest) w) ≡ (
          if bytes_eq proof (client_cc c j z)
          then ok tt (open_stream rest (w ++ framed (server_cc c j proof z)))
          else err Stream.auth_failed (open_stream rest w))
  unfolding server_verify
  verified j z proof rest w h =
      rw (read_framed-framed proof rest w h)
        (granted (bytes_eq proof (client_cc c j z)) (framed (server_cc c j proof z)) rest w)

  challenged :
      (x proof rest w : Bytes) (parity : Bool) (gamma : Point)
      → length proof < 256
      → let key = server_key c s_b gamma in
        let j = c.sha256 (x ++ key.0) in
        let z = server_secret c creds j s_b x parity in
        let after = w ++ server_message c key creds.salt in
        server_challenge c creds s_b x parity gamma (open_stream (framed proof ++ rest) w) ≡ (
          if bytes_eq proof (client_cc c j z)
          then ok tt (open_stream rest (after ++ framed (server_cc c j proof z)))
          else err Stream.auth_failed (open_stream rest after))
  unfolding server_challenge write_all
  challenged x proof rest w parity gamma h =
      let key = server_key c s_b gamma in
      let j = c.sha256 (x ++ key.0) in
      verified j (server_secret c creds j s_b x parity) proof rest
        (w ++ server_message c key creds.salt) h

  name_length :
      (u x : Bytes) (pb : ℕ) → IsUsername u → length x ≡ 32 → length (u ++ 0 ∷ (x ++ pb ∷ [])) < 256
  name_length u x pb v h =
      omega (arith, v.fits, length-append u (0 ∷ (x ++ pb ∷ [])), length-append x (pb ∷ []))

  -- A server that is sent the name it expects, text of at most 221 bytes without a zero, and a key of
  -- 32 bytes with a byte of parity, answers with its own key and the salt. It grants the test exactly
  -- when the next message is the digest of the session's hash and its own secret; then it sends
  -- its own proof, and otherwise it fails without a word more. This is where the search of `redp1`
  -- ends within the fuel.
  pub server_authenticate_decides :
      (u x proof rest w : Bytes) (pb : ℕ) (gamma : Point)
      → IsUsername u
      → length x ≡ 32
      → length proof < 256
      → redp1 c.fuel c.modpow c.sha256 (curve c) creds.x_gamma false ≡ some gamma
      → let key = server_key c s_b gamma in
        let j = c.sha256 (x ++ key.0) in
        let z = server_secret c creds j s_b x (not (pb == 0)) in
        let after = w ++ server_message c key creds.salt in
        server_authenticate c s_b u creds
          (open_stream (client_message c u (x, pb) ++ (framed proof ++ rest)) w)
        ≡ (if bytes_eq proof (client_cc c j z)
            then ok tt (open_stream rest (after ++ framed (server_cc c j proof z)))
            else err Stream.auth_failed (open_stream rest after))
  unfolding server_authenticate client_message
  server_authenticate_decides u x proof rest w pb gamma v h h' e =
      rw
        (
          read_framed-framed (u ++ 0 ∷ (x ++ pb ∷ [])) (framed proof ++ rest) w
              (name_length u x pb v h),
          name_matches u x pb gamma v h e,
        )
        (challenged x proof rest w (not (pb == 0)) gamma h')

  told_apart : (u name : Bytes) → name ≢ u → bytes_eq name u ≡ false
  told_apart u name other = elim (Bool-cases (bytes_eq name u)) [
    | inl e ↦ absurd (other (bytes_eq_sound name u e))
    | inr e ↦ e
  ]

  refused_at :
      (u m : Bytes) (n : ℕ) (s : Stream.Stream)
      → take n m ≢ u
      → answer_at c s_b creds u m (some n) s
        ≡ err (if is_utf8 (take n m) then Stream.auth_failed else Stream.protocol) s
  unfolding answer_at
  refused_at u m n s other = elim (Bool-cases (is_utf8 (take n m))) [
    | inl e ↦ rw (e, told_apart u (take n m) other) refl
    | inr e ↦ rw e refl
  ]

  -- Any first message whose name is not the server's ends in the error of a failed authentication, or
  -- of the protocol where it is no text, and the server has written nothing.
  pub other_name_refused :
      (u m rest w : Bytes) (n : ℕ)
      → length m < 256
      → find_zero m ≡ some n
      → take n m ≢ u
      → server_authenticate c s_b u creds (open_stream (framed m ++ rest) w)
        ≡ err
            (if is_utf8 (take n m) then Stream.auth_failed else Stream.protocol)
            (open_stream rest w)
  unfolding server_authenticate server_answer
  other_name_refused u m rest w n h e other =
      rw (read_framed-framed m rest w h, e) (refused_at u m n (open_stream rest w) other)
