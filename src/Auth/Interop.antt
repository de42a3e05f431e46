-- ===== src/Auth/Interop.antt =====
-- The two ends of src/auth.rs against each other: each reads what the other wrote.
use btest_rs.Base.{
  ◌≡◌, ◌≢◌, ◌≤◌, refl, Bool, true, false, some, ◌++◌, Bytes, length, take_prefix, drop_prefix,
  bytes_eq, bytes_eq_refl, bytes_eq_sound, ◌&&◌, absent, is_utf8, if◌then◌else◌, Bool-cases, ◌∙◌,
  inl, inr,
}
use btest_rs.Protocol.{auth_ok, auth_required, auth_failed}
use btest_rs.Stream
use btest_rs.Stream.{Stream, Outcome, ok, err, write_all, recv_response, and_then}
use btest_rs.Stream.Laws.{open_stream, read_exact_prefix}
use btest_rs.Auth.{
  server_authenticate, client_authenticate, answer_challenge, compute_auth_hash, name_differs,
  auth_response,
}
use btest_rs.Auth.Decision.{accepts, server_decides}
use btest_rs.Auth.Response.{name_field, received_name-name_field, length-auth_response}

-- A name that fits the field: text without a zero byte.
pub record IsName (u : Bytes) : Type 0 where
  pub fits : length u ≤ 32
  pub no_zero : absent 0 u ≡ true
  pub text : is_utf8 u ≡ true

-- The response of a client: its digest, and its name.
abbrev pub response_of : (Bytes → Bytes) → Bytes → Bytes → Bytes → Bytes
response_of md5 username password challenge =
    auth_response (compute_auth_hash md5 password challenge) username

other_bytes : (xs ys : Bytes) → xs ≢ ys → bytes_eq xs ys ≡ false
other_bytes xs ys h = elim (Bool-cases (bytes_eq xs ys)) [
  | inl e ↦ absurd (h (bytes_eq_sound xs ys e))
  | inr e ↦ e
]

refused_by_second : (b : Bool) {d : Bool} → d ≡ false → (b && d) ≡ false
refused_by_second true e = e
refused_by_second false e = refl

ends_as_told :
    (b : Bool) (s : Stream)
    → Path
        (Outcome (Unit {0}))
        ((if b then Stream.pure tt else Stream.raise Stream.auth_failed) s)
        (if b then ok tt s else err Stream.auth_failed s)
ends_as_told true s = refl
ends_as_told false s = refl

module _ (md5 : Bytes → Bytes) (digest : (x : Bytes) → length (md5 x) ≡ 16) (challenge : Bytes)
    (nonce : length challenge ≡ 16) where
  length-compute_auth_hash :
      (password : Bytes) → length (compute_auth_hash md5 password challenge) ≡ 16
  unfolding compute_auth_hash
  length-compute_auth_hash password = digest (password ++ md5 (password ++ challenge))

  length-response : (u password : Bytes) → length (response_of md5 u password challenge) ≡ 48
  length-response u password =
      length-auth_response (compute_auth_hash md5 password challenge) u
        (length-compute_auth_hash password)

  -- Asked for a password, the client sends its response, and ends as the reply says.
  pub client_answers :
      (username password reply rest w : Bytes)
      → length reply ≡ 4
      → client_authenticate md5 auth_required username password
          (open_stream (challenge ++ (reply ++ rest)) w)
        ≡ (let after = open_stream rest (w ++ response_of md5 username password challenge) in
            if bytes_eq reply auth_ok then ok tt after else err Stream.auth_failed after)
  unfolding client_authenticate answer_challenge write_all recv_response bytes_eq
  client_answers username password reply rest w h =
      rw
        (
          read_exact_prefix 16 challenge (reply ++ rest) w nonce,
          read_exact_prefix 4 reply rest (w ++ response_of md5 username password challenge) h,
        )
        (ends_as_told (bytes_eq reply auth_ok)
          (open_stream rest (w ++ response_of md5 username password challenge)))

  module _ {u : Bytes} (v : IsName u) (password : Bytes) where
    response_accepted :
        accepts md5 (some u) password challenge (response_of md5 u password challenge) ≡ true
    unfolding accepts auth_response name_differs
    response_accepted =
        let hash = compute_auth_hash md5 password challenge in
        rw (
          take_prefix 16 hash (name_field u) (length-compute_auth_hash password),
          drop_prefix 16 hash (name_field u) (length-compute_auth_hash password),
          received_name-name_field u v.fits v.no_zero v.text,
          bytes_eq_refl u,
          bytes_eq_refl hash,
        )

    -- A client and a server with the same name and password let each other in: the server accepts
    -- what the client wrote, and the client takes the reply that the server wrote.
    pub logs_in :
        (rest rest' w w' : Bytes)
        → let r = response_of md5 u password challenge in
          (client_authenticate md5 auth_required u password
              (open_stream (challenge ++ (auth_ok ++ rest)) w)
            ≡ ok tt (open_stream rest (w ++ r)))
          × (server_authenticate md5
                (some u)
                (some password)
                challenge
                auth_ok
                (open_stream (r ++ rest') w')
              ≡ ok tt (open_stream rest' (((w' ++ auth_required) ++ challenge) ++ auth_ok)))
    unfolding bytes_eq
    logs_in rest rest' w w' =
        let r = response_of md5 u password challenge in
        (
          client_answers u password auth_ok rest w refl,
          server_decides md5 (some u) password challenge auth_ok r rest' w'
                (length-response u password)
              ∙ rw response_accepted,
        )

  response_refused :
      (u password theirs : Bytes)
      → compute_auth_hash md5 theirs challenge ≢ compute_auth_hash md5 password challenge
      → accepts md5 (some u) password challenge (response_of md5 u theirs challenge) ≡ false
  unfolding accepts auth_response
  response_refused u password theirs h =
      let hash = compute_auth_hash md5 theirs challenge in
      rw (take_prefix 16 hash (name_field u) (length-compute_auth_hash theirs))
        (refused_by_second _ (other_bytes hash (compute_auth_hash md5 password challenge) h))

  -- Another digest is refused, and the client takes the refusal as one.
  pub wrong_password :
      (u password theirs rest rest' w w' : Bytes)
      → compute_auth_hash md5 theirs challenge ≢ compute_auth_hash md5 password challenge
      → let r = response_of md5 u theirs challenge in
        (server_authenticate md5
            (some u)
            (some password)
            challenge
            auth_ok
            (open_stream (r ++ rest') w')
          ≡ err Stream.auth_failed
              (open_stream rest' (((w' ++ auth_required) ++ challenge) ++ auth_failed)))
        × (client_authenticate md5 auth_required u theirs
              (open_stream (challenge ++ (auth_failed ++ rest)) w)
            ≡ err Stream.auth_failed (open_stream rest (w ++ r)))
  unfolding bytes_eq
  wrong_password u password theirs rest rest' w w' h =
      let r = response_of md5 u theirs challenge in
      (
        server_decides md5 (some u) password challenge auth_ok r rest' w' (length-response u theirs)
            ∙ rw (response_refused u password theirs h),
        client_answers u theirs auth_failed rest w refl,
      )
