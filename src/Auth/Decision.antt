-- ===== src/Auth/Decision.antt =====
-- What the server of src/auth.rs makes of a response.
use btest_rs.Base.{
  ◌≡◌, refl, Bool, true, false, not, ◌&&◌, Option, some, ◌++◌, Bytes, length, take, drop, bytes_eq,
  if◌then◌else◌, Bool-cases, is_utf8, find_zero, length-take, length-drop, ◌≤◌, ◌<◌, ap, arith,
  bytes_eq_sound, inl, inr,
}
use btest_rs.Protocol.{auth_required, auth_failed}
use btest_rs.Stream
use btest_rs.Stream.{Stream, Exchange, Outcome, ok, err, read_exact, write_all}
use btest_rs.Stream.Laws.{open_stream, read_exact_prefix}
use btest_rs.Auth.{
  server_authenticate, compute_auth_hash, received_name, name_differs, refuse, or_else,
}

-- The right digest, under the expected name.
unfoldable pub accepts : (Bytes → Bytes) → Option Bytes → Bytes → Bytes → Bytes → Bool
accepts md5 username pass challenge response =
    not (name_differs username (received_name (drop 16 response)))
    && bytes_eq (take 16 response) (compute_auth_hash md5 pass challenge)

two_tests :
    (b d : Bool) (bad good : Exchange {0} Unit) (s : Stream)
    → (if b then bad else if d then good else bad) s ≡ (if not b && d then good s else bad s)
two_tests true d bad good s = refl
two_tests false true bad good s = refl
two_tests false false bad good s = refl

-- A server with a password sends its challenge, reads one response of 48 bytes and no more, and
-- grants the test exactly when the response has the right digest and the expected name. Otherwise
-- it sends the refusal and fails.
pub server_decides :
    (md5 : Bytes → Bytes) (username : Option Bytes) (pass challenge ok_response : Bytes)
    (response rest w : Bytes)
    → length response ≡ 48
    → server_authenticate md5 username
        (some pass)
        challenge
        ok_response
        (open_stream (response ++ rest) w)
      ≡ (let asked = (w ++ auth_required) ++ challenge in
          if accepts md5 username pass challenge response
          then ok tt (open_stream rest (asked ++ ok_response))
          else err Stream.auth_failed (open_stream rest (asked ++ auth_failed)))
unfolding server_authenticate accepts write_all refuse
server_decides md5 username pass challenge ok_response response rest w h =
    rw (read_exact_prefix 48 response rest ((w ++ auth_required) ++ challenge) h) (
      two_tests (name_differs username (received_name (drop 16 response)))
        (bytes_eq (take 16 response) (compute_auth_hash md5 pass challenge)) refuse
        (write_all ok_response) (open_stream rest ((w ++ auth_required) ++ challenge)))

length-received_name : (field : Bytes) → length (received_name field) ≤ length field
unfolding received_name
length-received_name field =
    elim (Bool-cases (is_utf8 (take (or_else (find_zero field) 32) field))) [
      | inl e ↦ rw (e, length-take (or_else (find_zero field) 32) field) (omega arith)
      | inr e ↦ rw e (omega arith)
    ]

-- A server whose configured name is longer than the 32 bytes of the field refuses every response,
-- the right digest or not.
pub long_name_refused :
    (md5 : Bytes → Bytes) (username pass challenge response : Bytes)
    → length response ≡ 48
    → 32 < length username
    → accepts md5 (some username) pass challenge response ≡ false
unfolding accepts name_differs
long_name_refused md5 username pass challenge response h long =
    let name = received_name (drop 16 response) in
    elim (Bool-cases (bytes_eq name username)) [
      | inl e ↦ absurd (
          omega (
            arith,
            long,
            h,
            ap length (bytes_eq_sound name username e),
            length-received_name (drop 16 response),
            length-drop 16 response,
          ))
      | inr e ↦ rw e
    ]
