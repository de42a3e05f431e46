-- ===== src/Auth.antt =====
-- The MD5 challenge and response of src/auth.rs. The digest is an argument, as the code is that of
-- a package, and so is the challenge, which is random.
pub mod Response
pub mod Decision
pub mod Interop
mod Tests
use btest_rs.Base.{
  ℕ, min, Bool, false, not, [], Option, none, some, ◌++◌, ◌-◌, Bytes, length, take, drop, replicate,
  bytes_eq, find_zero, is_utf8, if◌then◌else◌,
}
use btest_rs.Protocol.{auth_ok, auth_required, auth_failed}
use btest_rs.Stream
use btest_rs.Stream.{
  Exchange, ◌>>=◌, ◌>>◌, pure, raise, read_exact, write_all, recv_response, protocol,
}

-- MD5(password + MD5(password + challenge))
unfoldable pub compute_auth_hash : (Bytes → Bytes) → Bytes → Bytes → Bytes
compute_auth_hash md5 password challenge = md5 (password ++ md5 (password ++ challenge))

abbrev pub or_else : Option ℕ → ℕ → ℕ
or_else none d = d
or_else (some i) d = i

-- The name in the 32 bytes after the digest: up to the first zero, and empty unless it is text.
unfoldable pub received_name : Bytes → Bytes
received_name field =
    let name = take (or_else (find_zero field) 32) field in if is_utf8 name then name else []

-- No expected name accepts any.
unfoldable pub name_differs : Option Bytes → Bytes → Bool
name_differs none name = false
name_differs (some expected) name = not (bytes_eq name expected)

-- `AUTH_FAILED`, and the error.
unfoldable pub refuse : Exchange {0} Unit
refuse = write_all auth_failed >> raise Stream.auth_failed

unfoldable pub server_authenticate :
    (Bytes → Bytes) → Option Bytes → Option Bytes → Bytes → Bytes → Exchange {0} Unit
unfolding compute_auth_hash received_name name_differs
server_authenticate md5 username none challenge ok_response = write_all ok_response
server_authenticate md5 username (some pass) challenge ok_response = do
  write_all auth_required
  write_all challenge
  response ← read_exact 48
  let name = received_name (drop 16 response)
  if name_differs username name
      then refuse
      else if bytes_eq (take 16 response) (compute_auth_hash md5 pass challenge)
      then write_all ok_response
      else refuse

-- 16 bytes of digest and 32 of name, padded with zeros.
unfoldable pub auth_response : Bytes → Bytes → Bytes
auth_response hash username =
    hash ++ (take 32 username ++ replicate (32 - min (length username) 32) 0)

unfoldable pub answer_challenge : (Bytes → Bytes) → Bytes → Bytes → Exchange {0} Unit
answer_challenge md5 username password = do
  challenge ← read_exact 16
  write_all (auth_response (compute_auth_hash md5 password challenge) username)
  result ← recv_response
  if bytes_eq result auth_ok then pure tt else raise Stream.auth_failed

unfoldable pub client_authenticate : (Bytes → Bytes) → Bytes → Bytes → Bytes → Exchange {0} Unit
client_authenticate md5 resp username password =
    if bytes_eq resp auth_ok
    then pure tt
    else if bytes_eq resp auth_required
    then answer_challenge md5 username password
    else raise protocol
