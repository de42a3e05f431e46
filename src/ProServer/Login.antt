-- ===== src/ProServer/Login.antt =====
-- The MD5 exchange of `handle_pro_connection` in src/server_pro/server_loop.rs, against the user
-- database.
pub mod Laws
use btest_rs.Base.{
  Bool, true, false, not, Option, none, some, Bytes, take, drop, bytes_eq, if◌then◌else◌,
}
use btest_rs.Protocol.{auth_required, auth_failed}
use btest_rs.Stream
use btest_rs.Stream.{Exchange, ◌>>=◌, ◌>>◌, pure, raise, read_exact, write_all}
use btest_rs.Auth.{compute_auth_hash, received_name}
use btest_rs.UserDb.{User, UserDb}
use btest_rs.UserDb.Users.{get_user, get_password}

-- `AUTH_FAILED`, and the error.
unfoldable pub turn_away : Exchange Bytes
turn_away = write_all auth_failed >> raise Stream.auth_failed

module _ (md5 : Bytes → Bytes) (challenge : Bytes) where
  -- The digest is checked only against a password that the query gives.
  unfoldable pub hash_matches : Option (Option Bytes) → Bytes → Bool
  hash_matches none hash = true
  hash_matches (some none) hash = true
  hash_matches (some (some raw_pass)) hash =
      bytes_eq hash (compute_auth_hash md5 raw_pass challenge)

module _ (md5 : Bytes → Bytes) (challenge ok_response : Bytes) where
  unfoldable pub verify : UserDb → Option (Option User) → Bytes → Bytes → Exchange Bytes
  unfolding hash_matches turn_away
  verify db none username hash = raise Stream.io
  verify db (some none) username hash = turn_away
  verify db (some (some u)) username hash =
      if not u.enabled
      then turn_away
      else if hash_matches md5 challenge (get_password username db) hash
      then write_all ok_response >> pure username
      else turn_away

unfoldable pub log_in : (Bytes → Bytes) → UserDb → Bytes → Bytes → Exchange Bytes
unfolding verify
log_in md5 db challenge ok_response = do
  write_all auth_required
  write_all challenge
  response ← read_exact 48
  let username = received_name (drop 16 response)
  verify md5 challenge ok_response db (get_user username db) username (take 16 response)
