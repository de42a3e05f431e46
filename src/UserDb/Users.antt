-- ===== src/UserDb/Users.antt =====
-- The statements of `UserDb` on the table of users. The digest is a parameter.
pub mod Laws
use btest_rs.Base.{
  ℕ, ◌+◌, ◌/◌, ◌%◌, Bool, true, false, ◌&&◌, not, List, [], ◌∷◌, ◌++◌, Option, none, some, Bytes,
  bytes_eq, ltb, if◌then◌else◌,
}
use btest_rs.UserDb.{
  ℤ, pos, negsuc, User, UserDb, Query, select_user, select_password, insert_user, remove_user,
  update_enabled, update_quota, select_users,
}
use btest_rs.UserDb.Usage.{query}
use btest_rs.UserDb.Ordered.{order_by}

-- `{:02x}` of each byte
hex_digit : ℕ → ℕ
hex_digit n = if ltb n 10 then n + 48 else n + 87

pub hex : Bytes → Bytes
unfolding hex_digit
hex [] = []
hex (b ∷ bs) = hex_digit (b / 16 % 16) ∷ hex_digit (b % 16) ∷ hex bs

abbrev pub find_user : Bytes → List User → Option User
find_user name [] = none
find_user name (u ∷ us) = if bytes_eq u.username name then some u else find_user name us

abbrev pub without : Bytes → List User → List User
without name [] = []
without name (u ∷ us) =
    let rest = without name us in if bytes_eq u.username name then rest else u ∷ rest

abbrev pub update_user : Bytes → (User → User) → List User → List User
update_user name f [] = []
update_user name f (u ∷ us) = (if bytes_eq u.username name then f u else u) ∷ update_user name f us

unfoldable pub get_user : Bytes → UserDb → Option (Option User)
get_user name db = query db select_user (find_user name db.users)

abbrev password_of : Option User → Option Bytes
password_of none = none
password_of (some u) = if u.enabled then some u.password_raw else none

unfoldable pub get_password : Bytes → UserDb → Option (Option Bytes)
get_password name db = query db select_password (password_of (find_user name db.users))

module _ (sha256 : Bytes → Bytes) where
  unfoldable pub hash_password : Bytes → Bytes → Bytes
  hash_password username password = hex (sha256 (username ++ (58 ∷ password)))

  -- `INSERT OR REPLACE`: the row that has the name goes, and the other columns are the defaults.
  unfoldable pub add_user : Bytes → Bytes → UserDb → Option UserDb
  unfolding hash_password
  add_user username password db =
      let row : User = record {
        id = db.next_user_id;
        username = username;
        password_hash = hash_password username password;
        password_raw = password;
        daily_quota = pos 0;
        weekly_quota = pos 0;
        enabled = true;
      } in
      query db insert_user (record db {
        users = without username db.users ++ row ∷ [];
        next_user_id = db.next_user_id + 1;
      })

  unfoldable pub verify_password : Bytes → Bytes → UserDb → Option Bool
  unfolding hash_password get_user
  verify_password username password db = elim (get_user username db) [
    | none ↦ none
    | some none ↦ some false
    | some (some u) ↦ some (u.enabled && bytes_eq u.password_hash (hash_password username password))
  ]

-- Whether a row was deleted.
unfoldable pub delete_user : Bytes → UserDb → Option (UserDb × Bool)
delete_user name db = query db remove_user (
  record db { users = without name db.users },
  elim (find_user name db.users) [ none ↦ false | some _ ↦ true ],
)

unfoldable pub set_user_enabled : Bytes → Bool → UserDb → Option UserDb
set_user_enabled name enabled db =
    query db update_enabled
      (record db { users = update_user name (λ u. record u { enabled = enabled }) db.users })

-- The monthly quota is an argument that no column keeps.
unfoldable pub set_user_quota : Bytes → ℤ → ℤ → ℤ → UserDb → Option UserDb
set_user_quota name daily weekly monthly db = query db update_quota (record db {
  users = update_user name (λ u. record u { daily_quota = daily; weekly_quota = weekly }) db.users;
})

-- `ORDER BY username`
unfoldable pub list_users : UserDb → Option (List User)
unfolding order_by
list_users db = query db select_users (order_by (λ (u : User). u.username) db.users)
