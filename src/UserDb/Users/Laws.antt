-- ===== src/UserDb/Users/Laws.antt =====
-- Lookups after a change of the table of users.
use btest_rs.Base.{
  ℕ, ◌≡◌, refl, ◌↔◌, Bool, true, false, List, [], ◌∷◌, ◌++◌, none, some, arith, Bytes, bytes_eq,
  bytes_eq_iff, bytes_eq_refl, if◌then◌else◌,
}
use btest_rs.UserDb.{ℤ, pos, User, UserDb, select_user, select_password}
use btest_rs.UserDb.Users.{
  find_user, without, update_user, get_user, get_password, hash_password, add_user, verify_password,
  delete_user, set_user_enabled, set_user_quota,
}

find_user-without :
    (n m : Bytes) (us : List User)
    → find_user m (without n us) ≡ (if bytes_eq n m then none else find_user m us)
find_user-without n m [] = ground arith
find_user-without n m (u ∷ us) = ground (
  arith,
  find_user-without n m us,
  bytes_eq_iff u.username n,
  bytes_eq_iff u.username m,
  bytes_eq_iff n m,
)

find_user_last :
    (m : Bytes) (u : User) (us : List User)
    → find_user m us ≡ none
    → find_user m (us ++ u ∷ []) ≡ (if bytes_eq u.username m then some u else none)
find_user_last m u [] h = refl
find_user_last m u (x ∷ us) h = ground (arith, find_user_last m u us)

find_user_before :
    (m : Bytes) (u : User) (us : List User)
    → bytes_eq u.username m ≡ false
    → find_user m (us ++ u ∷ []) ≡ find_user m us
find_user_before m u [] h = ground arith
find_user_before m u (x ∷ us) h = ground (arith, find_user_before m u us h)

-- An update under a name keeps the names.
find_user-update_user :
    (n : Bytes) (f : User → User) (m : Bytes)
    → ((u : User) → (f u).username ≡ u.username)
    → (us : List User)
    → find_user m (update_user n f us) ≡ (
        if bytes_eq n m
        then (elim (find_user m us) [ none ↦ none | some u ↦ some (f u) ])
        else find_user m us)
find_user-update_user n f m keep [] = ground arith
find_user-update_user n f m keep (u ∷ us) = ground (
  arith,
  keep u,
  find_user-update_user n f m keep us,
  bytes_eq_iff u.username n,
  bytes_eq_iff u.username m,
  bytes_eq_iff n m,
)

find_user_added :
    (m : Bytes) (row : User) (us : List User)
    → find_user m (without row.username us ++ row ∷ [])
      ≡ (if bytes_eq row.username m then some row else find_user m us)
find_user_added m row us = ground (
  arith,
  find_user-without row.username m us,
  find_user_last m row (without row.username us),
  find_user_before m row (without row.username us),
)

-- The row that `add_user` writes.
abbrev pub new_user : (Bytes → Bytes) → Bytes → Bytes → ℕ → User
new_user sha256 n p id = record {
  id = id;
  username = n;
  password_hash = hash_password sha256 n p;
  password_raw = p;
  daily_quota = pos 0;
  weekly_quota = pos 0;
  enabled = true;
}

module _ (sha256 : Bytes → Bytes) (n p m : Bytes) (db db' : UserDb) where
  -- After `add_user` the name has the new row, with the quotas and the enabled mark at their
  -- defaults whatever an earlier row of that name had; every other name has the row it had.
  pub user_added :
      add_user sha256 n p db ≡ some db'
      → get_user m db' ≡ (
          if db.fails select_user
          then none
          else some (
              if bytes_eq n m
              then some (new_user sha256 n p db.next_user_id)
              else find_user m db.users))
  unfolding add_user get_user
  user_added h = ground (arith, find_user_added m (new_user sha256 n p db.next_user_id) db.users)

module _ (sha256 : Bytes → Bytes) (n p q : Bytes) (db db' : UserDb) where
  -- After `add_user` a password is accepted just when its digest is that of the password given.
  pub added_verifies :
      add_user sha256 n p db ≡ some db'
      → db.fails select_user ≡ false
      → verify_password sha256 n q db'
        ≡ some (bytes_eq (hash_password sha256 n p) (hash_password sha256 n q))
  unfolding add_user verify_password get_user
  added_verifies h ok =
      ground
        (arith, find_user_added n (new_user sha256 n p db.next_user_id) db.users, bytes_eq_refl n)

  -- A disabled user is refused whatever the password, and has none for the challenge.
  pub disabled_refused :
      set_user_enabled n false db ≡ some db'
      → db.fails select_user ≡ false
      → db.fails select_password ≡ false
      → (verify_password sha256 n q db' ≡ some false) × (get_password n db' ≡ some none)
  unfolding set_user_enabled verify_password get_user get_password
  disabled_refused h ok ok' = ground (
    arith,
    find_user-update_user n (λ (u : User). record u { enabled = false }) n (λ u. refl) db.users,
    bytes_eq_refl n,
  )

-- A deleted user is gone, the answer says whether there was one, and no other user is touched.
pub deleted_gone :
    (n m : Bytes) (db db' : UserDb) (found : Bool)
    → delete_user n db ≡ some (db', found)
    → db.fails select_user ≡ false
    → (get_user n db' ≡ some none)
      × ((found ≡ false) ↔ (get_user n db ≡ some none))
      × (bytes_eq n m ≡ false → get_user m db' ≡ get_user m db)
unfolding delete_user get_user
deleted_gone n m db db' found h ok =
    ground (arith, find_user-without n n db.users, find_user-without n m db.users, bytes_eq_refl n)

-- A quota is stored by day and by week; the monthly argument is dropped.
pub monthly_dropped :
    (n : Bytes) (daily weekly monthly other : ℤ) (db : UserDb)
    → set_user_quota n daily weekly monthly db ≡ set_user_quota n daily weekly other db
unfolding set_user_quota
monthly_dropped n daily weekly monthly other db = refl
