-- ===== src/UserDb/Sessions/Laws.antt =====
-- What the sessions, the totals and the lists of `UserDb` hold.
use mathlib.Core.List.{Perm}
use mathlib.Core.Option.{some-injective, none-ne-some}
use btest_rs.Base.{
  ℕ, ◌+◌, ◌<◌, ◌≡◌, refl, ap, subst, ◌∙◌, Bool, true, false, ◌==◌, ◌||◌, List, [], ◌∷◌, ◌++◌,
  Option, none, some, Bytes, bytes_eq, bytes_eq_refl, arith, if◌then◌else◌,
}
use btest_rs.UserDb.{User, UserDb, Session, Clock}
use btest_rs.UserDb.Table.{DayRow, is_row, upsert, sum_where}
use btest_rs.UserDb.Usage.{record_ip_usage}
use btest_rs.UserDb.Usage.Sums.{sum-upsert_first, sum-upsert_second}
use btest_rs.UserDb.Users.{list_users}
use btest_rs.UserDb.Ordered.{order_by, IsKeySorted, order_by-perm, order_by-IsKeySorted}
use btest_rs.UserDb.Sessions.{start_session, end_session, update_row, get_ip_totals}

-- The row of a number.
abbrev pub find_row : ℕ → List Session → Option Session
find_row n [] = none
find_row n (r ∷ rs) = let more = find_row n rs in if r.id == n then some r else more

-- The numbers in use are below the next.
abbrev pub IsNumbered : ℕ → List Session → Type 0
IsNumbered n [] = Unit {0}
IsNumbered n (r ∷ rs) = (r.id < n) × IsNumbered n rs

IsNumbered-append :
    (n : ℕ) (rs : List Session) (r : Session)
    → r.id ≡ n
    → IsNumbered n rs
    → IsNumbered (n + 1) (rs ++ r ∷ [])
IsNumbered-append n [] r e v = (omega arith, tt)
IsNumbered-append n (x ∷ rs) r e v = (omega (arith, v.0), IsNumbered-append n rs r e v.1)

IsNumbered-update_row :
    (n m : ℕ) (f : Session → Session) (rs : List Session)
    → ((r : Session) → (f r).id ≡ r.id)
    → IsNumbered n rs
    → IsNumbered n (update_row m f rs)
IsNumbered-update_row n m f [] same v = tt
IsNumbered-update_row n m f (r ∷ rs) same v =
    (ground (arith, same r, v.0), IsNumbered-update_row n m f rs same v.1)

find_row-append :
    (n m : ℕ) (rs : List Session) (r : Session)
    → r.id ≡ n
    → IsNumbered n rs
    → find_row m (rs ++ r ∷ []) ≡ (if n == m then some r else find_row m rs)
find_row-append n m [] r e v = ground arith
find_row-append n m (x ∷ rs) r e v = ground (arith, find_row-append n m rs r e v.1, v.0)

abbrev changed : Bool → (Session → Session) → Option Session → Option Session
changed hit f none = none
changed hit f (some r) = some (if hit then f r else r)

find_row-update_row :
    (n m : ℕ) (f : Session → Session) (rs : List Session)
    → ((r : Session) → (f r).id ≡ r.id)
    → find_row m (update_row n f rs) ≡ changed (n == m) f (find_row m rs)
find_row-update_row n m f [] same = refl
find_row-update_row n m f (r ∷ rs) same = ground (arith, find_row-update_row n m f rs same, same r)

changed_twice :
    (hit : Bool) (f : Session → Session) (r : Session) (o : Option Session)
    → changed hit f (if hit then some r else o) ≡ (if hit then some (f r) else o)
changed_twice true f r o = refl
changed_twice false f r none = refl
changed_twice false f r (some r') = refl

-- A row that is added and then changed.
pub rows_tracked :
    (n m : ℕ) (f : Session → Session) (rs : List Session) (r : Session)
    → r.id ≡ n
    → ((r : Session) → (f r).id ≡ r.id)
    → IsNumbered n rs
    → (find_row m (update_row n f (rs ++ r ∷ [])) ≡ (if n == m then some (f r) else find_row m rs))
      × IsNumbered (n + 1) (update_row n f (rs ++ r ∷ []))
rows_tracked n m f rs r e same v = (
  find_row-update_row n m f (rs ++ r ∷ []) same
      ∙ ap (changed (n == m) f) (find_row-append n m rs r e v)
      ∙ changed_twice (n == m) f r (find_row m rs),
  IsNumbered-update_row (n + 1) n f (rs ++ r ∷ []) same (IsNumbered-append n rs r e v),
)

-- The row of a session that has ended.
abbrev pub ended_row : ℕ → Bytes → Bytes → Bytes → Bytes → Bytes → Bytes → ℕ → ℕ → Session
ended_row n started name ip protocol direction ended tx rx = record {
  id = n;
  username = name;
  peer_ip = ip;
  protocol = protocol;
  direction = direction;
  started_at = started;
  ended_at = some ended;
  tx_bytes = tx;
  rx_bytes = rx;
}

module _ (started ended name ip protocol direction : Bytes) (tx rx : ℕ) (db : UserDb) where
  -- Where the numbers of the sessions are below the next one: a session that is started and ended gets
  -- a number of its own, its row has both times and the two byte counts, the rows of the other sessions
  -- are as they were, and the numbers are below the next one again.
  pub session_tracked :
      {n : ℕ} {db1 db2 : UserDb} (m : ℕ)
      → IsNumbered db.next_session_id db.sessions
      → start_session started name ip protocol direction db ≡ some (n, db1)
      → end_session ended n tx rx db1 ≡ some db2
      → (find_row m db2.sessions ≡ (
          if n == m
          then some (ended_row n started name ip protocol direction ended tx rx)
          else find_row m db.sessions))
        × IsNumbered db2.next_session_id db2.sessions
  unfolding start_session end_session
  session_tracked m v h h' = ground (
    arith,
    rows_tracked db.next_session_id m
        (λ r. record r { ended_at = some ended; tx_bytes = tx; rx_bytes = rx }) db.sessions
        (record (ended_row db.next_session_id started name ip protocol direction ended 0 0) {
          ended_at = none;
        })
        refl (λ r. refl) v,
  )

-- Whether an address has a row of a day.
abbrev pub has_row : Bytes → Bytes → List DayRow → Bool
has_row o d [] = false
has_row o d (r ∷ rs) = is_row o d r || has_row o d rs

-- The rows of an owner
abbrev pub row_count : Bytes → List DayRow → ℕ
row_count o = sum_where (λ r. bytes_eq r.owner o) (λ r. 1)

row_count-upsert :
    (o d : Bytes) (a b n : ℕ) (rows : List DayRow)
    → row_count o (upsert o d a b n rows) ≡ (if has_row o d rows then 0 else 1) + row_count o rows
unfolding upsert sum_where
row_count-upsert o d a b n [] = rw (bytes_eq_refl o) refl
row_count-upsert o d a b n (r ∷ rs) = ground (arith, row_count-upsert o d a b n rs)

answered {ℓ} : {A : Type ℓ} (b : Bool) (x y : A) → (if b then none else some x) ≡ some y → x ≡ y
answered true x y h = absurd (none-ne-some y h)
answered false x y h = some-injective x y h

-- The list of users has the rows of the table, each as often as it is stored, in the order of their
-- names.
pub users_listed :
    (db : UserDb) {users : List User}
    → list_users db ≡ some users
    → Perm users db.users × IsKeySorted (λ (u : User). u.username) users
unfolding list_users
users_listed db h =
    let name = (λ (u : User). u.username) in
    let listed : order_by name db.users ≡ _ = answered _ _ _ h in
    subst (λ l. Perm l db.users × IsKeySorted name l) listed
      (order_by-perm name db.users, order_by-IsKeySorted name db.users)

-- A test counts for the totals of its address only if it is the first one of its day: the totals count
-- the rows of the address, and later tests of a day go into the same row.
pub tests_counted_by_day :
    (k : Clock) (ip : Bytes) (tx rx : ℕ) (db : UserDb) {db' : UserDb} {n i o n' i' o' : ℕ}
    → record_ip_usage k ip tx rx db ≡ some db'
    → get_ip_totals ip db ≡ some (n, i, o)
    → get_ip_totals ip db' ≡ some (n', i', o')
    → (n' ≡ (if has_row ip k.today db.ip_usage then n else n + 1)) × ((i' ≡ i + rx) × (o' ≡ o + tx))
unfolding record_ip_usage get_ip_totals
tests_counted_by_day k ip tx rx db recorded before after = ground (
  arith,
  bytes_eq_refl ip,
  row_count-upsert ip k.today rx tx 1 db.ip_usage,
  sum-upsert_first (λ o d. bytes_eq o ip) ip k.today rx tx 1 db.ip_usage,
  sum-upsert_second (λ o d. bytes_eq o ip) ip k.today rx tx 1 db.ip_usage,
)
