-- ===== src/ProServer/CommandLine.antt =====
-- The commands on users, and the limits of the command line, in src/server_pro/main.rs.
use btest_rs.Base.{
  ℕ, ◌≡◌, refl, Bool, List, [], ◌∷◌, Option, none, some, Bytes, ltb, if◌then◌else◌, arith,
}
use btest_rs.UserDb.{ℤ, pos, User, UserDb}
use btest_rs.UserDb.Users.{
  add_user, delete_user, list_users, set_user_enabled, set_user_quota, find_user, update_user,
}
use btest_rs.Quota.{QuotaManager}

pub data UserCommand : Type 0 where
  user_add : Bytes → Bytes → UserCommand
  user_del : Bytes → UserCommand
  user_list : UserCommand
  user_set : Bytes → Option Bool → Option ℤ → Option ℤ → UserCommand

abbrev pub or_pos_0 : Option ℤ → ℤ
or_pos_0 none = pos 0
or_pos_0 (some n) = n

abbrev pub then_quota : Bytes → Option ℤ → Option ℤ → Option UserDb → Option UserDb
then_quota name daily weekly none = none
then_quota name none none (some db) = some db
then_quota name daily weekly (some db) =
    set_user_quota name (or_pos_0 daily) (or_pos_0 weekly) (pos 0) db

abbrev pub set_enabled : Bytes → Option Bool → UserDb → Option UserDb
set_enabled name none db = some db
set_enabled name (some e) db = set_user_enabled name e db

-- The database after a command; `none` is an error.
unfoldable pub run_command : (Bytes → Bytes) → UserCommand → UserDb → Option UserDb
run_command sha256 (user_add username password) db = add_user sha256 username password db
run_command sha256 (user_del username) db = elim (delete_user username db) [
  | none ↦ none
  | some (db', found) ↦ some db'
]
run_command sha256 user_list db = elim (list_users db) [ none ↦ none | some users ↦ some db ]
run_command sha256 (user_set username enabled daily weekly) db =
    then_quota username daily weekly (set_enabled username enabled db)

-- The limits as they are given; 0 stands for one that is not.
pub record Limits : Type 0 where
  pub daily_quota : ℕ
  pub weekly_quota : ℕ
  pub monthly_quota : ℕ
  pub ip_daily : ℕ
  pub ip_weekly : ℕ
  pub ip_monthly : ℕ
  pub ip_daily_in : ℕ
  pub ip_daily_out : ℕ
  pub ip_weekly_in : ℕ
  pub ip_weekly_out : ℕ
  pub ip_monthly_in : ℕ
  pub ip_monthly_out : ℕ
  pub max_conn_per_ip : ℕ
  pub max_duration : ℕ

abbrev pub or_fallback : ℕ → ℕ → ℕ
or_fallback specific combined = if ltb 0 specific then specific else combined

unfoldable pub quota_mgr : Limits → QuotaManager
quota_mgr c = record {
  default_daily = c.daily_quota;
  default_weekly = c.weekly_quota;
  default_monthly = c.monthly_quota;
  ip_daily = c.ip_daily;
  ip_weekly = c.ip_weekly;
  ip_monthly = c.ip_monthly;
  ip_daily_inbound = or_fallback c.ip_daily_in c.ip_daily;
  ip_daily_outbound = or_fallback c.ip_daily_out c.ip_daily;
  ip_weekly_inbound = or_fallback c.ip_weekly_in c.ip_weekly;
  ip_weekly_outbound = or_fallback c.ip_weekly_out c.ip_weekly;
  ip_monthly_inbound = or_fallback c.ip_monthly_in c.ip_monthly;
  ip_monthly_outbound = or_fallback c.ip_monthly_out c.ip_monthly;
  max_conn_per_ip = c.max_conn_per_ip;
  max_duration = c.max_duration;
  active_connections = [];
}

found_after :
    (name : Bytes) (f : User → User) (us : List User) (u : User)
    → ((u : User) → (f u).username ≡ u.username)
    → find_user name us ≡ some u
    → find_user name (update_user name f us) ≡ some (f u)
found_after name f [] u same h = absurd (ground arith)
found_after name f (x ∷ us) u same h = ground (arith, found_after name f us u same, same x)

-- A command that sets one of the two quotas of a user sets the other to 0, which stands for the default,
-- whatever it was.
pub quota_reset :
    (sha256 : Bytes → Bytes) (name : Bytes) (n : ℤ) (u : User) (db daily_db weekly_db : UserDb)
    → find_user name db.users ≡ some u
    → run_command sha256 (user_set name none (some n) none) db ≡ some daily_db
    → run_command sha256 (user_set name none none (some n)) db ≡ some weekly_db
    → (find_user name daily_db.users ≡ some (record u { daily_quota = n; weekly_quota = pos 0 }))
      × (find_user name weekly_db.users ≡ some (record u { daily_quota = pos 0; weekly_quota = n }))
unfolding run_command set_user_quota
quota_reset sha256 name n u db daily_db weekly_db found h h' = ground (
  arith,
  found_after name (λ u. record u { daily_quota = n; weekly_quota = pos 0 }) db.users u (λ u. refl)
      found,
  found_after name (λ u. record u { daily_quota = pos 0; weekly_quota = n }) db.users u (λ u. refl)
      found,
)
