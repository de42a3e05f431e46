-- ===== src/Quota.antt =====
-- The quota manager of src/server_pro/quota.rs. An address stands as the text that `to_string`
-- gives for it. A query that fails counts as no usage, as `unwrap_or` has it.
pub mod Connections
pub mod Slots
pub mod Limits
pub mod Admission
pub mod Recording
pub mod Samples
mod Tests
use btest_rs.Base.{
  ℕ, zero, suc, ◌-◌, min, Bool, true, false, not, ◌||◌, List, [], ◌∷◌, Option, none, some, Bytes,
  ltb, leb, if◌then◌else◌, u64_max,
}
use btest_rs.Bandwidth.{add_u64}
use btest_rs.UserDb.{ℤ, pos, negsuc, User, UserDb, Clock}
use btest_rs.UserDb.Users.{get_user}
use Connections.{count_of, add_one, take_one}
use btest_rs.UserDb.Usage.{
  get_daily_usage, get_weekly_usage, get_monthly_usage, get_ip_daily_usage, get_ip_weekly_usage,
  get_ip_monthly_usage, get_ip_daily_inbound, get_ip_weekly_inbound, get_ip_monthly_inbound,
  get_ip_daily_outbound, get_ip_weekly_outbound, get_ip_monthly_outbound,
}
use btest_rs.UserDb.Usage.{record_usage as record_user_usage, record_ip_usage}

pub data Direction : Type 0 where
  inbound outbound both : Direction

-- The constructors with two numbers have the usage and the limit.
pub data QuotaError : Type 0 where
  daily_exceeded weekly_exceeded monthly_exceeded : ℕ → ℕ → QuotaError
  ip_daily_exceeded ip_weekly_exceeded ip_monthly_exceeded : ℕ → ℕ → QuotaError
  ip_inbound_daily_exceeded ip_outbound_daily_exceeded : ℕ → ℕ → QuotaError
  ip_inbound_weekly_exceeded ip_outbound_weekly_exceeded : ℕ → ℕ → QuotaError
  ip_inbound_monthly_exceeded ip_outbound_monthly_exceeded : ℕ → ℕ → QuotaError
  too_many_connections : ℕ → ℕ → QuotaError
  user_disabled user_not_found : QuotaError

-- A limit of 0 is no limit.
pub record QuotaManager : Type 0 where
  pub default_daily : ℕ
  pub default_weekly : ℕ
  pub default_monthly : ℕ
  pub ip_daily : ℕ
  pub ip_weekly : ℕ
  pub ip_monthly : ℕ
  pub ip_daily_inbound : ℕ
  pub ip_daily_outbound : ℕ
  pub ip_weekly_inbound : ℕ
  pub ip_weekly_outbound : ℕ
  pub ip_monthly_inbound : ℕ
  pub ip_monthly_outbound : ℕ
  pub max_conn_per_ip : ℕ
  pub max_duration : ℕ
  pub active_connections : List (Bytes × ℕ)

-- `Result<(), QuotaError>`
pub data Verdict : Type 0 where
  accept : Verdict
  reject : QuotaError → Verdict

-- `first?; second`
infixl 5 ◌>>◌
abbrev pub ◌>>◌ : Verdict → Verdict → Verdict
accept >> v = v
reject e >> v = reject e

abbrev pub used_total : Option (ℕ × ℕ) → ℕ
used_total none = 0
used_total (some (tx, rx)) = add_u64 tx rx

abbrev pub used_or_0 : Option ℕ → ℕ
used_or_0 none = 0
used_or_0 (some used) = used

-- The limit of a user, or the default where it is not positive.
abbrev pub limit_of : ℤ → ℕ → ℕ
limit_of (pos zero) default = default
limit_of (pos (suc n)) default = suc n
limit_of (negsuc n) default = default

-- `if limit > 0 { … if used >= limit { return Err(…) } }`
unfoldable pub limit_check : ℕ → ℕ → (ℕ → ℕ → QuotaError) → Verdict
limit_check limit used error =
    if ltb 0 limit then (if leb limit used then reject (error used limit) else accept) else accept

module _ (q : QuotaManager) (k : Clock) (db : UserDb) where
  abbrev check_limits : Bytes → User → Verdict
  check_limits name u =
      limit_check (limit_of u.daily_quota q.default_daily) (used_total (get_daily_usage k name db))
        daily_exceeded
      >> limit_check (limit_of u.weekly_quota q.default_weekly)
          (used_total (get_weekly_usage k name db)) weekly_exceeded
      >> limit_check q.default_monthly (used_total (get_monthly_usage k name db)) monthly_exceeded

  abbrev check_found : Bytes → Option (Option User) → Verdict
  check_found name none = reject user_not_found
  check_found name (some none) = reject user_not_found
  check_found name (some (some u)) =
      if not u.enabled then reject user_disabled else check_limits name u

  unfoldable pub check_user : Bytes → Verdict
  check_user name = check_found name (get_user name db)

  unfoldable pub check_ip_combined : Bytes → Verdict
  check_ip_combined ip =
      limit_check q.ip_daily (used_total (get_ip_daily_usage k ip db)) ip_daily_exceeded
      >> limit_check q.ip_weekly (used_total (get_ip_weekly_usage k ip db)) ip_weekly_exceeded
      >> limit_check q.ip_monthly (used_total (get_ip_monthly_usage k ip db)) ip_monthly_exceeded

  unfoldable pub check_ip_inbound : Bytes → Verdict
  check_ip_inbound ip =
      limit_check q.ip_daily_inbound (used_or_0 (get_ip_daily_inbound k ip db))
        ip_inbound_daily_exceeded
      >> limit_check q.ip_weekly_inbound (used_or_0 (get_ip_weekly_inbound k ip db))
          ip_inbound_weekly_exceeded
      >> limit_check q.ip_monthly_inbound (used_or_0 (get_ip_monthly_inbound k ip db))
          ip_inbound_monthly_exceeded

  unfoldable pub check_ip_outbound : Bytes → Verdict
  check_ip_outbound ip =
      limit_check q.ip_daily_outbound (used_or_0 (get_ip_daily_outbound k ip db))
        ip_outbound_daily_exceeded
      >> limit_check q.ip_weekly_outbound (used_or_0 (get_ip_weekly_outbound k ip db))
          ip_outbound_weekly_exceeded
      >> limit_check q.ip_monthly_outbound (used_or_0 (get_ip_monthly_outbound k ip db))
          ip_outbound_monthly_exceeded

  abbrev check_connections : Bytes → Verdict
  check_connections ip =
      let current = count_of ip q.active_connections in
      if ltb 0 q.max_conn_per_ip
      then (if leb q.max_conn_per_ip current
          then reject (too_many_connections current q.max_conn_per_ip)
          else accept)
      else accept

  abbrev pub checks_inbound : Direction → Bool
  checks_inbound outbound = false
  checks_inbound _ = true

  abbrev pub checks_outbound : Direction → Bool
  checks_outbound inbound = false
  checks_outbound _ = true

  abbrev directional : Bytes → Direction → Verdict
  directional ip d =
      (if checks_inbound d then check_ip_inbound ip else accept)
      >> (if checks_outbound d then check_ip_outbound ip else accept)

  unfoldable pub check_ip : Bytes → Direction → Verdict
  check_ip ip d = check_connections ip >> (check_ip_combined ip >> directional ip d)

-- `cap`, the closure of `remaining_budget`
unfoldable pub cap_budget : ℕ → ℕ → ℕ → ℕ
cap_budget limit used budget = if ltb 0 limit then min budget (limit - used) else budget

module _ (q : QuotaManager) (k : Clock) (db : UserDb) where
  -- The three blocks of `remaining_budget`, each over the budget of the one before.
  abbrev cap_user : Bytes → Option (Option User) → ℕ → ℕ
  cap_user name none b = b
  cap_user name (some none) b = b
  cap_user name (some (some u)) b =
      cap_budget q.default_monthly (used_total (get_monthly_usage k name db)) (
        cap_budget (limit_of u.weekly_quota q.default_weekly)
          (used_total (get_weekly_usage k name db))
          (cap_budget (limit_of u.daily_quota q.default_daily)
            (used_total (get_daily_usage k name db)) b))

  unfoldable pub cap_ip_combined : Bytes → ℕ → ℕ
  cap_ip_combined ip b = cap_budget q.ip_monthly (used_total (get_ip_monthly_usage k ip db)) (
      cap_budget q.ip_weekly (used_total (get_ip_weekly_usage k ip db))
        (cap_budget q.ip_daily (used_total (get_ip_daily_usage k ip db)) b))

  unfoldable pub cap_ip_directional : Bytes → ℕ → ℕ
  cap_ip_directional ip b =
      cap_budget q.ip_monthly_outbound (used_or_0 (get_ip_monthly_outbound k ip db)) (
        cap_budget q.ip_monthly_inbound (used_or_0 (get_ip_monthly_inbound k ip db)) (
          cap_budget q.ip_weekly_outbound (used_or_0 (get_ip_weekly_outbound k ip db)) (
            cap_budget q.ip_weekly_inbound (used_or_0 (get_ip_weekly_inbound k ip db)) (
              cap_budget q.ip_daily_outbound (used_or_0 (get_ip_daily_outbound k ip db))
                (cap_budget q.ip_daily_inbound (used_or_0 (get_ip_daily_inbound k ip db)) b)))))

  unfoldable pub remaining_budget : Bytes → Bytes → ℕ
  remaining_budget name ip =
      cap_ip_directional ip (cap_ip_combined ip (cap_user name (get_user name db) u64_max))

unfoldable pub connect : Bytes → QuotaManager → QuotaManager
connect ip q = record q { active_connections = add_one ip q.active_connections }

unfoldable pub disconnect : Bytes → QuotaManager → QuotaManager
disconnect ip q = record q { active_connections = take_one ip q.active_connections }

unfoldable pub active_connections_count : Bytes → QuotaManager → ℕ
active_connections_count ip q = count_of ip q.active_connections

-- A write that fails is logged, and leaves the database as it was.
abbrev or_unchanged : UserDb → Option UserDb → UserDb
or_unchanged db none = db
or_unchanged db (some db') = db'

-- The arguments are the bytes received from the client and those sent to it.
unfoldable pub record_usage : Clock → Bytes → Bytes → ℕ → ℕ → UserDb → UserDb
record_usage k name ip inbound_bytes outbound_bytes db =
    let db1 = or_unchanged db (record_user_usage k name outbound_bytes inbound_bytes db) in
    or_unchanged db1 (record_ip_usage k ip outbound_bytes inbound_bytes db1)
