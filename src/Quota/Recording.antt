-- ===== src/Quota/Recording.antt =====
-- A test that keeps to its budget keeps the limits once its usage is recorded.
use btest_rs.Base.{
  ℕ, ◌+◌, ◌-◌, ◌^◌, ◌≤◌, ◌<◌, ◌≡◌, true, false, Option, none, some, Bytes, arith, u64_mod, u64_max,
  bytes_eq_refl,
}
use btest_rs.UserDb.{User, UserDb, Clock, upsert_usage, upsert_ip_usage}
use btest_rs.UserDb.Users.{get_user}
use btest_rs.UserDb.Usage.{
  get_daily_usage, get_weekly_usage, get_monthly_usage, get_ip_daily_usage, get_ip_weekly_usage,
  get_ip_monthly_usage, record_usage as record_user_usage, record_ip_usage,
}
use btest_rs.UserDb.Usage.Sums.{both-upsert_day, both-upsert_since}
use btest_rs.UserDb.Usage.Recorded.{IsClock, month_le, grow}
use btest_rs.Quota.{
  QuotaManager, cap_budget, limit_of, used_total, cap_ip_combined, cap_ip_directional,
  remaining_budget, record_usage,
}
use btest_rs.Quota.Limits.{IsCapped, three_caps-IsCapped, cap-le}

-- A database sum is an i64 that is not negative.
abbrev pub IsSum : Option (ℕ × ℕ) → Type 0
IsSum none = Unit {0}
IsSum (some (x, y)) = (x < 2 ^ 63) × (y < 2 ^ 63)

-- One limit, over a query that grows by two amounts.
stays_within :
    (limit a b budget : ℕ) (r : Option (ℕ × ℕ))
    → IsSum r
    → limit < u64_mod
    → 0 < budget
    → a + b ≤ budget
    → budget ≤ limit - used_total r
    → used_total (grow true a b r) ≤ limit
stays_within limit a b budget none s l p h w = omega arith
stays_within limit a b budget (some (x, y)) s l p h w = ground arith

-- The writes that a record of usage makes do not fail.
pub record Writes (db : UserDb) : Type 0 where
  pub usage : db.fails upsert_usage ≡ false
  pub ip_usage : db.fails upsert_ip_usage ≡ false

module _ {k : Clock} (v : IsClock k) (name ip : Bytes) (i o : ℕ) (db : UserDb)
    (ok : Writes db) where
  -- The user's and the address's sums, before and after `record_usage` of `i` bytes received and
  -- `o` bytes sent.
  pub sums_after :
      let db' = record_usage k name ip i o db in
      (get_daily_usage k name db' ≡ grow true o i (get_daily_usage k name db))
      × (get_weekly_usage k name db' ≡ grow true o i (get_weekly_usage k name db))
      × (get_monthly_usage k name db' ≡ grow true o i (get_monthly_usage k name db))
      × (get_ip_daily_usage k ip db' ≡ grow true i o (get_ip_daily_usage k ip db))
      × (get_ip_weekly_usage k ip db' ≡ grow true i o (get_ip_weekly_usage k ip db))
      × (get_ip_monthly_usage k ip db' ≡ grow true i o (get_ip_monthly_usage k ip db))
  unfolding record_usage record_user_usage record_ip_usage get_daily_usage get_weekly_usage
      get_monthly_usage get_ip_daily_usage get_ip_weekly_usage get_ip_monthly_usage
  sums_after = ground (
    arith,
    month_le v,
    bytes_eq_refl name,
    bytes_eq_refl ip,
    both-upsert_day name name k.today o i 1 db.usage,
    both-upsert_since name name k.today o i 1 db.usage k.week_ago,
    both-upsert_since name name k.today o i 1 db.usage k.month_ago,
    both-upsert_day ip ip k.today i o 1 db.ip_usage,
    both-upsert_since ip ip k.today i o 1 db.ip_usage k.week_ago,
    both-upsert_since ip ip k.today i o 1 db.ip_usage k.month_ago,
  )

module _ (q : QuotaManager) (k : Clock) (db : UserDb) (name ip : Bytes) (u : User) where
  cap_ip_directional-le : (b : ℕ) → cap_ip_directional q k db ip b ≤ b
  unfolding cap_ip_directional
  cap_ip_directional-le b = grind (arith, cap-le)

  -- The budget is within what each limit of the user and each combined limit of the address leaves.
  pub record BudgetBounds : Type 0 where
    pub daily :
        0 < limit_of u.daily_quota q.default_daily
        → remaining_budget q k db name ip
          ≤ limit_of u.daily_quota q.default_daily - used_total (get_daily_usage k name db)
    pub weekly :
        0 < limit_of u.weekly_quota q.default_weekly
        → remaining_budget q k db name ip
          ≤ limit_of u.weekly_quota q.default_weekly - used_total (get_weekly_usage k name db)
    pub monthly :
        0 < q.default_monthly
        → remaining_budget q k db name ip
          ≤ q.default_monthly - used_total (get_monthly_usage k name db)
    pub ip_daily :
        0 < q.ip_daily
        → remaining_budget q k db name ip ≤ q.ip_daily - used_total (get_ip_daily_usage k ip db)
    pub ip_weekly :
        0 < q.ip_weekly
        → remaining_budget q k db name ip ≤ q.ip_weekly - used_total (get_ip_weekly_usage k ip db)
    pub ip_monthly :
        0 < q.ip_monthly
        → remaining_budget q k db name ip ≤ q.ip_monthly - used_total (get_ip_monthly_usage k ip db)

  abbrev daily_limit : ℕ
  daily_limit = limit_of u.daily_quota q.default_daily

  abbrev weekly_limit : ℕ
  weekly_limit = limit_of u.weekly_quota q.default_weekly

  abbrev used_day : ℕ
  used_day = used_total (get_daily_usage k name db)

  abbrev used_week : ℕ
  used_week = used_total (get_weekly_usage k name db)

  abbrev used_month : ℕ
  used_month = used_total (get_monthly_usage k name db)

  abbrev user_budget : ℕ
  user_budget =
      cap_budget q.default_monthly used_month
        (cap_budget weekly_limit used_week (cap_budget daily_limit used_day u64_max))

  user_capped :
      get_user name db ≡ some (some u)
      → remaining_budget q k db name ip
        ≡ cap_ip_directional q k db ip (cap_ip_combined q k db ip user_budget)
  unfolding remaining_budget
  user_capped found = rw found

  budget_bounds : get_user name db ≡ some (some u) → BudgetBounds
  unfolding cap_ip_combined
  budget_bounds found = record {
    daily = λ h. omega (arith, user_capped found, below, by_ip.below, by_user.first h);
    weekly = λ h. omega (arith, user_capped found, below, by_ip.below, by_user.second h);
    monthly = λ h. omega (arith, user_capped found, below, by_ip.below, by_user.third h);
    ip_daily = λ h. omega (arith, user_capped found, below, by_ip.first h);
    ip_weekly = λ h. omega (arith, user_capped found, below, by_ip.second h);
    ip_monthly = λ h. omega (arith, user_capped found, below, by_ip.third h);
  }
    where
      by_user :
          IsCapped daily_limit weekly_limit q.default_monthly used_day used_week used_month u64_max
            user_budget
      by_user = three_caps-IsCapped _ _ _ _ _ _ _

      by_ip :
          IsCapped q.ip_daily q.ip_weekly q.ip_monthly
            (used_total (get_ip_daily_usage k ip db))
            (used_total (get_ip_weekly_usage k ip db))
            (used_total (get_ip_monthly_usage k ip db))
            user_budget
            (cap_ip_combined q k db ip user_budget)
      by_ip = three_caps-IsCapped _ _ _ _ _ _ _

      below :
          cap_ip_directional q k db ip (cap_ip_combined q k db ip user_budget)
          ≤ cap_ip_combined q k db ip user_budget
      below = cap_ip_directional-le (cap_ip_combined q k db ip user_budget)

-- The limits are u64, and the sums of the database are i64 that are not negative.
pub record Ranges (q : QuotaManager) (k : Clock) (db : UserDb) (name ip : Bytes) (u : User)
    : Type 0 where
  pub daily : limit_of u.daily_quota q.default_daily < u64_mod
  pub weekly : limit_of u.weekly_quota q.default_weekly < u64_mod
  pub monthly : q.default_monthly < u64_mod
  pub ip_daily : q.ip_daily < u64_mod
  pub ip_weekly : q.ip_weekly < u64_mod
  pub ip_monthly : q.ip_monthly < u64_mod
  pub sums :
      IsSum (get_daily_usage k name db)
      × IsSum (get_weekly_usage k name db)
      × IsSum (get_monthly_usage k name db)
      × IsSum (get_ip_daily_usage k ip db)
      × IsSum (get_ip_weekly_usage k ip db)
      × IsSum (get_ip_monthly_usage k ip db)

-- What the limits promise of the database that is left.
pub record KeepsLimits (q : QuotaManager) (k : Clock) (db : UserDb) (name ip : Bytes) (u : User)
    : Type 0 where
  pub daily :
      0 < limit_of u.daily_quota q.default_daily
      → used_total (get_daily_usage k name db) ≤ limit_of u.daily_quota q.default_daily
  pub weekly :
      0 < limit_of u.weekly_quota q.default_weekly
      → used_total (get_weekly_usage k name db) ≤ limit_of u.weekly_quota q.default_weekly
  pub monthly : 0 < q.default_monthly → used_total (get_monthly_usage k name db) ≤ q.default_monthly
  pub ip_daily : 0 < q.ip_daily → used_total (get_ip_daily_usage k ip db) ≤ q.ip_daily
  pub ip_weekly : 0 < q.ip_weekly → used_total (get_ip_weekly_usage k ip db) ≤ q.ip_weekly
  pub ip_monthly : 0 < q.ip_monthly → used_total (get_ip_monthly_usage k ip db) ≤ q.ip_monthly

-- A test that was given a budget and moved at most that many bytes, in both directions together,
-- leaves every user limit and every combined limit of the address kept once it is recorded.
pub budget_respected :
    (q : QuotaManager) (k : Clock) (db : UserDb) (name ip : Bytes) (u : User) (i o : ℕ)
    → IsClock k
    → Writes db
    → Ranges q k db name ip u
    → get_user name db ≡ some (some u)
    → 0 < remaining_budget q k db name ip
    → i + o ≤ remaining_budget q k db name ip
    → KeepsLimits q k (record_usage k name ip i o db) name ip u
budget_respected q k db name ip u i o v ok r found pos fits =
    let grown = sums_after v name ip i o db ok in
    record {
      daily = λ h.
          rw grown.0
            (stays_within _ o i budget _ r.sums.0 r.daily pos (omega arith) (bounds.daily h));
      weekly = λ h.
          rw grown.1
            (stays_within _ o i budget _ r.sums.1 r.weekly pos (omega arith) (bounds.weekly h));
      monthly = λ h.
          rw grown.2
            (stays_within _ o i budget _ r.sums.2 r.monthly pos (omega arith) (bounds.monthly h));
      ip_daily = λ h.
          rw grown.3
            (stays_within _ i o budget _ r.sums.3 r.ip_daily pos (omega arith) (bounds.ip_daily h));
      ip_weekly = λ h.
          rw grown.4 (
            stays_within _ i o budget _ r.sums.4 r.ip_weekly pos (omega arith)
              (bounds.ip_weekly h));
      ip_monthly = λ h. rw grown.5 (
          stays_within _ i o budget _ r.sums.5 r.ip_monthly pos (omega arith)
            (bounds.ip_monthly h));
    }
  where
    budget : ℕ
    budget = remaining_budget q k db name ip

    bounds : BudgetBounds q k db name ip u
    bounds = budget_bounds q k db name ip u found
