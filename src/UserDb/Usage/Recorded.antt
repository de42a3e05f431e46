-- ===== src/UserDb/Usage/Recorded.antt =====
-- A recorded usage is what the later queries see.
use btest_rs.Base.{
  ℕ, ◌+◌, ◌≡◌, Bool, true, Option, none, some, arith, Bytes, bytes_eq, bytes_le, bytes_le_trans,
  if◌then◌else◌,
}
use btest_rs.UserDb.{UserDb, Clock}
use btest_rs.UserDb.Usage.{
  record_usage, get_daily_usage, get_weekly_usage, get_monthly_usage, record_ip_usage,
  get_ip_daily_usage, get_ip_weekly_usage, get_ip_monthly_usage, get_ip_daily_inbound,
  get_ip_weekly_inbound, get_ip_monthly_inbound, get_ip_daily_outbound, get_ip_weekly_outbound,
  get_ip_monthly_outbound,
}
use btest_rs.UserDb.Usage.Sums.{both-upsert_day, both-upsert_since}

-- The dates are in order.
pub record IsClock (k : Clock) : Type 0 where
  pub week : bytes_le k.week_ago k.today ≡ true
  pub month : bytes_le k.month_ago k.week_ago ≡ true

pub month_le : {k : Clock} → IsClock k → bytes_le k.month_ago k.today ≡ true
month_le {k} v = bytes_le_trans k.month_ago k.week_ago k.today v.month v.week

-- The answer of a query, grown by two amounts if it is about the owner.
abbrev pub grow : Bool → ℕ → ℕ → Option (ℕ × ℕ) → Option (ℕ × ℕ)
grow hit a b none = none
grow hit a b (some (x, y)) = some (if hit then (x + a, y + b) else (x, y))

abbrev pub grow_one : Bool → ℕ → Option ℕ → Option ℕ
grow_one hit a none = none
grow_one hit a (some x) = some (if hit then x + a else x)

module _ {k : Clock} (v : IsClock k) (o w : Bytes) (tx rx : ℕ) (db db' : UserDb) where
  -- After a recorded usage the user's sums of today, the week and the month have grown by exactly
  -- the two amounts; the sums of another user, the users and the addresses are as they were.
  pub usage_recorded :
      record_usage k o tx rx db ≡ some db'
      → (get_daily_usage k w db' ≡ grow (bytes_eq o w) tx rx (get_daily_usage k w db))
        × (get_weekly_usage k w db' ≡ grow (bytes_eq o w) tx rx (get_weekly_usage k w db))
        × (get_monthly_usage k w db' ≡ grow (bytes_eq o w) tx rx (get_monthly_usage k w db))
        × (db'.users ≡ db.users)
        × (db'.ip_usage ≡ db.ip_usage)
  unfolding record_usage get_daily_usage get_weekly_usage get_monthly_usage
  usage_recorded h = ground (
    arith,
    month_le v,
    both-upsert_day o w k.today tx rx 1 db.usage,
    both-upsert_since o w k.today tx rx 1 db.usage k.week_ago,
    both-upsert_since o w k.today tx rx 1 db.usage k.month_ago,
  )

  -- The same for an address: what the server received is inbound, what it sent is outbound, in the
  -- combined and in the directional queries.
  pub ip_usage_recorded :
      record_ip_usage k o tx rx db ≡ some db'
      → (get_ip_daily_usage k w db' ≡ grow (bytes_eq o w) rx tx (get_ip_daily_usage k w db))
        × (get_ip_weekly_usage k w db' ≡ grow (bytes_eq o w) rx tx (get_ip_weekly_usage k w db))
        × (get_ip_monthly_usage k w db' ≡ grow (bytes_eq o w) rx tx (get_ip_monthly_usage k w db))
  unfolding record_ip_usage get_ip_daily_usage get_ip_weekly_usage get_ip_monthly_usage
  ip_usage_recorded h = ground (
    arith,
    month_le v,
    both-upsert_day o w k.today rx tx 1 db.ip_usage,
    both-upsert_since o w k.today rx tx 1 db.ip_usage k.week_ago,
    both-upsert_since o w k.today rx tx 1 db.ip_usage k.month_ago,
  )

  pub directional_recorded :
      record_ip_usage k o tx rx db ≡ some db'
      → (get_ip_daily_inbound k w db' ≡ grow_one (bytes_eq o w) rx (get_ip_daily_inbound k w db))
        × (get_ip_weekly_inbound k w db'
            ≡ grow_one (bytes_eq o w) rx (get_ip_weekly_inbound k w db))
        × (get_ip_monthly_inbound k w db'
            ≡ grow_one (bytes_eq o w) rx (get_ip_monthly_inbound k w db))
        × (get_ip_daily_outbound k w db'
            ≡ grow_one (bytes_eq o w) tx (get_ip_daily_outbound k w db))
        × (get_ip_weekly_outbound k w db'
            ≡ grow_one (bytes_eq o w) tx (get_ip_weekly_outbound k w db))
        × (get_ip_monthly_outbound k w db'
            ≡ grow_one (bytes_eq o w) tx (get_ip_monthly_outbound k w db))
  unfolding record_ip_usage get_ip_daily_inbound get_ip_weekly_inbound get_ip_monthly_inbound
      get_ip_daily_outbound get_ip_weekly_outbound get_ip_monthly_outbound
  directional_recorded h = ground (
    arith,
    month_le v,
    both-upsert_day o w k.today rx tx 1 db.ip_usage,
    both-upsert_since o w k.today rx tx 1 db.ip_usage k.week_ago,
    both-upsert_since o w k.today rx tx 1 db.ip_usage k.month_ago,
  )
