-- ===== src/UserDb/Usage.antt =====
-- The usage statements of `UserDb`: recording, and the sums of a day, a week and a month.
pub mod Sums
pub mod Recorded
use btest_rs.Base.{ℕ, ◌+◌, Bool, Bytes, List, Option, none, some, if◌then◌else◌}
use btest_rs.UserDb.{
  UserDb, Clock, Query, upsert_usage, upsert_ip_usage, upsert_ip_inbound, upsert_ip_outbound,
  sum_daily, sum_weekly, sum_monthly, sum_ip_daily, sum_ip_weekly, sum_ip_monthly,
  sum_daily_inbound, sum_weekly_inbound, sum_monthly_inbound, sum_daily_outbound,
  sum_weekly_outbound, sum_monthly_outbound,
}
use btest_rs.UserDb.Table.{DayRow, upsert, sum_where, on_day, since}

-- A statement's result, unless the statement fails.
abbrev pub query {ℓ} : {A : Type ℓ} → UserDb → Query → A → Option A
query db q a = if db.fails q then none else some a

abbrev pub both : (DayRow → Bool) → List DayRow → ℕ × ℕ
both test rows = (sum_where test (λ r. r.first) rows, sum_where test (λ r. r.second) rows)

unfoldable pub record_usage : Clock → Bytes → ℕ → ℕ → UserDb → Option UserDb
record_usage k username tx rx db =
    query db upsert_usage (record db { usage = upsert username k.today tx rx 1 db.usage })

unfoldable pub get_daily_usage : Clock → Bytes → UserDb → Option (ℕ × ℕ)
get_daily_usage k username db = query db sum_daily (both (on_day username k.today) db.usage)

unfoldable pub get_weekly_usage : Clock → Bytes → UserDb → Option (ℕ × ℕ)
get_weekly_usage k username db = query db sum_weekly (both (since username k.week_ago) db.usage)

unfoldable pub get_monthly_usage : Clock → Bytes → UserDb → Option (ℕ × ℕ)
get_monthly_usage k username db = query db sum_monthly (both (since username k.month_ago) db.usage)

-- The arguments are the server's sent and received bytes; the columns hold inbound and outbound.
unfoldable pub record_ip_usage : Clock → Bytes → ℕ → ℕ → UserDb → Option UserDb
record_ip_usage k ip tx rx db =
    let inbound = rx in
    let outbound = tx in
    query db upsert_ip_usage
      (record db { ip_usage = upsert ip k.today inbound outbound 1 db.ip_usage })

unfoldable pub get_ip_daily_usage : Clock → Bytes → UserDb → Option (ℕ × ℕ)
get_ip_daily_usage k ip db = query db sum_ip_daily (both (on_day ip k.today) db.ip_usage)

unfoldable pub get_ip_weekly_usage : Clock → Bytes → UserDb → Option (ℕ × ℕ)
get_ip_weekly_usage k ip db = query db sum_ip_weekly (both (since ip k.week_ago) db.ip_usage)

unfoldable pub get_ip_monthly_usage : Clock → Bytes → UserDb → Option (ℕ × ℕ)
get_ip_monthly_usage k ip db = query db sum_ip_monthly (both (since ip k.month_ago) db.ip_usage)

unfoldable pub record_ip_inbound_usage : Clock → Bytes → ℕ → UserDb → Option UserDb
record_ip_inbound_usage k ip bytes db =
    query db upsert_ip_inbound (record db { ip_usage = upsert ip k.today bytes 0 0 db.ip_usage })

unfoldable pub record_ip_outbound_usage : Clock → Bytes → ℕ → UserDb → Option UserDb
record_ip_outbound_usage k ip bytes db =
    query db upsert_ip_outbound (record db { ip_usage = upsert ip k.today 0 bytes 0 db.ip_usage })

unfoldable pub get_ip_daily_inbound : Clock → Bytes → UserDb → Option ℕ
get_ip_daily_inbound k ip db =
    query db sum_daily_inbound (sum_where (on_day ip k.today) (λ r. r.first) db.ip_usage)

unfoldable pub get_ip_weekly_inbound : Clock → Bytes → UserDb → Option ℕ
get_ip_weekly_inbound k ip db =
    query db sum_weekly_inbound (sum_where (since ip k.week_ago) (λ r. r.first) db.ip_usage)

unfoldable pub get_ip_monthly_inbound : Clock → Bytes → UserDb → Option ℕ
get_ip_monthly_inbound k ip db =
    query db sum_monthly_inbound (sum_where (since ip k.month_ago) (λ r. r.first) db.ip_usage)

unfoldable pub get_ip_daily_outbound : Clock → Bytes → UserDb → Option ℕ
get_ip_daily_outbound k ip db =
    query db sum_daily_outbound (sum_where (on_day ip k.today) (λ r. r.second) db.ip_usage)

unfoldable pub get_ip_weekly_outbound : Clock → Bytes → UserDb → Option ℕ
get_ip_weekly_outbound k ip db =
    query db sum_weekly_outbound (sum_where (since ip k.week_ago) (λ r. r.second) db.ip_usage)

unfoldable pub get_ip_monthly_outbound : Clock → Bytes → UserDb → Option ℕ
get_ip_monthly_outbound k ip db =
    query db sum_monthly_outbound (sum_where (since ip k.month_ago) (λ r. r.second) db.ip_usage)
