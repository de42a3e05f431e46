-- ===== src/UserDb.antt =====
-- The user database of src/server_pro/user_db.rs: its tables, and the statements on them. A
-- statement may fail, for a reason outside the program; `fails` says which do, and a query that
-- fails returns `none`. Sums and counters stay below 2 ^ 63, where the casts to and from i64 change
-- nothing. The clock gives the dates that a statement compares with.
pub mod Table
pub mod Users
pub mod Usage
pub mod Ordered
pub mod Sessions
mod Tests
mod SessionTests
use btest_rs.Base.{ℕ, Bool, Bytes, List, Option}
use Table.{DayRow}

-- An i64: `negsuc n` is -(n + 1).
pub data ℤ : Type 0 where
  pos : ℕ → ℤ
  negsuc : ℕ → ℤ

-- A row of the table `users`.
pub record User : Type 0 where
  pub id : ℕ
  pub username : Bytes
  pub password_hash : Bytes
  pub password_raw : Bytes
  pub daily_quota : ℤ  -- 0 is the default
  pub weekly_quota : ℤ
  pub enabled : Bool

-- A row of the table `sessions`.
pub record Session : Type 0 where
  pub id : ℕ
  pub username : Bytes
  pub peer_ip : Bytes
  pub protocol : Bytes
  pub direction : Bytes
  pub started_at : Bytes
  pub ended_at : Option Bytes
  pub tx_bytes : ℕ
  pub rx_bytes : ℕ

-- The statements that can fail.
pub data Query : Type 0 where
  select_user select_password insert_user remove_user update_enabled update_quota : Query
  upsert_usage upsert_ip_usage upsert_ip_inbound upsert_ip_outbound : Query
  sum_daily sum_weekly sum_monthly : Query
  sum_ip_daily sum_ip_weekly sum_ip_monthly : Query
  sum_daily_inbound sum_weekly_inbound sum_monthly_inbound : Query
  sum_daily_outbound sum_weekly_outbound sum_monthly_outbound : Query
  insert_session update_session select_ip_sessions sum_ip_totals select_users : Query
  web_sessions web_stats web_daily web_weekly web_monthly web_export web_intervals : Query

pub record UserDb : Type 0 where
  pub users : List User
  pub next_user_id : ℕ
  pub usage : List DayRow
  pub ip_usage : List DayRow
  pub sessions : List Session
  pub next_session_id : ℕ
  pub fails : Query → Bool

-- Today, and `date('now', '-7 days')` and `date('now', '-30 days')`, as `YYYY-MM-DD`.
pub record Clock : Type 0 where
  pub today : Bytes
  pub week_ago : Bytes
  pub month_ago : Bytes
