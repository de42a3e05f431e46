-- ===== src/Quota/Samples.antt =====
-- The set-up of the tests in src/server_pro/enforcer.rs.
use btest_rs.Base.{ℕ, [], ◌∷◌, Bytes, true, false}
use btest_rs.UserDb.{pos, User, UserDb, Clock}
use btest_rs.Quota.{QuotaManager}

abbrev pub day : ℕ → Bytes
day n = 50 ∷ 48 ∷ 50 ∷ 54 ∷ 45 ∷ 48 ∷ n ∷ []

abbrev pub clock : Clock
clock = record { today = day 55; week_ago = day 54; month_ago = day 53 }

abbrev pub name : Bytes
name = 117 ∷ []

abbrev pub address : Bytes
address = 49 ∷ 48 ∷ []

abbrev pub testuser : User
testuser = record {
  id = 1;
  username = name;
  password_hash = [];
  password_raw = [];
  daily_quota = pos 0;
  weekly_quota = pos 0;
  enabled = true;
}

abbrev pub db : UserDb
db = record {
  users = testuser ∷ [];
  next_user_id = 2;
  usage = [];
  ip_usage = [];
  sessions = [];
  next_session_id = 1;
  fails = λ _. false;
}

abbrev pub manager : QuotaManager
manager = record {
  default_daily = 1000;
  default_weekly = 5000;
  default_monthly = 10000;
  ip_daily = 500;
  ip_weekly = 2000;
  ip_monthly = 8000;
  ip_daily_inbound = 500;
  ip_daily_outbound = 500;
  ip_weekly_inbound = 2000;
  ip_weekly_outbound = 2000;
  ip_monthly_inbound = 8000;
  ip_monthly_outbound = 8000;
  max_conn_per_ip = 2;
  max_duration = 60;
  active_connections = [];
}
