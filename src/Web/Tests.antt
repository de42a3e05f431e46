-- ===== src/Web/Tests.antt =====
-- Pages of the dashboard, with whole numbers for the floating-point ones.
use btest_rs.Base.{ℕ, ◌≡◌, refl, ◌+◌, ◌*◌, ◌/◌, ltb, none, [], ◌∷◌, codes, show, bytes_eq, bytes_le}
use btest_rs.UserDb.{UserDb}
use btest_rs.UserDb.Table.{sum_where}
use btest_rs.UserDb.Usage.{get_ip_daily_usage, get_ip_weekly_usage, get_ip_monthly_usage}
use btest_rs.UserDb.Sessions.Laws.{ended_row}
use btest_rs.Quota.Samples.{clock, name, address, db}
use btest_rs.Web.{Floats, StatsJson, api_quota, human_bytes}
use btest_rs.Web.Agreement.{quota_page_agrees}

abbrev whole : Floats
whole = record {
  Float = ℕ;
  zero_float = 0;
  add_float = λ a b. a + b;
  is_positive = λ a. ltb 0 a;
  seconds = λ a b. 10;
  mbps = λ bytes secs. bytes * 8 / secs;
  fixed = λ digits b unit. show (b / unit);
}

abbrev used : UserDb
used = record db {
  ip_usage =
      record { owner = address; date = clock.today; first = 10; second = 6; test_count = 2 } ∷ [];
}

quota_page_agrees_example :
    let page = api_quota clock address used in
    (page.daily_used ≡ 16) × (page.weekly_used ≡ 16) × (page.monthly_used ≡ 16)
unfolding get_ip_daily_usage get_ip_weekly_usage get_ip_monthly_usage sum_where bytes_eq bytes_le
quota_page_agrees_example =
    quota_page_agrees clock address used 10 6 10 6 10 6
      (record { daily = refl; weekly = refl; monthly = refl }) refl refl refl

-- The limits that the page shows are the same for every server.
shown_limit : (api_quota clock address used).daily_limit ≡ 2147483648
unfolding api_quota
shown_limit = refl

half_full : human_bytes whole 2048 ≡ codes "2 KB"
unfolding human_bytes show
half_full = refl

abbrev opened : UserDb
opened = record db {
  sessions =
      record (ended_row 1 (codes "1") name address (codes "TCP") (codes "RX") (codes "2") 0 0) {
        ended_at = none;
      }
      ∷ [];
  next_session_id = 2;
}

abbrev closed : UserDb
closed = record db {
  sessions = ended_row 1 (codes "1") name address (codes "TCP") (codes "RX") (codes "2") 5 7 ∷ [];
  next_session_id = 2;
}

abbrev no_tests : StatsJson whole
no_tests = record {
  total_sessions = 0;
  total_tx_bytes = 0;
  total_rx_bytes = 0;
  avg_tx_mbps = 0;
  avg_rx_mbps = 0;
}

abbrev one_test : StatsJson whole
one_test = record {
  total_sessions = 1;
  total_tx_bytes = 5;
  total_rx_bytes = 7;
  avg_tx_mbps = 4;
  avg_rx_mbps = 5;
}
