-- ===== src/Quota/Tests.antt =====
-- Runs and instances over the set-up of the tests in src/server_pro/enforcer.rs.
use btest_rs.Base.{◌<◌, ◌≡◌, refl, ◌↔◌, some, arith, bytes_eq, bytes_le}
use btest_rs.UserDb.Table.{upsert, sum_where}
use btest_rs.UserDb.Users.{get_user}
use btest_rs.UserDb.Usage.{
  record_usage as record_user_usage, record_ip_usage, get_daily_usage, get_weekly_usage,
  get_monthly_usage, get_ip_daily_usage, get_ip_weekly_usage, get_ip_monthly_usage,
  get_ip_daily_inbound, get_ip_weekly_inbound, get_ip_monthly_inbound, get_ip_daily_outbound,
  get_ip_weekly_outbound, get_ip_monthly_outbound,
}
use btest_rs.UserDb.Usage.Recorded.{IsClock}
use btest_rs.Quota.{
  accept, reject, daily_exceeded, check_user, check_ip_combined, check_ip_inbound,
  check_ip_outbound, cap_budget, limit_check, cap_ip_combined, cap_ip_directional, remaining_budget,
  record_usage,
}
use btest_rs.Quota.Samples.{clock, name, address, testuser, db, manager}
use btest_rs.Quota.Admission.{admitted_iff_budget}
use btest_rs.Quota.Recording.{Ranges}

-- `test_remaining_budget_calculation`: 500 at first, 100 after 200 bytes each way.
first_budget : remaining_budget manager clock db name address ≡ 500
unfolding remaining_budget cap_ip_combined cap_ip_directional cap_budget get_user get_daily_usage
    get_weekly_usage get_monthly_usage get_ip_daily_usage get_ip_weekly_usage get_ip_monthly_usage
    get_ip_daily_inbound get_ip_weekly_inbound get_ip_monthly_inbound get_ip_daily_outbound
    get_ip_weekly_outbound get_ip_monthly_outbound sum_where bytes_eq
first_budget = refl

second_budget :
    remaining_budget manager clock (record_usage clock name address 200 200 db) name address ≡ 100
unfolding remaining_budget cap_ip_combined cap_ip_directional cap_budget get_user get_daily_usage
    get_weekly_usage get_monthly_usage get_ip_daily_usage get_ip_weekly_usage get_ip_monthly_usage
    get_ip_daily_inbound get_ip_weekly_inbound get_ip_monthly_inbound get_ip_daily_outbound
    get_ip_weekly_outbound get_ip_monthly_outbound sum_where bytes_eq bytes_le upsert record_usage
    record_user_usage record_ip_usage
second_budget = refl

-- `test_enforcer_user_daily_quota_exceeded`: 1100 bytes against a limit of 1000.
daily_refused :
    check_user manager clock (record_usage clock name address 500 600 db) name
    ≡ reject (daily_exceeded 1100 1000)
unfolding check_user limit_check get_user get_daily_usage sum_where bytes_eq upsert record_usage
    record_user_usage record_ip_usage
daily_refused = refl

found : get_user name db ≡ some (some testuser)
unfolding get_user bytes_eq
found = refl

clock-IsClock : IsClock clock
unfolding bytes_le
clock-IsClock = record { week = refl; month = refl }

admitted_iff_budget_example : (0 < remaining_budget manager clock db name address) ↔ (
    (check_user manager clock db name ≡ accept)
    × (check_ip_combined manager clock db address ≡ accept)
    × (check_ip_inbound manager clock db address ≡ accept)
    × (check_ip_outbound manager clock db address ≡ accept))
admitted_iff_budget_example = admitted_iff_budget manager clock db address name testuser found refl

ranges : Ranges manager clock db name address testuser
unfolding get_daily_usage get_weekly_usage get_monthly_usage get_ip_daily_usage get_ip_weekly_usage
    get_ip_monthly_usage sum_where bytes_eq
ranges = omega arith
