-- ===== src/Quota/Admission.antt =====
-- The checks before a test and the byte budget of the test agree.
use btest_rs.Base.{ℕ, ◌<◌, ◌≡◌, ◌↔◌, true, some, Bytes, arith, u64_max}
use btest_rs.UserDb.{User, UserDb, Clock}
use btest_rs.UserDb.Users.{get_user}
use btest_rs.UserDb.Usage.{
  get_daily_usage, get_weekly_usage, get_monthly_usage, get_ip_daily_inbound, get_ip_weekly_inbound,
  get_ip_monthly_inbound, get_ip_daily_outbound, get_ip_weekly_outbound, get_ip_monthly_outbound,
}
use btest_rs.Quota.{
  QuotaManager, accept, cap_budget, limit_of, used_total, used_or_0, check_user, check_ip_combined,
  check_ip_inbound, check_ip_outbound, cap_ip_combined, cap_ip_directional, remaining_budget,
  daily_exceeded, weekly_exceeded, monthly_exceeded, ip_daily_exceeded, ip_weekly_exceeded,
  ip_monthly_exceeded, ip_inbound_daily_exceeded, ip_outbound_daily_exceeded,
  ip_inbound_weekly_exceeded, ip_outbound_weekly_exceeded, ip_inbound_monthly_exceeded,
  ip_outbound_monthly_exceeded,
}
use btest_rs.Quota.Limits.{cap_pos, three_caps}

module _ (q : QuotaManager) (k : Clock) (db : UserDb) (ip : Bytes) where
  cap_ip_combined-pos :
      (b : ℕ)
      → (0 < cap_ip_combined q k db ip b) ↔ ((0 < b) × (check_ip_combined q k db ip ≡ accept))
  unfolding cap_ip_combined check_ip_combined
  cap_ip_combined-pos b =
      three_caps _ _ _ _ _ _ ip_daily_exceeded ip_weekly_exceeded ip_monthly_exceeded b

  cap_ip_directional-pos :
      (b : ℕ)
      → (0 < cap_ip_directional q k db ip b)
        ↔ ((0 < b) × (check_ip_inbound q k db ip ≡ accept) × (check_ip_outbound q k db ip ≡ accept))
  unfolding cap_ip_directional check_ip_inbound check_ip_outbound
  cap_ip_directional-pos b = ground (
    arith,
    cap_pos q.ip_daily_inbound in_day ip_inbound_daily_exceeded b,
    cap_pos q.ip_daily_outbound out_day ip_outbound_daily_exceeded b1,
    cap_pos q.ip_weekly_inbound in_week ip_inbound_weekly_exceeded b2,
    cap_pos q.ip_weekly_outbound out_week ip_outbound_weekly_exceeded b3,
    cap_pos q.ip_monthly_inbound in_month ip_inbound_monthly_exceeded b4,
    cap_pos q.ip_monthly_outbound out_month ip_outbound_monthly_exceeded
        (cap_budget q.ip_monthly_inbound in_month b4),
  )
    where
      in_day : ℕ
      in_day = used_or_0 (get_ip_daily_inbound k ip db)

      out_day : ℕ
      out_day = used_or_0 (get_ip_daily_outbound k ip db)

      in_week : ℕ
      in_week = used_or_0 (get_ip_weekly_inbound k ip db)

      out_week : ℕ
      out_week = used_or_0 (get_ip_weekly_outbound k ip db)

      in_month : ℕ
      in_month = used_or_0 (get_ip_monthly_inbound k ip db)

      out_month : ℕ
      out_month = used_or_0 (get_ip_monthly_outbound k ip db)

      b1 : ℕ
      b1 = cap_budget q.ip_daily_inbound in_day b

      b2 : ℕ
      b2 = cap_budget q.ip_daily_outbound out_day b1

      b3 : ℕ
      b3 = cap_budget q.ip_weekly_inbound in_week b2

      b4 : ℕ
      b4 = cap_budget q.ip_weekly_outbound out_week b3

  -- For a user that is found and enabled, all the byte checks of the user and the address accept
  -- just when the test gets a budget that is not 0.
  pub admitted_iff_budget :
      (name : Bytes) (u : User)
      → get_user name db ≡ some (some u)
      → u.enabled ≡ true
      → (0 < remaining_budget q k db name ip) ↔ (
          (check_user q k db name ≡ accept)
          × (check_ip_combined q k db ip ≡ accept)
          × (check_ip_inbound q k db ip ≡ accept)
          × (check_ip_outbound q k db ip ≡ accept))
  unfolding remaining_budget check_user
  admitted_iff_budget name u found on = ground (
    arith,
    three_caps (limit_of u.daily_quota q.default_daily) (limit_of u.weekly_quota q.default_weekly)
        q.default_monthly (used_total (get_daily_usage k name db))
        (used_total (get_weekly_usage k name db)) (used_total (get_monthly_usage k name db))
        daily_exceeded weekly_exceeded monthly_exceeded u64_max,
    cap_ip_combined-pos user_part,
    cap_ip_directional-pos (cap_ip_combined q k db ip user_part),
  )
    where
      user_part : ℕ
      user_part = cap_budget q.default_monthly (used_total (get_monthly_usage k name db)) (
          cap_budget (limit_of u.weekly_quota q.default_weekly)
            (used_total (get_weekly_usage k name db))
            (cap_budget (limit_of u.daily_quota q.default_daily)
              (used_total (get_daily_usage k name db)) u64_max))
