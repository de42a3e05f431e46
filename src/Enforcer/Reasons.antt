-- ===== src/Enforcer/Reasons.antt =====
-- The reasons that the enforcer reads off the text of an error.
use btest_rs.Base.{
  ℕ, ◌<◌, ◌≡◌, refl, true, false, ◌∷◌, ◌++◌, Bytes, arith, codes, show, contains, absent,
  absent-append, absent-show, contains-absent,
}
use btest_rs.Quota.{
  daily_exceeded, weekly_exceeded, monthly_exceeded, ip_daily_exceeded, ip_weekly_exceeded,
  ip_monthly_exceeded, ip_inbound_weekly_exceeded, ip_outbound_weekly_exceeded,
  ip_inbound_monthly_exceeded, ip_outbound_monthly_exceeded, too_many_connections,
}
use btest_rs.Enforcer.{
  user_daily_quota, user_weekly_quota, user_monthly_quota, ip_daily_quota, ip_weekly_quota,
  ip_monthly_quota, figures, display, user_reason, ip_reason,
}

figures-absent :
    (c u l : ℕ)
    → 57 < c
    → absent c (codes "/") ≡ true
    → absent c (codes " bytes") ≡ true
    → absent c (figures u l) ≡ true
figures-absent c u l big h k =
    absent-append c (show u) _ (absent-show c u big)
      (absent-append c (codes "/") _ h (absent-append c (show l) _ (absent-show c l big) k))

no_slash : (c : ℕ) → 57 < c → absent c (codes "/") ≡ true
unfolding absent
no_slash c big = ground arith

module _ (u l : ℕ) where
  no_d : absent 100 (figures u l) ≡ true
  unfolding absent
  no_d = figures-absent 100 u l (omega arith) refl refl

  no_w : absent 119 (figures u l) ≡ true
  unfolding absent
  no_w = figures-absent 119 u l (omega arith) refl refl

  no_c : absent 99 (figures u l) ≡ true
  unfolding absent
  no_c = figures-absent 99 u l (omega arith) refl refl

  no_i : absent 73 (figures u l) ≡ true
  unfolding absent
  no_i = figures-absent 73 u l (omega arith) refl refl

  not_ip : (p : Bytes) → contains (73 ∷ p) (figures u l) ≡ false
  not_ip p = contains-absent 73 p (figures u l) no_i

  not_connections : contains (codes "connections") (figures u l) ≡ false
  not_connections = contains-absent 99 (codes "onnections") (figures u l) no_c

  -- Each byte error of a user is reported as what it is.
  pub user_reasons :
      (user_reason (display (daily_exceeded u l)) ≡ user_daily_quota)
      × (user_reason (display (weekly_exceeded u l)) ≡ user_weekly_quota)
      × (user_reason (display (monthly_exceeded u l)) ≡ user_monthly_quota)
  unfolding user_reason display contains
  user_reasons =
      (refl, rw not_daily, rw (not_daily, contains-absent 119 (codes "eekly") (figures u l) no_w))
    where
      not_daily : contains (codes "daily") (figures u l) ≡ false
      not_daily = contains-absent 100 (codes "aily") (figures u l) no_d

  -- Each combined byte error of an address is reported as what it is; but a directional error, of a
  -- week or a month, is reported as the daily quota.
  pub ip_reasons :
      (ip_reason (display (ip_daily_exceeded u l)) ≡ ip_daily_quota)
      × (ip_reason (display (ip_weekly_exceeded u l)) ≡ ip_weekly_quota)
      × (ip_reason (display (ip_monthly_exceeded u l)) ≡ ip_monthly_quota)
      × (ip_reason (display (ip_inbound_weekly_exceeded u l)) ≡ ip_daily_quota)
      × (ip_reason (display (ip_outbound_weekly_exceeded u l)) ≡ ip_daily_quota)
      × (ip_reason (display (ip_inbound_monthly_exceeded u l)) ≡ ip_daily_quota)
      × (ip_reason (display (ip_outbound_monthly_exceeded u l)) ≡ ip_daily_quota)
  unfolding ip_reason display contains
  ip_reasons = (
    refl,
    rw (not_ip (codes "P daily")),
    rw (not_ip (codes "P daily"), not_ip (codes "P weekly")),
    simp (not_ip, not_connections),
    simp (not_ip, not_connections),
    simp (not_ip, not_connections),
    simp (not_ip, not_connections),
  )

  -- So is a full connection table.
  pub too_many_reason : ip_reason (display (too_many_connections u l)) ≡ ip_daily_quota
  unfolding ip_reason display contains
  too_many_reason = simp no_ip
    where
      no_ip : (p : Bytes) → contains (73 ∷ p) (show u ++ (47 ∷ show l)) ≡ false
      no_ip p = contains-absent 73 p _ (
          absent-append 73 (show u) (47 ∷ show l) (absent-show 73 u (omega arith)) (
            absent-append 73 (codes "/") (show l) (no_slash 73 (omega arith))
              (absent-show 73 l (omega arith))))
