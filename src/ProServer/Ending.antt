-- ===== src/ProServer/Ending.antt =====
-- What src/server_pro/server_loop.rs logs at the end of a test, with the texts of the reasons in
-- src/server_pro/enforcer.rs.
use btest_rs.Base.{ℕ, ◌≡◌, refl, List, Option, Bytes, codes}
use btest_rs.Syslog.{SyslogSender, Datagram, test_end, test_end_msg, mbps_text}
use btest_rs.Enforcer.{
  StopReason, running, max_duration, user_daily_quota, user_weekly_quota, user_monthly_quota,
  ip_daily_quota, ip_weekly_quota, ip_monthly_quota, client_disconnected,
}

unfoldable pub stop_text : StopReason → Bytes
stop_text running = codes "running"
stop_text max_duration = codes "max_duration_reached"
stop_text user_daily_quota = codes "user_daily_quota_exceeded"
stop_text user_weekly_quota = codes "user_weekly_quota_exceeded"
stop_text user_monthly_quota = codes "user_monthly_quota_exceeded"
stop_text ip_daily_quota = codes "ip_daily_quota_exceeded"
stop_text ip_weekly_quota = codes "ip_weekly_quota_exceeded"
stop_text ip_monthly_quota = codes "ip_monthly_quota_exceeded"
stop_text client_disconnected = codes "client_disconnected"

-- The reason goes where the direction stands, and the duration is not known.
unfoldable pub log_end :
    Option SyslogSender → ℕ → (ℕ → ℕ → Bytes) → Bytes → StopReason → ℕ → ℕ → List Datagram
unfolding stop_text test_end
log_end sender now average peer reason tx rx =
    test_end sender now average peer (codes "btest") (stop_text reason)
      (record { total_tx = tx; total_rx = rx; total_lost = 0; duration_secs = 0 })

-- The averages that the server with users logs do not depend on the bytes: whatever the test moved, and
-- however an average is written, the message has the text of zero for both.
pub averages_lost :
    (sender : Option SyslogSender) (now tx rx : ℕ) (average : ℕ → ℕ → Bytes) (peer : Bytes)
    (reason : StopReason)
    → log_end sender now average peer reason tx rx
      ≡ log_end sender now (λ n secs. codes "0.00") peer reason tx rx
unfolding log_end test_end test_end_msg mbps_text
averages_lost sender now tx rx average peer reason = refl
