-- ===== src/ProServer/Settlement.antt =====
-- The start and the end of a test in src/server_pro/server_loop.rs: its byte budget, and the record
-- of what it moved.
use btest_rs.Base.{true, bytes_eq_refl, ℕ, ◌≡◌, Bytes, ltb, if◌then◌else◌, u64_max, arith}
use btest_rs.Bandwidth
use btest_rs.Bandwidth.{BandwidthState, set_budget, summary}
use btest_rs.UserDb.{UserDb, Clock}
use btest_rs.UserDb.Usage.Recorded.{grow_one}
use btest_rs.UserDb.Usage.Sums.{both-upsert_day}
use btest_rs.UserDb.Usage.{
  record_usage as record_user_usage, record_ip_usage, get_ip_daily_inbound, get_ip_daily_outbound,
}
use btest_rs.Enforcer.{QuotaEnforcer, flush_to_db}
use btest_rs.Quota.{QuotaManager, remaining_budget, record_usage}
use btest_rs.Quota.Recording.{Writes}

module _ (q : QuotaManager) (k : Clock) (name ip : Bytes) where
  -- The state that a test starts with.
  unfoldable pub test_state : UserDb → BandwidthState
  test_state db =
      let budget = remaining_budget q k db name ip in
      if ltb budget u64_max then set_budget budget Bandwidth.new else Bandwidth.new

  -- The totals are recorded in the order of the summary: what was sent, and what was received.
  unfoldable pub settle : BandwidthState → UserDb → UserDb
  settle s db = record_usage k name ip (summary s).0 (summary s).1 db

  directions_after :
      (i o : ℕ) (db : UserDb)
      → Writes db
      → let db' = record_usage k name ip i o db in
        (get_ip_daily_inbound k ip db' ≡ grow_one true i (get_ip_daily_inbound k ip db))
        × (get_ip_daily_outbound k ip db' ≡ grow_one true o (get_ip_daily_outbound k ip db))
  unfolding record_usage record_user_usage record_ip_usage get_ip_daily_inbound
      get_ip_daily_outbound
  directions_after i o db ok = ground (
    arith,
    ok.usage,
    ok.ip_usage,
    bytes_eq_refl ip,
    both-upsert_day ip ip k.today i o 1 db.ip_usage,
  )

  -- What a finished test sent is recorded as the address's inbound bytes of the day, and what it
  -- received as outbound. The enforcer's `flush_to_db` records the same totals the other way round.
  pub settled_the_wrong_way_round :
      (e : QuotaEnforcer) (s : BandwidthState) (db : UserDb)
      → Writes db
      → e.username ≡ name
      → e.ip ≡ ip
      → let settled = settle s db in
        let flushed = flush_to_db e k s db in
        (get_ip_daily_inbound k ip settled
          ≡ grow_one true s.total_tx_bytes (get_ip_daily_inbound k ip db))
        × (get_ip_daily_outbound k ip settled
            ≡ grow_one true s.total_rx_bytes (get_ip_daily_outbound k ip db))
        × (get_ip_daily_inbound k ip flushed
            ≡ grow_one true s.total_rx_bytes (get_ip_daily_inbound k ip db))
        × (get_ip_daily_outbound k ip flushed
            ≡ grow_one true s.total_tx_bytes (get_ip_daily_outbound k ip db))
  unfolding settle summary flush_to_db
  settled_the_wrong_way_round e s db ok same_user same_ip =
      let sent_in = directions_after s.total_tx_bytes s.total_rx_bytes db ok in
      let received_in = directions_after s.total_rx_bytes s.total_tx_bytes db ok in
      (
        sent_in.0,
        sent_in.1,
        rw (same_user, same_ip) received_in.0,
        rw (same_user, same_ip) received_in.1,
      )
