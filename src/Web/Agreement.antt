-- ===== src/Web/Agreement.antt =====
-- The dashboard's numbers against those of the quota manager, and after a test.
use btest_rs.Base.{
  ℕ, ◌+◌, ◌≡◌, refl, Bool, false, List, [], ◌∷◌, ◌++◌, none, some, Bytes, bytes_eq_refl, arith,
}
use btest_rs.UserDb.{UserDb, Clock, Session, web_daily, web_weekly, web_monthly}
use btest_rs.UserDb.Table.{DayRow, sum_where, on_day, since}
use btest_rs.UserDb.Usage.{get_ip_daily_usage, get_ip_weekly_usage, get_ip_monthly_usage}
use btest_rs.UserDb.Sessions.{start_session, end_session, update_row}
use btest_rs.UserDb.Sessions.Laws.{IsNumbered}
use btest_rs.Web.{Floats, StatsJson, rows_of, sum_sessions, api_quota, api_stats}

sum_of_both :
    (test : DayRow → Bool) (rows : List DayRow)
    → sum_where test (λ r. r.first + r.second) rows
      ≡ sum_where test (λ r. r.first) rows + sum_where test (λ r. r.second) rows
unfolding sum_where
sum_of_both test [] = refl
sum_of_both test (r ∷ rs) = ground (arith, sum_of_both test rs)

-- The queries of the page do not fail.
pub record PageReads (db : UserDb) : Type 0 where
  pub daily : db.fails web_daily ≡ false
  pub weekly : db.fails web_weekly ≡ false
  pub monthly : db.fails web_monthly ≡ false

-- Where no query fails, the page of an address shows as used what the combined checks of the quota
-- manager add up: the inbound and the outbound bytes of the day, of the week and of the month.
pub quota_page_agrees :
    (k : Clock) (ip : Bytes) (db : UserDb) (day_in day_out week_in week_out month_in month_out : ℕ)
    → PageReads db
    → get_ip_daily_usage k ip db ≡ some (day_in, day_out)
    → get_ip_weekly_usage k ip db ≡ some (week_in, week_out)
    → get_ip_monthly_usage k ip db ≡ some (month_in, month_out)
    → let page = api_quota k ip db in
      (page.daily_used ≡ day_in + day_out)
      × (page.weekly_used ≡ week_in + week_out)
      × (page.monthly_used ≡ month_in + month_out)
unfolding api_quota get_ip_daily_usage get_ip_weekly_usage get_ip_monthly_usage
quota_page_agrees k ip db day_in day_out week_in week_out month_in month_out ok day week month =
    ground (
      arith,
      ok.daily,
      ok.weekly,
      ok.monthly,
      sum_of_both (on_day ip k.today) db.ip_usage,
      sum_of_both (since ip k.week_ago) db.ip_usage,
      sum_of_both (since ip k.month_ago) db.ip_usage,
    )

sum_after :
    (column : Session → ℕ) (f : Session → Session) (ip : Bytes) (n : ℕ) (rs : List Session)
    (r : Session)
    → r.id ≡ n
    → r.peer_ip ≡ ip
    → (f r).peer_ip ≡ ip
    → IsNumbered n rs
    → sum_sessions column (rows_of ip (update_row n f (rs ++ r ∷ [])))
      ≡ sum_sessions column (rows_of ip rs) + column (f r)
sum_after column f ip n [] r e same same' v = ground (arith, bytes_eq_refl ip)
sum_after column f ip n (x ∷ rs) r e same same' v =
    ground (arith, sum_after column f ip n rs r e same same' v.1, v.0)

-- Where the numbers of the sessions are below the next one, a session of an address that is started and
-- ended adds one to the dashboard's count of its sessions, and its bytes to the totals.
pub stats_after_test :
    (floats : Floats) (started ended name ip protocol direction : Bytes) (tx rx : ℕ)
    (db db2 : UserDb) {n : ℕ} {db1 : UserDb} (before after : StatsJson floats)
    → IsNumbered db.next_session_id db.sessions
    → start_session started name ip protocol direction db ≡ some (n, db1)
    → end_session ended n tx rx db1 ≡ some db2
    → api_stats floats ip db ≡ some before
    → api_stats floats ip db2 ≡ some after
    → (after.total_sessions ≡ before.total_sessions + 1)
      × (after.total_tx_bytes ≡ before.total_tx_bytes + tx)
      × (after.total_rx_bytes ≡ before.total_rx_bytes + rx)
unfolding start_session end_session api_stats
stats_after_test floats started ended name ip protocol direction tx rx db db2 before after v h h' b
      a =
    let f = (λ (r : Session). record r { ended_at = some ended; tx_bytes = tx; rx_bytes = rx }) in
    let row : Session = record {
      id = db.next_session_id;
      username = name;
      peer_ip = ip;
      protocol = protocol;
      direction = direction;
      started_at = started;
      ended_at = none;
      tx_bytes = 0;
      rx_bytes = 0;
    } in
    ground (
      arith,
      sum_after (λ r. 1) f ip db.next_session_id db.sessions row refl refl refl v,
      sum_after (λ r. r.tx_bytes) f ip db.next_session_id db.sessions row refl refl refl v,
      sum_after (λ r. r.rx_bytes) f ip db.next_session_id db.sessions row refl refl refl v,
    )
