-- ===== src/ProServer/FullTest/Laws.antt =====
-- What a whole test leaves in the database.
use btest_rs.Base.{
  ℕ, ◌+◌, ◌≡◌, refl, ap, ◌∙◌, true, false, ◌==◌, [], ◌∷◌, ◌++◌, none, some, Bytes, codes, arith,
  if◌then◌else◌,
}
use btest_rs.Protocol.Command.{Command}
use btest_rs.Bandwidth.{BandwidthState, summary}
use btest_rs.UserDb.{UserDb, insert_session, update_session}
use btest_rs.UserDb.Sessions.{start_session, end_session, update_row}
use btest_rs.UserDb.Sessions.Laws.{find_row, IsNumbered, rows_tracked, ended_row}
use btest_rs.UserDb.Usage.{get_daily_usage, record_usage as record_user_usage, record_ip_usage}
use btest_rs.UserDb.Usage.Recorded.{IsClock, grow}
use btest_rs.Quota.{QuotaManager, record_usage}
use btest_rs.Quota.Recording.{Writes, sums_after}
use btest_rs.Enforcer.{StopReason}
use btest_rs.ProServer.Settlement.{test_state, settle}
use btest_rs.ProServer.FullTest.{
  Ended, Times, proto_str, dir_str, final_reason, with_session, finish_test, run_pro_single_test,
  run_pro_multiconn_test, unwrap_or,
}

-- The statements of a test do not fail.
pub record TestWrites (db : UserDb) : Type 0 where
  pub writes : Writes db
  pub started : db.fails insert_session ≡ false
  pub ended : db.fails update_session ≡ false

module _ (q : QuotaManager) (t : Times) (name ip : Bytes) where
  settle-others :
      (s : BandwidthState) (db : UserDb)
      → ((settle q t.clock name ip s db).sessions ≡ db.sessions)
        × ((settle q t.clock name ip s db).fails ≡ db.fails)
        × ((settle q t.clock name ip s db).next_session_id ≡ db.next_session_id)
  unfolding settle record_usage record_user_usage record_ip_usage
  settle-others s db = ground arith

  -- The database while a test runs.
  abbrev pub opened : Bytes → Command → UserDb → UserDb
  opened proto c db = record db {
    sessions =
        db.sessions
        ++ record (ended_row db.next_session_id t.started name ip proto (dir_str c) t.ended 0 0) {
          ended_at = none;
        }
          ∷ [];
    next_session_id = db.next_session_id + 1;
  }

  started :
      (proto : Bytes) (c : Command) (db : UserDb)
      → db.fails insert_session ≡ false
      → start_session t.started name ip proto (dir_str c) db
        ≡ some (db.next_session_id, opened proto c db)
  unfolding start_session
  started proto c db h = rw h refl

  -- The database at the end of a test that found it in `db`.
  abbrev pub closed : ℕ → BandwidthState → UserDb → UserDb
  closed n s db =
      let db' = settle q t.clock name ip s db in
      record db' {
        sessions =
            update_row n
              (λ r. record r {
                ended_at = some t.ended;
                tx_bytes = s.total_tx_bytes;
                rx_bytes = s.total_rx_bytes;
              })
              db'.sessions;
      }

  finished :
      (n : ℕ) (reason : StopReason) (s : BandwidthState) (db : UserDb)
      → db.fails update_session ≡ false
      → finish_test q t name ip n reason s db
        ≡ (closed n s db, some (reason, s.total_tx_bytes, s.total_rx_bytes))
  unfolding finish_test end_session summary
  finished n reason s db h = rw (ap (λ f. f update_session) (settle-others s db).1 ∙ h) refl

  ran :
      (reason_of : Ended → StopReason) (proto : Bytes) (c : Command) (f : BandwidthState → Ended)
      (db : UserDb)
      → TestWrites db
      → let e = f (test_state q t.clock name ip (opened proto c db)) in
        with_session q t name ip reason_of
          (λ s d. (f s, d))
          db
          (start_session t.started name ip proto (dir_str c) db)
        ≡ (
          closed db.next_session_id e.state (opened proto c db),
          some (reason_of e, e.state.total_tx_bytes, e.state.total_rx_bytes),
        )
  unfolding with_session
  ran reason_of proto c f db ok =
      let e = f (test_state q t.clock name ip (opened proto c db)) in
      ap (with_session q t name ip reason_of (λ s d. (f s, d)) db) (started proto c db ok.started)
      ∙ finished db.next_session_id (reason_of e) e.state (opened proto c db) ok.ended

  -- What a test of the state `s` leaves: the row of its session, those of the others, and the user's
  -- sums of the day.
  abbrev pub Recorded : Bytes → Command → BandwidthState → UserDb → UserDb → ℕ → Type 0
  Recorded proto c s db after m =
      (find_row m after.sessions ≡ (
        if db.next_session_id == m
        then some (
            ended_row db.next_session_id t.started name ip proto (dir_str c) t.ended
              s.total_tx_bytes s.total_rx_bytes)
        else find_row m db.sessions))
      × IsNumbered after.next_session_id after.sessions
      × (get_daily_usage t.clock name after
          ≡ grow true s.total_rx_bytes s.total_tx_bytes (get_daily_usage t.clock name db))

  closed_sums :
      (proto : Bytes) (c : Command) (s : BandwidthState) (db : UserDb)
      → IsClock t.clock
      → Writes db
      → get_daily_usage t.clock name (closed db.next_session_id s (opened proto c db))
        ≡ grow true s.total_rx_bytes s.total_tx_bytes (get_daily_usage t.clock name db)
  unfolding get_daily_usage settle summary
  closed_sums proto c s db v ok =
      (sums_after v name ip s.total_tx_bytes s.total_rx_bytes (opened proto c db)
        (record { usage = ok.usage; ip_usage = ok.ip_usage })).0

  closed_rows :
      (proto : Bytes) (c : Command) (s : BandwidthState) (db : UserDb) (m : ℕ)
      → IsNumbered db.next_session_id db.sessions
      → let after = closed db.next_session_id s (opened proto c db) in
        (find_row m after.sessions ≡ (
          if db.next_session_id == m
          then some (
              ended_row db.next_session_id t.started name ip proto
                (dir_str c)
                t.ended
                s.total_tx_bytes
                s.total_rx_bytes)
          else find_row m db.sessions))
        × IsNumbered after.next_session_id after.sessions
  closed_rows proto c s db m v =
      let others = settle-others s (opened proto c db) in
      rw (others.0, others.2) (rows_tracked db.next_session_id m _ db.sessions _ refl (λ r. refl) v)

  recorded :
      (proto : Bytes) (c : Command) (s : BandwidthState) (db : UserDb) (m : ℕ)
      → IsNumbered db.next_session_id db.sessions
      → IsClock t.clock
      → Writes db
      → Recorded proto c s db (closed db.next_session_id s (opened proto c db)) m
  recorded proto c s db m v k ok =
      let rows = closed_rows proto c s db m v in (rows.0, rows.1, closed_sums proto c s db k ok)

  -- A test whose statements do not fail, and during which nothing else was written, ends with the totals
  -- of its state and, on one connection, with the enforcer's reason unless the test itself failed. On one
  -- connection and on several it leaves a row of its own for the session, ended and with these totals,
  -- and the rows of the others as they were, and the user's sums of the day have grown by the same
  -- totals, the received ones in the column of the sent.
  pub test_recorded :
      (c : Command) (f : BandwidthState → Ended) (db : UserDb) (m : ℕ)
      → IsNumbered db.next_session_id db.sessions
      → IsClock t.clock
      → TestWrites db
      → let e = f (test_state q t.clock name ip (opened (proto_str c) c db)) in
        let e' = f (test_state q t.clock name ip (opened (codes "TCP") c db)) in
        let single = run_pro_single_test q t name ip c (λ s d. (f s, d)) db in
        let multi = run_pro_multiconn_test q t name ip c (λ s d. (f s, d)) db in
        (single.1 ≡ some (final_reason e, e.state.total_tx_bytes, e.state.total_rx_bytes))
        × Recorded (proto_str c) c e.state db single.0 m
        × (multi.1 ≡ some (unwrap_or e'.enforcer, e'.state.total_tx_bytes, e'.state.total_rx_bytes))
        × Recorded (codes "TCP") c e'.state db multi.0 m
  unfolding run_pro_single_test run_pro_multiconn_test
  test_recorded c f db m v k ok =
      let e = f (test_state q t.clock name ip (opened (proto_str c) c db)) in
      let e' = f (test_state q t.clock name ip (opened (codes "TCP") c db)) in
      rw
        (
          ran final_reason (proto_str c) c f db ok,
          ran (λ e. unwrap_or e.enforcer) (codes "TCP") c f db ok,
        )
        (
          refl,
          recorded (proto_str c) c e.state db m v k ok.writes,
          refl,
          recorded (codes "TCP") c e'.state db m v k ok.writes,
        )
