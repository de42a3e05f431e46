-- ===== src/ProServer/FullTest.antt =====
-- A whole test in src/server_pro/server_loop.rs: the row of its session, its byte budget, and the
-- record at its end. What the tasks, the enforcer and the other connections do in between is an
-- argument: how the test ended, and the database that is then found.
pub mod Laws
use btest_rs.Base.{ℕ, Bool, true, false, ◌==◌, Option, none, some, Bytes, codes, if◌then◌else◌}
use btest_rs.Protocol.{cmd_dir_rx, cmd_dir_tx}
use btest_rs.Protocol.Command
use btest_rs.Protocol.Command.{Command}
use btest_rs.Bandwidth.{BandwidthState, summary}
use btest_rs.UserDb.{UserDb, Clock}
use btest_rs.UserDb.Sessions.{start_session, end_session}
use btest_rs.Quota.{QuotaManager}
use btest_rs.Enforcer.{StopReason, client_disconnected}
use btest_rs.ProServer.Settlement.{test_state, settle}

-- How a test ended: the state, whether the test function returned a result, and what the enforcer
-- gave as its reason, if its task did not fail.
pub record Ended : Type 0 where
  pub state : BandwidthState
  pub test_ok : Bool
  pub enforcer : Option StopReason

-- The times, as `datetime('now')` gives them, and the dates.
pub record Times : Type 0 where
  pub started : Bytes
  pub ended : Bytes
  pub clock : Clock

unfoldable pub proto_str : Command → Bytes
unfolding Command.is_udp
proto_str c = if Command.is_udp c then codes "UDP" else codes "TCP"

unfoldable pub dir_str : Command → Bytes
dir_str c =
    if c.direction == cmd_dir_rx
    then codes "RX"
    else if c.direction == cmd_dir_tx
    then codes "TX"
    else codes "BOTH"

abbrev pub unwrap_or : Option StopReason → StopReason
unwrap_or none = client_disconnected
unwrap_or (some r) = r

unfoldable pub final_reason : Ended → StopReason
final_reason e = if e.test_ok then unwrap_or e.enforcer else client_disconnected

-- The result, unless the row of the session could not be written.
abbrev pub with_totals :
    StopReason → BandwidthState → UserDb → Option UserDb → UserDb × Option (StopReason × ℕ × ℕ)
with_totals reason s settled none = (settled, none)
with_totals reason s settled (some db) = (db, some (reason, s.total_tx_bytes, s.total_rx_bytes))

module _ (q : QuotaManager) (t : Times) (name ip : Bytes) where
  -- The end of a test: the usage is recorded, and then the row of the session. A row that cannot be
  -- written is an error, after the usage has been recorded.
  unfoldable pub finish_test :
      ℕ → StopReason → BandwidthState → UserDb → UserDb × Option (StopReason × ℕ × ℕ)
  finish_test session_id reason s db =
      let totals = summary s in
      let settled = settle q t.clock name ip s db in
      with_totals reason s settled (end_session t.ended session_id totals.0 totals.1 settled)

  -- A test whose session has the row that is given, or none when it could not be written. `test` is how
  -- it ends, from the state it starts with, and the database that is then found; `reason_of` is the
  -- reason that is reported.
  unfoldable pub with_session :
      (Ended → StopReason)
      → (BandwidthState → UserDb → Ended × UserDb)
      → UserDb
      → Option (ℕ × UserDb)
      → UserDb × Option (StopReason × ℕ × ℕ)
  with_session reason_of test db none = (db, none)
  with_session reason_of test db (some (session_id, db1)) =
      let after = test (test_state q t.clock name ip db1) db1 in
      let e = after.0 in finish_test session_id (reason_of e) e.state after.1

  -- A test on one connection.
  unfoldable pub run_pro_single_test :
      Command
      → (BandwidthState → UserDb → Ended × UserDb)
      → UserDb
      → UserDb × Option (StopReason × ℕ × ℕ)
  run_pro_single_test c test db =
      with_session final_reason test db
        (start_session t.started name ip (proto_str c) (dir_str c) db)

  -- A test on several connections: the reason is that of the enforcer, however the test ended.
  unfoldable pub run_pro_multiconn_test :
      Command
      → (BandwidthState → UserDb → Ended × UserDb)
      → UserDb
      → UserDb × Option (StopReason × ℕ × ℕ)
  run_pro_multiconn_test c test db =
      with_session (λ e. unwrap_or e.enforcer) test db
        (start_session t.started name ip (codes "TCP") (dir_str c) db)
