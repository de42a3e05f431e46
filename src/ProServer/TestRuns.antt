-- ===== src/ProServer/TestRuns.antt =====
-- A whole test, and commands on users, over the set-up of the quota tests.
use btest_rs.Base.{◌≡◌, refl, true, some, [], ◌∷◌, codes, bytes_le}
use btest_rs.Bandwidth.{BandwidthState}
use btest_rs.Protocol.Command
use btest_rs.Protocol.Command.{Command}
use btest_rs.UserDb.{pos, UserDb}
use btest_rs.UserDb.Usage.Recorded.{IsClock}
use btest_rs.Quota.Samples.{clock, name, address, testuser, db, manager}
use btest_rs.Enforcer.{max_duration}
use btest_rs.ProServer.Settlement.{test_state}
use btest_rs.ProServer.FullTest.{
  Ended, Times, proto_str, final_reason, unwrap_or, run_pro_single_test, run_pro_multiconn_test,
}
use btest_rs.ProServer.FullTest.Laws.{TestWrites, Recorded, opened, test_recorded}

abbrev times : Times
times = record { started = codes "2026-01-01"; ended = codes "2026-01-02"; clock = clock }

clock-IsClock : IsClock clock
unfolding bytes_le
clock-IsClock = record { week = refl; month = refl }

-- A test that sends 200 bytes and is stopped for its duration.
abbrev ran : BandwidthState → Ended
ran s = record {
  state = record s { total_tx_bytes = 200 };
  test_ok = true;
  enforcer = some max_duration;
}

abbrev upload : Command
upload = Command.new 1 1

abbrev all_write : TestWrites db
all_write = record {
  writes = record { usage = refl; ip_usage = refl };
  started = refl;
  ended = refl;
}

test_recorded_example :
    let e = ran (
      test_state manager clock name address
        (opened manager times name address (proto_str upload) upload db)) in
    let e' = ran (
      test_state manager clock name address
        (opened manager times name address (codes "TCP") upload db)) in
    let single = run_pro_single_test manager times name address upload (λ s d. (ran s, d)) db in
    let multi = run_pro_multiconn_test manager times name address upload (λ s d. (ran s, d)) db in
    (single.1 ≡ some (final_reason e, e.state.total_tx_bytes, e.state.total_rx_bytes))
    × Recorded manager times name address (proto_str upload) upload e.state db single.0 1
    × (multi.1 ≡ some (unwrap_or e'.enforcer, e'.state.total_tx_bytes, e'.state.total_rx_bytes))
    × Recorded manager times name address (codes "TCP") upload e'.state db multi.0 1
test_recorded_example =
    test_recorded manager times name address upload ran db 1 tt clock-IsClock all_write

abbrev with_quotas : UserDb
with_quotas = record db { users = record testuser { weekly_quota = pos 900 } ∷ [] }
