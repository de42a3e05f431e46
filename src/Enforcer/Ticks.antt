-- ===== src/Enforcer/Ticks.antt =====
-- When the enforcer ends a test.
use btest_rs.Base.{
  ◌+◌, ◌<◌, u32_mod, ◌≡◌, ◌≢◌, ◌↔◌, refl, true, false, List, [], ◌∷◌, ◌++◌, Option, none, some,
  Bytes, arith,
}
use btest_rs.Bandwidth.{BandwidthState, stop}
use btest_rs.Quota.{
  Verdict, accept, reject, Direction, check_user, check_ip, QuotaManager, too_many_connections,
  connect, active_connections_count,
}
use btest_rs.Quota.Slots.{full_after_connect}
use btest_rs.Enforcer.Reasons.{too_many_reason}
use btest_rs.Enforcer.{
  StopReason, running, client_disconnected, ip_daily_quota, QuotaEnforcer, Tick, display,
  user_reason, ip_reason, verdict_reason, check_user_with_session, check_ip_with_session, tick, run,
}

user_reason-ne-running : (s : Bytes) → user_reason s ≢ running
unfolding user_reason
user_reason-ne-running s = ground arith

ip_reason-ne-running : (s : Bytes) → ip_reason s ≢ running
unfolding ip_reason
ip_reason-ne-running s = ground arith

verdict_accepts :
    (f : Bytes → StopReason) (v : Verdict)
    → ((s : Bytes) → f s ≢ running)
    → (verdict_reason f v ≡ running) ↔ (v ≡ accept)
verdict_accepts f accept ne = (λ e. refl, λ e. refl)
verdict_accepts f (reject e) ne = (λ h. absurd (ne (display e) h), λ h. cc)

abbrev pub reason_of : Option (StopReason × BandwidthState) → Option StopReason
reason_of none = none
reason_of (some (r, s)) = some r

module _ (e : QuotaEnforcer) (t : Tick) where
  -- A round lets the test go on just when it runs, is younger than the maximal duration, and passes
  -- the checks of the user and of the address in both directions.
  pub goes_on : (tick e t ≡ none) ↔ (
      (t.state.running ≡ true)
      × (t.elapsed < e.max_duration)
      × (check_user t.quota_mgr t.clock t.db e.username ≡ accept)
      × (check_ip t.quota_mgr t.clock t.db e.ip Direction.both ≡ accept))
  unfolding tick
  goes_on = ground (
    arith,
    verdict_accepts user_reason (check_user t.quota_mgr t.clock t.db e.username)
        user_reason-ne-running,
    verdict_accepts ip_reason (check_ip t.quota_mgr t.clock t.db e.ip Direction.both)
        ip_reason-ne-running,
  )

  -- A round that ends the test leaves `running` false, gives a reason other than `running`, and says
  -- `client_disconnected` just when the test was over before.
  pub ends_stopped :
      (r : StopReason) (s : BandwidthState)
      → tick e t ≡ some (r, s)
      → (s.running ≡ false)
        × (r ≢ running)
        × ((r ≡ client_disconnected) ↔ (t.state.running ≡ false))
  unfolding tick stop user_reason ip_reason
  ends_stopped r s h = ground arith

  -- What a round decides does not depend on the bytes that the session has moved: only on whether
  -- it runs, on the time, and on the stores.
  pub ignores_session :
      (s : BandwidthState)
      → s.running ≡ t.state.running
      → reason_of (tick e (record t { state = s })) ≡ reason_of (tick e t)
  unfolding tick check_user_with_session check_ip_with_session
  ignores_session s same = ground arith

  -- A connection that takes the last slot of its address is ended at the first round, as having
  -- spent the daily quota of the address, whatever has been used.
  pub last_slot_ended :
      (q : QuotaManager)
      → t.quota_mgr ≡ connect e.ip q
      → active_connections_count e.ip q + 1 ≡ q.max_conn_per_ip
      → q.max_conn_per_ip < u32_mod
      → t.state.running ≡ true
      → t.elapsed < e.max_duration
      → check_user t.quota_mgr t.clock t.db e.username ≡ accept
      → tick e t ≡ some (ip_daily_quota, stop t.state)
  unfolding tick
  last_slot_ended q same count small on young passes =
      ground (arith, full, too_many_reason q.max_conn_per_ip q.max_conn_per_ip)
    where
      full :
          check_ip t.quota_mgr t.clock t.db e.ip Direction.both
          ≡ reject (too_many_connections q.max_conn_per_ip q.max_conn_per_ip)
      full = rw same (full_after_connect q t.clock t.db e.ip Direction.both count small)

abbrev pub AllGoOn : QuotaEnforcer → List Tick → Type 0
AllGoOn e [] = Unit {0}
AllGoOn e (t ∷ ts) = (tick e t ≡ none) × AllGoOn e ts

-- After any number of rounds that go on, the loop ends at the first round that decides, with its
-- reason and its state, whatever would come later.
pub run_first :
    (e : QuotaEnforcer) (ts later : List Tick) (t : Tick) (r : StopReason × BandwidthState)
    → AllGoOn e ts
    → tick e t ≡ some r
    → run e (ts ++ t ∷ later) ≡ some r
unfolding run
run_first e [] later t r all h = rw (h, run)
run_first e (t' ∷ ts) later t r (go, all) h = rw (go, run) (run_first e ts later t r all h)

pub run_goes_on : (e : QuotaEnforcer) (ts : List Tick) → (run e ts ≡ none) ↔ AllGoOn e ts
unfolding run
run_goes_on e [] = (λ h. tt, λ h. refl)
run_goes_on e (t ∷ ts) = ground (arith, run_goes_on e ts)
