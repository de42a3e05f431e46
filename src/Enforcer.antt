-- ===== src/Enforcer.antt =====
-- The quota enforcer of src/server_pro/enforcer.rs, which looks at a running test at intervals.
pub mod Reasons
pub mod Ticks
mod Tests
use btest_rs.Base.{
  ℕ, ◌/◌, ◌*◌, max, Bool, true, false, List, [], ◌∷◌, ◌++◌, Option, none, some, Bytes, not, ltb,
  leb, if◌then◌else◌, u64_max, codes, show, contains,
}
use btest_rs.Bandwidth.{BandwidthState, stop, one_second}
use btest_rs.UserDb.{UserDb, Clock}
use btest_rs.Quota
use btest_rs.Quota.{
  QuotaManager, QuotaError, Verdict, accept, reject, Direction, daily_exceeded, weekly_exceeded,
  monthly_exceeded, ip_daily_exceeded, ip_weekly_exceeded, ip_monthly_exceeded,
  ip_inbound_daily_exceeded, ip_outbound_daily_exceeded, ip_inbound_weekly_exceeded,
  ip_outbound_weekly_exceeded, ip_inbound_monthly_exceeded, ip_outbound_monthly_exceeded,
  too_many_connections, user_disabled, user_not_found, check_user, check_ip,
}

pub data StopReason : Type 0 where
  running max_duration : StopReason
  user_daily_quota user_weekly_quota user_monthly_quota : StopReason
  ip_daily_quota ip_weekly_quota ip_monthly_quota : StopReason
  client_disconnected : StopReason

pub record QuotaEnforcer : Type 0 where
  pub username : Bytes
  pub ip : Bytes
  pub check_interval : ℕ
  pub max_duration : ℕ

unfoldable pub new : Bytes → Bytes → ℕ → ℕ → QuotaEnforcer
new username ip check_interval_secs max_duration_secs = record {
  username = username;
  ip = ip;
  check_interval = max check_interval_secs 1 * one_second;
  max_duration = (if ltb 0 max_duration_secs then max_duration_secs else u64_max / 2) * one_second;
}

-- `{}/{} bytes`
abbrev pub figures : ℕ → ℕ → Bytes
figures used limit = show used ++ (codes "/" ++ (show limit ++ codes " bytes"))

-- `Display for QuotaError`
unfoldable pub display : QuotaError → Bytes
display (daily_exceeded u l) = codes "User daily quota exceeded: " ++ figures u l
display (weekly_exceeded u l) = codes "User weekly quota exceeded: " ++ figures u l
display (monthly_exceeded u l) = codes "User monthly quota exceeded: " ++ figures u l
display (ip_daily_exceeded u l) = codes "IP daily quota exceeded: " ++ figures u l
display (ip_weekly_exceeded u l) = codes "IP weekly quota exceeded: " ++ figures u l
display (ip_monthly_exceeded u l) = codes "IP monthly quota exceeded: " ++ figures u l
display (ip_inbound_daily_exceeded u l) = codes "IP inbound daily quota exceeded: " ++ figures u l
display (ip_outbound_daily_exceeded u l) = codes "IP outbound daily quota exceeded: " ++ figures u l
display (ip_inbound_weekly_exceeded u l) = codes "IP inbound weekly quota exceeded: " ++ figures u l
display (ip_outbound_weekly_exceeded u l) =
    codes "IP outbound weekly quota exceeded: " ++ figures u l
display (ip_inbound_monthly_exceeded u l) =
    codes "IP inbound monthly quota exceeded: " ++ figures u l
display (ip_outbound_monthly_exceeded u l) =
    codes "IP outbound monthly quota exceeded: " ++ figures u l
display (too_many_connections n l) =
    codes "Too many connections from this IP: " ++ (show n ++ (codes "/" ++ show l))
display user_disabled = codes "User account is disabled"
display user_not_found = codes "User not found"

-- The reason that `check_user_with_session` reads off the text of the error.
unfoldable pub user_reason : Bytes → StopReason
user_reason s =
    if contains (codes "daily") s
    then user_daily_quota
    else if contains (codes "weekly") s
    then user_weekly_quota
    else if contains (codes "monthly") s
    then user_monthly_quota
    else user_daily_quota

unfoldable pub ip_reason : Bytes → StopReason
ip_reason s =
    if contains (codes "IP daily") s
    then ip_daily_quota
    else if contains (codes "IP weekly") s
    then ip_weekly_quota
    else if contains (codes "IP monthly") s
    then ip_monthly_quota
    else if contains (codes "connections") s
    then ip_daily_quota
    else ip_daily_quota

abbrev pub verdict_reason : (Bytes → StopReason) → Verdict → StopReason
verdict_reason f accept = running
verdict_reason f (reject e) = f (display e)

-- What the enforcer finds at a tick: the time since its start, the stores, and the shared state.
pub record Tick : Type 0 where
  pub elapsed : ℕ
  pub clock : Clock
  pub db : UserDb
  pub quota_mgr : QuotaManager
  pub state : BandwidthState

-- The byte counts of the session are arguments that neither check uses.
unfoldable pub check_user_with_session : QuotaEnforcer → Tick → ℕ → ℕ → StopReason
check_user_with_session e t session_tx session_rx =
    verdict_reason user_reason (check_user t.quota_mgr t.clock t.db e.username)

unfoldable pub check_ip_with_session : QuotaEnforcer → Tick → ℕ → ℕ → StopReason
check_ip_with_session e t session_tx session_rx =
    verdict_reason ip_reason (check_ip t.quota_mgr t.clock t.db e.ip Direction.both)

abbrev or_else :
    StopReason
    → BandwidthState
    → Option (StopReason × BandwidthState)
    → Option (StopReason × BandwidthState)
or_else running s next = next
or_else reason s next = some (reason, stop s)

-- One round of the loop of `run`: the reason to end with and the state left, or `none` to go on.
unfoldable pub tick : QuotaEnforcer → Tick → Option (StopReason × BandwidthState)
unfolding check_user_with_session check_ip_with_session
tick e t =
    let s = t.state in
    let session_tx = s.total_tx_bytes in
    let session_rx = s.total_rx_bytes in
    if not s.running
    then some (client_disconnected, s)
    else if leb e.max_duration t.elapsed
    then some (max_duration, stop s)
    else or_else (check_user_with_session e t session_tx session_rx) s
        (or_else (check_ip_with_session e t session_tx session_rx) s none)

-- The loop, over the ticks to come; `none` while the test runs on after the last of them.
unfoldable pub run : QuotaEnforcer → List Tick → Option (StopReason × BandwidthState)
run e [] = none
run e (t ∷ later) = elim (tick e t) [ some r ↦ some r | none ↦ run e later ]

-- The totals go to the database once, with what was received as inbound.
unfoldable pub flush_to_db : QuotaEnforcer → Clock → BandwidthState → UserDb → UserDb
flush_to_db e k s db = Quota.record_usage k e.username e.ip s.total_rx_bytes s.total_tx_bytes db
