-- ===== src/Enforcer/Tests.antt =====
-- Runs and instances for the enforcer, over the set-up of its tests.
use btest_rs.Base.{ℕ, ◌+◌, ◌≡◌, refl, true, false, some, arith, bytes_eq}
use btest_rs.Bandwidth.{BandwidthState, stop}
use btest_rs.UserDb.Table.{sum_where}
use btest_rs.UserDb.Users.{get_user}
use btest_rs.UserDb.Usage.{get_daily_usage, get_weekly_usage, get_monthly_usage}
use btest_rs.Quota.{
  QuotaManager, accept, limit_check, check_user, connect, active_connections_count,
}
use btest_rs.Quota.Connections.{count_of, add_one}
use btest_rs.Quota.Samples.{clock, name, address, db, manager}
use btest_rs.Enforcer.{max_duration, ip_daily_quota, QuotaEnforcer, Tick, new, tick}
use btest_rs.Enforcer.Ticks.{last_slot_ended}

-- One free slot is left for the address.
abbrev nearly_full : QuotaManager
nearly_full = record manager { max_conn_per_ip = 1 }

-- A check each second, and two seconds at most.
abbrev enforcer : QuotaEnforcer
enforcer = record {
  username = name;
  ip = address;
  check_interval = 1000000000;
  max_duration = 2000000000;
}

new_lem : new name address 1 2 ≡ enforcer
unfolding new
new_lem = refl

abbrev fresh : BandwidthState
fresh = record {
  tx_bytes = 0;
  rx_bytes = 0;
  tx_speed = 0;
  tx_speed_changed = false;
  running = true;
  rx_packets = 0;
  rx_lost_packets = 0;
  last_udp_seq = 0;
  total_tx_bytes = 0;
  total_rx_bytes = 0;
  total_lost_packets = 0;
  intervals = 0;
  remote_cpu = 0;
  byte_budget = 1000;
}

abbrev at : ℕ → QuotaManager → BandwidthState → Tick
at elapsed q s = record { elapsed = elapsed; clock = clock; db = db; quota_mgr = q; state = s }

abbrev late : Tick
late = at 2000000000 manager fresh

late_passed : tick enforcer late ≡ some (max_duration, stop fresh)
unfolding tick
late_passed = refl

user_passes : check_user (connect address nearly_full) clock db name ≡ accept
unfolding check_user connect add_one limit_check get_user get_daily_usage get_weekly_usage
    get_monthly_usage sum_where bytes_eq
user_passes = refl

one_slot : active_connections_count address nearly_full + 1 ≡ nearly_full.max_conn_per_ip
unfolding active_connections_count count_of
one_slot = refl

last_slot_ended_example :
    tick enforcer (at 1000000000 (connect address nearly_full) fresh)
    ≡ some (ip_daily_quota, stop fresh)
last_slot_ended_example =
    last_slot_ended enforcer (at 1000000000 (connect address nearly_full) fresh) nearly_full refl
      one_slot (omega arith) refl (omega arith) user_passes
