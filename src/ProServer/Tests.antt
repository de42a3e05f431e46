-- ===== src/ProServer/Tests.antt =====
-- One connection of src/server_pro/server_loop.rs, over the set-up of the quota tests. The digest is
-- the one of sixteen zeros for everything.
use btest_rs.Base.{
  ap, ◌↔◌, ◌⊎◌, Bool, false, List, ◌+◌, ◌-◌, ◌%◌, ◌≡◌, refl, true, some, [], ◌∷◌, ◌++◌, Bytes, take,
  drop, replicate, arith, u32_mod, find_zero, is_utf8, bytes_eq,
}
use btest_rs.Bandwidth
use btest_rs.Bandwidth.{BandwidthState, set_budget}
use btest_rs.Protocol.{auth_required, auth_failed, auth_ok}
use btest_rs.Protocol.Command
use btest_rs.Protocol.Command.{Command}
use btest_rs.Stream
use btest_rs.Stream.{Stream, ok, err, read_exact, write_all}
use btest_rs.Protocol.Token.{is_tcp_multi, ok_response, token_of}
use btest_rs.Stream.Laws.{open_stream}
use btest_rs.Auth.{compute_auth_hash, received_name}
use btest_rs.UserDb.{User, UserDb, Query, select_password}
use btest_rs.UserDb.Table.{sum_where}
use btest_rs.UserDb.Users.{get_user, get_password, find_user}
use btest_rs.UserDb.Usage.{
  get_daily_usage, get_weekly_usage, get_monthly_usage, get_ip_daily_usage, get_ip_weekly_usage,
  get_ip_monthly_usage, get_ip_daily_inbound, get_ip_weekly_inbound, get_ip_monthly_inbound,
  get_ip_daily_outbound, get_ip_weekly_outbound, get_ip_monthly_outbound,
}
use btest_rs.UserDb.Usage.Recorded.{grow_one}
use btest_rs.Quota.{
  Direction, accept, check_ip, check_user, limit_check, check_ip_combined, check_ip_inbound,
  check_ip_outbound, connect, active_connections_count,
}
use btest_rs.Quota.Connections.{count_of}
use btest_rs.Quota.Samples.{clock, name, address, testuser, db, manager}
use btest_rs.Enforcer
use btest_rs.Enforcer.{QuotaEnforcer, flush_to_db}
use btest_rs.Server.Session.{Action, calls, goes_on, receives, swaps_rx, adds_rx, acts, begin}
use btest_rs.ProServer.Login.{log_in, verify, hash_matches}
use btest_rs.ProServer.Login.Laws.{log_in_decides, failing_query_lets_in}
use btest_rs.ProServer.Waiting.{TcpSession, join, join_session, insert, joined}
use btest_rs.ProServer.Settlement.{test_state, settle, settled_the_wrong_way_round}
use btest_rs.ProServer.{
  World, Connection, tests, handle_pro_connection, join_or_primary, primary, admit_user, finish,
}
use btest_rs.ProServer.SlotUse.{
  early_end_frees_slot, test_gives_slot_back, waiting_keeps_slot, session_left, after_join,
  one_joins, none_joins,
}

abbrev zeros : Bytes → Bytes
zeros _ = replicate 16 0

-- The right digest, and the name of the user.
abbrev response : Bytes
response = replicate 16 0 ++ (name ++ replicate 31 0)

abbrev single : Bytes
single = 1 ∷ 1 ∷ replicate 14 0

abbrev double : Bytes
double = 1 ∷ 1 ∷ 0 ∷ 2 ∷ replicate 12 0

abbrev world : World
world = record { db = db; quota_mgr = manager; sessions = [] }

abbrev connection : Bytes → Connection
connection incoming = record {
  id = 1;
  ip = address;
  stream = open_stream incoming [];
  challenge = replicate 16 5;
  token = 257 + 1024;
}

log_in_decides_example :
    let asked = ([] ++ auth_required) ++ replicate 16 5 in
    let username = received_name (drop 16 response) in
    let r = log_in zeros db (replicate 16 5) auth_ok (open_stream (response ++ []) []) in
    ((r ≡ ok username (open_stream [] (asked ++ auth_ok))) ↔ (
      (u : User) × (find_user username db.users ≡ some u)
      × (u.enabled ≡ true)
      × (take 16 response ≡ compute_auth_hash zeros u.password_raw (replicate 16 5))))
    × ((r ≡ ok username (open_stream [] (asked ++ auth_ok)))
        ⊎ (r ≡ err Stream.auth_failed (open_stream [] (asked ++ auth_failed))))
log_in_decides_example =
    log_in_decides zeros (replicate 16 5) auth_ok db refl response [] [] refl refl

abbrev is_password_query : Query → Bool
is_password_query select_password = true
is_password_query _ = false

-- The query for the password fails.
abbrev broken : UserDb
broken = record db { fails = is_password_query }

-- A digest that is not the right one.
abbrev wrong : Bytes
wrong = replicate 16 77 ++ (name ++ replicate 31 0)

failing_query_lets_in_example :
    log_in zeros broken (replicate 16 5) auth_ok (open_stream (wrong ++ []) [])
    ≡ ok
        (received_name (drop 16 wrong))
        (open_stream [] ((([] ++ auth_required) ++ replicate 16 5) ++ auth_ok))
unfolding bytes_eq received_name is_utf8 find_zero
failing_query_lets_in_example =
    failing_query_lets_in zeros (replicate 16 5) auth_ok broken refl wrong [] [] testuser refl refl
      refl refl

abbrev waiting : TcpSession
waiting = record {
  peer_ip = address;
  username = name;
  cmd = Command.deserialize double;
  streams = 1 ∷ [];
  expected = 2;
}

abbrev lone : TcpSession
lone = record waiting { expected = 1 }

early_end_frees_slot_example :
    let r = handle_pro_connection zeros clock (connection (1 ∷ [])) world in
    active_connections_count address (finish address r.1 r.0).quota_mgr
    ≡ active_connections_count address manager - 1
early_end_frees_slot_example =
    early_end_frees_slot zeros clock (connection (1 ∷ [])) world (omega arith)

handled :
    (handle_pro_connection zeros clock (connection (single ++ response)) world).1
    ≡ tests name (Command.deserialize single)
unfolding handle_pro_connection join_or_primary primary admit_user join token_of read_exact
    write_all check_ip check_user limit_check check_ip_combined check_ip_inbound check_ip_outbound
    count_of get_user get_password log_in verify hash_matches received_name compute_auth_hash
    find_zero is_utf8 bytes_eq get_daily_usage get_weekly_usage get_monthly_usage get_ip_daily_usage
    get_ip_weekly_usage get_ip_monthly_usage get_ip_daily_inbound get_ip_weekly_inbound
    get_ip_monthly_inbound get_ip_daily_outbound get_ip_weekly_outbound get_ip_monthly_outbound
    sum_where is_tcp_multi Command.is_udp Command.deserialize ok_response connect
handled = refl

test_gives_slot_back_example :
    let r = handle_pro_connection zeros clock (connection (single ++ response)) world in
    active_connections_count address (finish address r.1 r.0).quota_mgr
    ≡ active_connections_count address manager
unfolding active_connections_count count_of
test_gives_slot_back_example =
    test_gives_slot_back zeros clock (connection (single ++ response)) world address (omega arith)
      handled

free : check_ip manager clock db address Direction.both ≡ accept
unfolding check_ip limit_check check_ip_combined check_ip_inbound check_ip_outbound count_of
    bytes_eq get_daily_usage get_weekly_usage get_monthly_usage get_ip_daily_usage
    get_ip_weekly_usage get_ip_monthly_usage get_ip_daily_inbound get_ip_weekly_inbound
    get_ip_monthly_inbound get_ip_daily_outbound get_ip_weekly_outbound get_ip_monthly_outbound
    sum_where
free = refl

in_quota : check_user (connect address manager) clock db name ≡ accept
unfolding check_user limit_check connect get_user bytes_eq get_daily_usage get_weekly_usage
    get_monthly_usage get_ip_daily_usage get_ip_weekly_usage get_ip_monthly_usage
    get_ip_daily_inbound get_ip_weekly_inbound get_ip_monthly_inbound get_ip_daily_outbound
    get_ip_weekly_outbound get_ip_monthly_outbound sum_where
in_quota = refl

logged_in :
    log_in zeros db
      (replicate 16 5)
      (ok_response (Command.deserialize double) 1281)
      (open_stream response [])
    ≡ ok name (open_stream [] (((([] ++ auth_required) ++ replicate 16 5) ++ (1 ∷ 5 ∷ 1 ∷ 0 ∷ []))))
unfolding log_in verify hash_matches get_user get_password read_exact write_all received_name
    compute_auth_hash find_zero is_utf8 bytes_eq ok_response is_tcp_multi Command.is_udp
    Command.deserialize
logged_in = refl

several : is_tcp_multi (Command.deserialize double) ≡ true
unfolding is_tcp_multi Command.is_udp Command.deserialize
several = refl

abbrev registered : World
registered =
    let r = primary zeros clock (connection []) double (open_stream response []) world in
    finish address r.1 r.0

-- The token of the session, and the connection that completes it.
abbrev token_bytes : Bytes
token_bytes = 5 ∷ 1 ∷ replicate 14 0

abbrev second : Connection
second = record (connection []) { id = 9 }

waits_as : registered.sessions ≡ (1281, waiting) ∷ []
unfolding insert Command.deserialize
waits_as =
    session_left zeros clock (connection []) world double (open_stream response []) free logged_in
      in_quota several

completes :
    join 9 address (token_of token_bytes) registered.sessions
    ≡ joined [] (some (record waiting { streams = 1 ∷ 9 ∷ [] }))
unfolding join join_session bytes_eq token_of
completes = ap (join 9 address (token_of token_bytes)) waits_as

waiting_keeps_slot_example :
    active_connections_count address
      (after_join zeros clock second token_bytes (open_stream [] []) registered).quota_mgr
    ≡ (active_connections_count address manager + 1) % u32_mod
waiting_keeps_slot_example =
    waiting_keeps_slot zeros clock (connection []) world double (open_stream response []) free
      logged_in in_quota several
      (one_joins second token_bytes (open_stream [] []) _ _ completes refl
        (none_joins (after_join zeros clock second token_bytes (open_stream [] []) registered)))

abbrev start : BandwidthState
start = test_state manager clock name address db

-- The task receives 300 bytes; while they are reported it asks for 150 more, whose count is not
-- swapped out any more, and then for 100, which the budget does not give.
abbrev actions : List Action
actions =
    calls 300
    ∷ goes_on
    ∷ goes_on
    ∷ receives 300
    ∷ swaps_rx
    ∷ calls 150
    ∷ goes_on
    ∷ adds_rx 300
    ∷ goes_on
    ∷ receives 150
    ∷ calls 100
    ∷ goes_on
    ∷ []

abbrev tested : BandwidthState
tested = (acts actions (begin start)).shared

abbrev moved : BandwidthState
moved = record Bandwidth.new { total_tx_bytes = 30; total_rx_bytes = 4 }

abbrev enforcer : QuotaEnforcer
enforcer = Enforcer.new name address 10 0

settled_the_wrong_way_round_example :
    let settled = settle manager clock name address moved db in
    let flushed = flush_to_db enforcer clock moved db in
    (get_ip_daily_inbound clock address settled
      ≡ grow_one true 30 (get_ip_daily_inbound clock address db))
    × (get_ip_daily_outbound clock address settled
        ≡ grow_one true 4 (get_ip_daily_outbound clock address db))
    × (get_ip_daily_inbound clock address flushed
        ≡ grow_one true 4 (get_ip_daily_inbound clock address db))
    × (get_ip_daily_outbound clock address flushed
        ≡ grow_one true 30 (get_ip_daily_outbound clock address db))
unfolding Enforcer.new
settled_the_wrong_way_round_example =
    settled_the_wrong_way_round manager clock name address enforcer moved db
      (record { usage = refl; ip_usage = refl }) refl refl
