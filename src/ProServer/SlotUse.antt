-- ===== src/ProServer/SlotUse.antt =====
-- The connection count of an address over one connection's life in src/server_pro/server_loop.rs.
use btest_rs.Base.{
  refl, ℕ, ap, List, [], ◌∷◌, Option, ◌%◌, ◌+◌, ◌-◌, ◌<◌, ◌≡◌, ◌∙◌, true, none, some, Bytes, length,
  u32_mod, arith, bytes_eq_refl,
}
use btest_rs.Protocol.Command
use btest_rs.Protocol.Command.{Command}
use btest_rs.Protocol.Token.{is_tcp_multi, ok_response, token_of}
use btest_rs.Stream.{Stream, ok, read_exact, write_all}
use btest_rs.UserDb.{Clock}
use btest_rs.Quota.{accept, Direction, check_ip, check_user, connect, active_connections_count}
use btest_rs.Quota.Slots.{disconnect-connect, count_changes}
use btest_rs.ProServer.Login.{log_in}
use btest_rs.ProServer.Waiting.{TcpSession, join, insert, Joined, not_waiting, joined}
use btest_rs.ProServer.{
  World, Connection, Handled, failed, no_result, tests, admit_user, primary, join_or_primary,
  handle_pro_connection, finish, is_primary,
}

module _ (md5 : Bytes → Bytes) (k : Clock) (n : Connection) (w : World) where
  ends_early : length n.stream.incoming < 16 → handle_pro_connection md5 k n w ≡ (w, failed)
  unfolding handle_pro_connection read_exact write_all
  ends_early h = ground arith

  -- A connection that ends before its 16 bytes takes one off the count of its address, though it was
  -- never counted.
  pub early_end_frees_slot :
      length n.stream.incoming < 16
      → let r = handle_pro_connection md5 k n w in
        active_connections_count n.ip (finish n.ip r.1 r.0).quota_mgr
        ≡ active_connections_count n.ip w.quota_mgr - 1
  unfolding finish is_primary
  early_end_frees_slot h =
      rw (ends_early h) ((count_changes w.quota_mgr n.ip n.ip).1 ∙ rw (bytes_eq_refl n.ip))

  admitted_connected :
      (c : Command) (q : World) (username : Bytes)
      → (admit_user md5 k n c q username).0.quota_mgr ≡ q.quota_mgr
  unfolding admit_user
  admitted_connected c q username = ground arith

  test_connected :
      (cmd_buf : Bytes) (s : Stream) {username : Bytes} {c : Command}
      → (primary md5 k n cmd_buf s w).1 ≡ tests username c
      → (primary md5 k n cmd_buf s w).0.quota_mgr ≡ connect n.ip w.quota_mgr
  unfolding primary
  test_connected cmd_buf s h = grind (arith, admitted_connected)

  join_starts_no_test :
      (j : Joined) (cmd_buf : Bytes) (s : Stream) {username : Bytes} {c : Command}
      → (join_or_primary md5 k j n cmd_buf s w).1 ≡ tests username c
      → (join_or_primary md5 k j n cmd_buf s w).0.quota_mgr ≡ connect n.ip w.quota_mgr
  unfolding join_or_primary write_all
  join_starts_no_test not_waiting cmd_buf s h = test_connected cmd_buf s h
  join_starts_no_test (joined sessions none) cmd_buf s h = ground arith
  join_starts_no_test (joined sessions (some session)) cmd_buf s h = ground arith

  handled_connected :
      {username : Bytes} {c : Command}
      → (handle_pro_connection md5 k n w).1 ≡ tests username c
      → (handle_pro_connection md5 k n w).0.quota_mgr ≡ connect n.ip w.quota_mgr
  unfolding handle_pro_connection read_exact write_all
  handled_connected h = grind (arith, join_starts_no_test)

  -- A connection that goes on to a test of its own has taken one slot of its address, and its end
  -- gives it back: every address, with a count that has room for one more in 32 bits, counts what
  -- it did before.
  pub test_gives_slot_back :
      {username : Bytes} {c : Command} (other : Bytes)
      → active_connections_count other w.quota_mgr + 1 < u32_mod
      → let r = handle_pro_connection md5 k n w in
        r.1 ≡ tests username c
        → active_connections_count other (finish n.ip r.1 r.0).quota_mgr
          ≡ active_connections_count other w.quota_mgr
  unfolding finish is_primary
  test_gives_slot_back other small h =
      rw (h, handled_connected h) (disconnect-connect w.quota_mgr n.ip other small)

  waits :
      (cmd_buf : Bytes) (s : Stream) {s' : Stream} {username : Bytes}
      → let c = Command.deserialize cmd_buf in
        check_ip w.quota_mgr k w.db n.ip Direction.both ≡ accept
        → log_in md5 w.db n.challenge (ok_response c n.token) s ≡ ok username s'
        → check_user (connect n.ip w.quota_mgr) k w.db username ≡ accept
        → is_tcp_multi c ≡ true
        → ((primary md5 k n cmd_buf s w).1 ≡ no_result)
          × ((primary md5 k n cmd_buf s w).0.quota_mgr ≡ connect n.ip w.quota_mgr)
  unfolding primary admit_user
  waits cmd_buf s free logged quota multi = ground arith

ended_registered : (ip : Bytes) (r : World × Handled) → r.1 ≡ no_result → finish ip r.1 r.0 ≡ r.0
unfolding finish is_primary
ended_registered ip r e = rw e refl

-- The session that such a connection leaves behind.
pub session_left :
    (md5 : Bytes → Bytes) (k : Clock) (n : Connection) (w : World) (cmd_buf : Bytes) (s : Stream)
    {s' : Stream} {username : Bytes}
    → let c = Command.deserialize cmd_buf in
      check_ip w.quota_mgr k w.db n.ip Direction.both ≡ accept
      → log_in md5 w.db n.challenge (ok_response c n.token) s ≡ ok username s'
      → check_user (connect n.ip w.quota_mgr) k w.db username ≡ accept
      → is_tcp_multi c ≡ true
      → let r = primary md5 k n cmd_buf s w in
        (finish n.ip r.1 r.0).sessions
        ≡ insert n.token
            (record {
              peer_ip = n.ip;
              username = username;
              cmd = c;
              streams = n.id ∷ [];
              expected = c.tcp_conn_count;
            })
            w.sessions
unfolding primary admit_user
session_left md5 k n w cmd_buf s free logged quota multi =
    let r = primary md5 k n cmd_buf s w in
    let kept = waits md5 k n w cmd_buf s free logged quota multi in
    let left : r.0.sessions
        ≡ insert n.token
            (record {
              peer_ip = n.ip;
              username = _;
              cmd = Command.deserialize cmd_buf;
              streams = n.id ∷ [];
              expected = (Command.deserialize cmd_buf).tcp_conn_count;
            })
            w.sessions =
      ground arith in
    ap (λ v. v.sessions) (ended_registered n.ip r kept.0) ∙ left

-- The end of the handler of a connection that joins a session.
unfoldable pub after_join : (Bytes → Bytes) → Clock → Connection → Bytes → Stream → World → World
unfolding join_or_primary finish
after_join md5 k m cmd_buf s v =
    let r = join_or_primary md5 k (join m.id m.ip (token_of cmd_buf) v.sessions) m cmd_buf s v in
    finish m.ip r.1 r.0

-- Any number of connections, each of which joins a session, and is still open when it is answered.
pub data Joins (md5 : Bytes → Bytes) (k : Clock) : World → World → Type 0 where
  none_joins : (v : World) → Joins md5 k v v
  one_joins :
      (m : Connection) (cmd_buf : Bytes) (s : Stream) {v v' : World}
      (sessions : List (ℕ × TcpSession)) (full : Option TcpSession)
      → join m.id m.ip (token_of cmd_buf) v.sessions ≡ joined sessions full
      → s.writable ≡ true
      → Joins md5 k (after_join md5 k m cmd_buf s v) v'
      → Joins md5 k v v'

module _ (md5 : Bytes → Bytes) (k : Clock) where
  join_counts_nothing :
      (m : Connection) (cmd_buf : Bytes) (s : Stream) (v : World) (sessions : List (ℕ × TcpSession))
      (full : Option TcpSession)
      → join m.id m.ip (token_of cmd_buf) v.sessions ≡ joined sessions full
      → s.writable ≡ true
      → (after_join md5 k m cmd_buf s v).quota_mgr ≡ v.quota_mgr
  unfolding after_join join_or_primary write_all finish is_primary
  join_counts_nothing m cmd_buf s v sessions none e writes = rw (e, writes) refl
  join_counts_nothing m cmd_buf s v sessions (some session) e writes = rw (e, writes) refl

  Joins-counts_nothing : {v v' : World} → Joins md5 k v v' → v'.quota_mgr ≡ v.quota_mgr
  Joins-counts_nothing (none_joins v) = refl
  Joins-counts_nothing (one_joins m cmd_buf s {v} sessions full e writes rest) =
      Joins-counts_nothing rest ∙ join_counts_nothing m cmd_buf s v sessions full e writes

  -- A primary connection that the checks and the login accept and that registers a test with several
  -- connections takes a slot of its address. Neither the end of its own handler nor the ends of the
  -- handlers of any number of connections that then join sessions, the one included that completes
  -- the session and starts the test, give it back.
  pub waiting_keeps_slot :
      (n : Connection) (w : World) (cmd_buf : Bytes) (s : Stream) {s' : Stream} {username : Bytes}
      {later : World}
      → let c = Command.deserialize cmd_buf in
        check_ip w.quota_mgr k w.db n.ip Direction.both ≡ accept
        → log_in md5 w.db n.challenge (ok_response c n.token) s ≡ ok username s'
        → check_user (connect n.ip w.quota_mgr) k w.db username ≡ accept
        → is_tcp_multi c ≡ true
        → let r = primary md5 k n cmd_buf s w in
          Joins md5 k (finish n.ip r.1 r.0) later
          → active_connections_count n.ip later.quota_mgr
            ≡ (active_connections_count n.ip w.quota_mgr + 1) % u32_mod
  unfolding finish is_primary
  waiting_keeps_slot n w cmd_buf s free logged quota multi joins =
      let kept = waits md5 k n w cmd_buf s free logged quota multi in
      let registered = ended_registered n.ip (primary md5 k n cmd_buf s w) kept.0 in
      rw (Joins-counts_nothing joins, ap (λ v. v.quota_mgr) registered, kept.1)
        ((count_changes w.quota_mgr n.ip n.ip).0 ∙ rw (bytes_eq_refl n.ip))
