-- ===== src/ProServer.antt =====
-- The connection handler of src/server_pro/server_loop.rs: quota checks, authentication against the
-- user database, and the sessions that wait for more TCP connections.
pub mod Login
pub mod Waiting
pub mod Settlement
pub mod Ending
pub mod FullTest
pub mod CommandLine
mod TestRuns
pub mod SlotUse
mod Tests
use btest_rs.Base.{
  ℕ, ◌/◌, ◌%◌, get_or, Bool, true, false, not, ◌&&◌, List, [], ◌∷◌, ◌++◌, Option, none, some, Bytes,
  ltb, if◌then◌else◌,
}
use btest_rs.Protocol.{hello, auth_ok}
use btest_rs.Protocol.Command
use btest_rs.Protocol.Command.{Command}
use btest_rs.Protocol.Token.{is_tcp_multi, ok_response, token_of, joined_reply}
use btest_rs.Stream.{Stream, Outcome, Exchange, ok, err, ◌>>=◌, ◌>>◌, read_exact, write_all}
use btest_rs.UserDb.{UserDb, Clock}
use btest_rs.Quota.{
  QuotaManager, Direction, Verdict, accept, reject, check_ip, check_user, connect, disconnect,
}
use Login.{log_in}
use Waiting.{TcpSession, Joined, not_waiting, joined, join, insert}

-- What the handlers share. The sessions are keyed by their token.
pub record World : Type 0 where
  pub db : UserDb
  pub quota_mgr : QuotaManager
  pub sessions : List (ℕ × TcpSession)

-- One connection: its number, its address, its stream, and what the handler draws for it.
pub record Connection : Type 0 where
  pub id : ℕ
  pub ip : Bytes
  pub stream : Stream
  pub challenge : Bytes
  pub token : ℕ  -- `rand::random::<u16>() | 0x0101`

-- How the handler ends, or the test that it goes on with: an error, the end without a result, the
-- result of a user over quota, a session that got its last connection, or a test on this one.
pub data Handled : Type 0 where
  failed : Handled
  no_result : Handled
  over_quota : Bytes → Handled
  starts : TcpSession → Handled
  tests : Bytes → Command → Handled

module _ (md5 : Bytes → Bytes) (k : Clock) where
  -- The user is known: the quota, and the session of a test with several connections.
  unfoldable pub admit_user : Connection → Command → World → Bytes → World × Handled
  unfolding is_tcp_multi
  admit_user n c w username = elim (check_user w.quota_mgr k w.db username) [
    | reject e ↦ (w, over_quota username)
    | accept ↦
        if is_tcp_multi c
        then (
          record w {
            sessions =
                insert n.token
                  (record {
                    peer_ip = n.ip;
                    username = username;
                    cmd = c;
                    streams = n.id ∷ [];
                    expected = c.tcp_conn_count;
                  })
                  w.sessions;
          },
          no_result,
        )
        else (w, tests username c)
  ]

  -- A primary connection, after its 16 bytes.
  unfoldable pub primary : Connection → Bytes → Stream → World → World × Handled
  unfolding ok_response admit_user
  primary n cmd_buf s w = elim (check_ip w.quota_mgr k w.db n.ip Direction.both) [
    | reject e ↦ (w, no_result)
    | accept ↦
        let c = Command.deserialize cmd_buf in
        let connected = record w { quota_mgr = connect n.ip w.quota_mgr } in
        elim (log_in md5 w.db n.challenge (ok_response c n.token) s) [
          | err e s' ↦ (connected, failed)
          | ok username s' ↦ admit_user n c connected username
        ]
  ]

  -- A connection that joins: the reply, and then its place in the session.
  unfoldable pub join_or_primary : Joined → Connection → Bytes → Stream → World → World × Handled
  unfolding primary
  join_or_primary not_waiting n cmd_buf s w = primary n cmd_buf s w
  join_or_primary (joined sessions full) n cmd_buf s w = elim (write_all (joined_reply cmd_buf) s) [
    | err e s' ↦ (w, failed)
    | ok _ s' ↦ (
      record w { sessions = sessions },
      elim full [ none ↦ no_result | some session ↦ starts session ],
    )
  ]

  unfoldable pub handle_pro_connection : Connection → World → World × Handled
  unfolding join_or_primary
  handle_pro_connection n w = elim ((write_all hello >> read_exact 16) n.stream) [
    | err e s ↦ (w, failed)
    | ok cmd_buf s ↦ join_or_primary (join n.id n.ip (token_of cmd_buf) w.sessions) n cmd_buf s w
  ]

-- What `run_pro_server` does when a handler has ended, the test included: every error and every
-- result takes a connection off.
unfoldable pub is_primary : Handled → Bool
is_primary failed = true
is_primary no_result = false
is_primary (over_quota username) = true
is_primary (starts session) = false
is_primary (tests username c) = true

unfoldable pub finish : Bytes → Handled → World → World
unfolding is_primary
finish ip h w = if is_primary h then record w { quota_mgr = disconnect ip w.quota_mgr } else w
