-- ===== src/UserDb/SessionTests.antt =====
-- Runs of the statements on sessions, and of the lists.
use btest_rs.Base.{◌≡◌, refl, none, some, [], ◌∷◌, codes, bytes_eq, bytes_le, ◌==◌, if◌then◌else◌}
use btest_rs.UserDb.{User, UserDb}
use btest_rs.UserDb.Table.{upsert, sum_where}
use btest_rs.UserDb.Users.{list_users}
use btest_rs.UserDb.Usage.{record_ip_usage}
use btest_rs.UserDb.Sessions.{start_session, end_session, get_ip_totals}
use btest_rs.UserDb.Sessions.Laws.{find_row, IsNumbered, ended_row, session_tracked}
use btest_rs.Quota.Samples.{clock, name, address, testuser, db}

abbrev opened : UserDb
opened = record db {
  sessions =
      record (ended_row 1 (codes "1") name address (codes "TCP") (codes "RX") (codes "2") 0 0) {
        ended_at = none;
      }
      ∷ [];
  next_session_id = 2;
}

abbrev closed : UserDb
closed = record db {
  sessions = ended_row 1 (codes "1") name address (codes "TCP") (codes "RX") (codes "2") 5 7 ∷ [];
  next_session_id = 2;
}

started : start_session (codes "1") name address (codes "TCP") (codes "RX") db ≡ some (1, opened)
unfolding start_session
started = refl

ended : end_session (codes "2") 1 5 7 opened ≡ some closed
unfolding end_session
ended = refl

session_tracked_example :
    (find_row 1 closed.sessions ≡ (
      if 1 == 1
      then some (ended_row 1 (codes "1") name address (codes "TCP") (codes "RX") (codes "2") 5 7)
      else find_row 1 db.sessions))
    × IsNumbered 2 closed.sessions
session_tracked_example =
    session_tracked (codes "1") (codes "2") name address (codes "TCP") (codes "RX") 5 7 db 1 tt
      started ended

abbrev zoe : User
zoe = record testuser { username = codes "zoe" }

abbrev two_users : UserDb
two_users = record db { users = zoe ∷ testuser ∷ [] }

in_order : list_users two_users ≡ some (testuser ∷ zoe ∷ [])
unfolding list_users bytes_le
in_order = refl

abbrev once : UserDb
once = record db {
  ip_usage =
      record { owner = address; date = clock.today; first = 7; second = 5; test_count = 1 } ∷ [];
}

abbrev twice : UserDb
twice = record db {
  ip_usage =
      record { owner = address; date = clock.today; first = 10; second = 6; test_count = 2 } ∷ [];
}

second_test : record_ip_usage clock address 1 3 once ≡ some twice
unfolding record_ip_usage upsert bytes_eq
second_test = refl

before : get_ip_totals address once ≡ some (1, 7, 5)
unfolding get_ip_totals sum_where bytes_eq
before = refl

after : get_ip_totals address twice ≡ some (1, 10, 6)
unfolding get_ip_totals sum_where bytes_eq
after = refl
