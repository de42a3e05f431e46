-- ===== src/UserDb/Tests.antt =====
-- Runs and instances for the database.
use btest_rs.Base.{◌≡◌, refl, true, false, [], ◌∷◌, some, Bytes, bytes_eq, bytes_le}
use btest_rs.UserDb.{UserDb, Clock}
use btest_rs.UserDb.Table.{upsert}
use btest_rs.UserDb.Usage.{record_usage, record_ip_usage}
use btest_rs.UserDb.Usage.Recorded.{IsClock}
use btest_rs.UserDb.Users.{add_user, delete_user, set_user_enabled}
use btest_rs.UserDb.Users.Laws.{new_user}

abbrev empty_db : UserDb
empty_db = record {
  users = [];
  next_user_id = 1;
  usage = [];
  ip_usage = [];
  sessions = [];
  next_session_id = 1;
  fails = λ _. false;
}

abbrev alice : Bytes
alice = 97 ∷ []

abbrev bob : Bytes
bob = 98 ∷ []

-- A digest for the runs: the text itself.
abbrev plain : Bytes → Bytes
plain s = s

abbrev with_alice : UserDb
with_alice = record empty_db { users = new_user plain alice bob 1 ∷ []; next_user_id = 2 }

alice_added : add_user plain alice bob empty_db ≡ some with_alice
unfolding add_user
alice_added = refl

abbrev alice_off : UserDb
alice_off = record with_alice {
  users = record (new_user plain alice bob 1) { enabled = false } ∷ [];
}

alice_disabled : set_user_enabled alice false with_alice ≡ some alice_off
unfolding set_user_enabled bytes_eq
alice_disabled = refl

alice_deleted : delete_user alice with_alice ≡ some (record with_alice { users = [] }, true)
unfolding delete_user bytes_eq
alice_deleted = refl

abbrev clock : Clock
clock = record { today = 51 ∷ []; week_ago = 50 ∷ []; month_ago = 49 ∷ [] }

clock-IsClock : IsClock clock
unfolding bytes_le
clock-IsClock = record { week = refl; month = refl }

abbrev recorded : UserDb
recorded = record empty_db {
  usage = record { owner = alice; date = clock.today; first = 5; second = 7; test_count = 1 } ∷ [];
}

five_sent : record_usage clock alice 5 7 empty_db ≡ some recorded
unfolding record_usage upsert
five_sent = refl

abbrev ip_recorded : UserDb
ip_recorded = record empty_db {
  ip_usage =
      record { owner = alice; date = clock.today; first = 7; second = 5; test_count = 1 } ∷ [];
}

seven_received : record_ip_usage clock alice 5 7 empty_db ≡ some ip_recorded
unfolding record_ip_usage upsert
seven_received = refl
