-- ===== src/CommandLine/Speeds.antt =====
-- Which speed the sender of a test is given.
use btest_rs.Base.{
  ℕ, ◌≡◌, ◌⊎◌, inl, inr, refl, subst, Bool, true, false, Option, none, some, Bytes, arith,
}
use btest_rs.Bandwidth.{calc_send_interval}
use btest_rs.Protocol.Command
use btest_rs.Protocol.Command.{Command, client_tx, server_tx}
use btest_rs.Client.Handshake.{command}
use btest_rs.CommandLine.{run, plan, planned, direction_of, speeds}

-- The interval of the client's sender, and of the server's.
abbrev pub client_interval : Command → ℕ → Option ℕ
client_interval c size = calc_send_interval c.local_tx_speed size

abbrev pub server_interval : Command → ℕ → Option ℕ
server_interval c size = calc_send_interval c.remote_tx_speed size

-- A test in one direction whose sender has no pace, and a test of both with one pace.
abbrev pub IsFreeUpload : ℕ → Command → Type 0
IsFreeUpload size c = (client_tx c ≡ true) × (server_tx c ≡ false) × (client_interval c size ≡ none)

abbrev pub IsFreeDownload : ℕ → Command → Type 0
IsFreeDownload size c =
    (client_tx c ≡ false) × (server_tx c ≡ true) × (server_interval c size ≡ none)

abbrev pub IsEvenBoth : ℕ → Command → Type 0
IsEvenBoth size c =
    (client_tx c ≡ true) × (server_tx c ≡ true) × (client_interval c size ≡ server_interval c size)

-- The numbers of a planned test, for a speed.
planned_numbers :
    (d : ℕ) (bw : Option ℕ) (direction tx rx : ℕ)
    → planned (some d) bw ≡ run direction tx rx
    → (speed : ℕ) × (d ≡ direction) × ((speeds d speed).0 ≡ tx) × ((speeds d speed).1 ≡ rx)
planned_numbers d none direction tx rx h = absurd (ground arith)
planned_numbers d (some bw) direction tx rx h = (bw, ground arith, ground arith, ground arith)

upload_unpaced :
    (use_udp : Bool) (size speed : ℕ)
    → IsFreeUpload size (command use_udp 1 (speeds 1 speed).0 (speeds 1 speed).1)
unfolding speeds command client_tx server_tx calc_send_interval Command.new
upload_unpaced use_udp size speed = (refl, refl, refl)

download_unpaced :
    (use_udp : Bool) (size speed : ℕ)
    → IsFreeDownload size (command use_udp 2 (speeds 2 speed).0 (speeds 2 speed).1)
unfolding speeds command client_tx server_tx calc_send_interval Command.new
download_unpaced use_udp size speed = (refl, refl, refl)

both_paced :
    (use_udp : Bool) (size speed : ℕ)
    → IsEvenBoth size (command use_udp 3 (speeds 3 speed).0 (speeds 3 speed).1)
unfolding speeds command client_tx server_tx calc_send_interval Command.new
both_paced use_udp size speed = (refl, refl, refl)

-- A fact of the command of a planned test.
of_plan :
    (P : Command → Type 0) (use_udp : Bool) (d : ℕ) (bw : Option ℕ) (direction tx rx : ℕ)
    → planned (some d) bw ≡ run direction tx rx
    → ((speed : ℕ) → P (command use_udp d (speeds d speed).0 (speeds d speed).1))
    → P (command use_udp direction tx rx)
of_plan P use_udp d bw direction tx rx h f =
    let n = planned_numbers d bw direction tx rx h in
    subst (λ r. P (command use_udp direction tx r)) n.3
      (subst (λ t. P (command use_udp direction t (speeds d n.0).1)) n.2
        (subst (λ e. P (command use_udp e (speeds d n.0).0 (speeds d n.0).1)) n.1 (f n.0)))

-- A test in one direction is sent without a pace, whatever bandwidth is asked for: the speed is put in
-- the field of the side that does not send. In a test of both directions the two sides have one pace.
pub one_way_unpaced :
    (product : Bytes → ℕ → Option ℕ) (bandwidth : Option Bytes) (use_udp transmit receive : Bool)
    (size direction tx rx : ℕ)
    → plan product transmit receive bandwidth ≡ run direction tx rx
    → let c = command use_udp direction tx rx in
      IsFreeUpload size c ⊎ (IsFreeDownload size c ⊎ IsEvenBoth size c)
unfolding plan direction_of
one_way_unpaced product bandwidth use_udp true false size direction tx rx h =
    inl (of_plan (IsFreeUpload size) use_udp 1 _ direction tx rx h (upload_unpaced use_udp size))
one_way_unpaced product bandwidth use_udp false true size direction tx rx h = inr (
    inl
      (of_plan (IsFreeDownload size) use_udp 2 _ direction tx rx h (download_unpaced use_udp size)))
one_way_unpaced product bandwidth use_udp true true size direction tx rx h =
    inr (inr (of_plan (IsEvenBoth size) use_udp 3 _ direction tx rx h (both_paced use_udp size)))
one_way_unpaced product bandwidth use_udp false false size direction tx rx h = absurd (ground arith)
