-- ===== src/Server/Spawn.antt =====
-- The tasks that the tests of src/server.rs start, by the direction of the command, and any run of
-- them. A task that ends before the test does is one that takes no more turns.
pub mod Suitable
pub mod Silence
pub mod Reporting
mod Tests
use btest_rs.Base.{
  ℕ, zero, suc, ◌+◌, ◌%◌, ◌≡◌, Bool, true, false, ◌&&◌, not, List, [], ◌∷◌, ◌++◌, Option,
  if◌then◌else◌, ltb, u16_mod,
}
use btest_rs.Bandwidth.{BandwidthState, stop}
use btest_rs.Protocol.Command
use btest_rs.Protocol.Command.{Command}
use btest_rs.Server.Tcp.{TcpTx, TxPass, Read, tcp_tx_turn, tcp_rx_turn, tcp_status_turn, both_turn}
use btest_rs.Server.Udp.{UdpTx, UdpPass, Arrival, IsTaken, udp_tx_turn, udp_rx_turn}
use btest_rs.Server.Status.{Exchanger, StatusPass, report_turn, exchange_turn}

-- The loops, with the size of a packet and the speed at the start of the senders.
pub data Task : Type 0 where
  tcp_tx_with_status : ℕ → ℕ → Task
  tcp_tx_loop : ℕ → ℕ → Task
  tcp_status_sender : Task
  tcp_rx_loop : Task
  status_report_loop : Task
  print_sent : Task  -- the ticks of a bidirectional test
  udp_tx_loop : ℕ → ℕ → Bool → Task  -- the last is `multi_conn`
  udp_rx_loop : Task
  udp_status_loop : Task

-- The task that gets the writing half of a connection; without one the half is kept open.
unfoldable pub writer_task : Command → List Task
unfolding Command.server_tx Command.server_rx
writer_task c =
    if Command.server_tx c && Command.server_rx c
    then tcp_tx_with_status c.tx_size c.remote_tx_speed ∷ []
    else if Command.server_tx c
    then tcp_tx_loop c.tx_size c.remote_tx_speed ∷ []
    else if Command.server_rx c
    then tcp_status_sender ∷ []
    else []

-- The task that gets the reading half.
unfoldable pub reader_task : Command → List Task
unfolding Command.server_rx
reader_task c = if Command.server_rx c then tcp_rx_loop ∷ [] else []

-- What the function of the test itself does until the end. A test that only receives waits.
unfoldable pub main_task : Command → List Task
unfolding Command.server_tx Command.server_rx
main_task c =
    if Command.server_tx c && not (Command.server_rx c)
    then status_report_loop ∷ []
    else if Command.server_tx c && Command.server_rx c
    then print_sent ∷ []
    else []

unfoldable pub run_tcp_test_inner : Command → List Task
unfolding writer_task reader_task main_task
run_tcp_test_inner c = writer_task c ++ (reader_task c ++ main_task c)

-- The tasks of a number of connections.
unfoldable pub stream_tasks : ℕ → Command → List Task
unfolding writer_task reader_task
stream_tasks zero c = []
stream_tasks (suc n) c = writer_task c ++ (reader_task c ++ stream_tasks n c)

unfoldable pub run_tcp_multiconn_inner : ℕ → Command → List Task
unfolding stream_tasks
run_tcp_multiconn_inner streams c = stream_tasks streams c ++ (status_report_loop ∷ [])

unfoldable pub run_udp_test_inner : Command → List Task
unfolding Command.server_tx Command.server_rx
run_udp_test_inner c =
    (if Command.server_tx c
      then udp_tx_loop c.tx_size c.remote_tx_speed (ltb 0 c.tcp_conn_count) ∷ []
      else [])
    ++ ((if Command.server_rx c then udp_rx_loop ∷ [] else []) ++ (udp_status_loop ∷ []))

-- The tests of a command.
pub data IsTest (c : Command) : List Task → Type 0 where
  single : IsTest c (run_tcp_test_inner c)
  several : (streams : ℕ) → IsTest c (run_tcp_multiconn_inner streams c)
  udp : IsTest c (run_udp_test_inner c)

-- One turn of a task.
pub data Turns (c : Command) : Task → BandwidthState → BandwidthState → Type 0 where
  with_status :
      {size speed : ℕ} (t : TcpTx) (e : TxPass) (s : BandwidthState)
      → t.tx_size ≡ size
      → t.send_status ≡ true
      → Turns c (tcp_tx_with_status size speed) s (tcp_tx_turn t e s).shared
  tcp_tx :
      {size speed : ℕ} (t : TcpTx) (e : TxPass) (s : BandwidthState)
      → t.tx_size ≡ size
      → t.send_status ≡ false
      → Turns c (tcp_tx_loop size speed) s (tcp_tx_turn t e s).shared
  status :
      (seq cpu : ℕ) (written : Bool) (s : BandwidthState)
      → Turns c tcp_status_sender s (tcp_status_turn seq cpu written s).shared
  tcp_rx : (r : Read) (s : BandwidthState) → Turns c tcp_rx_loop s (tcp_rx_turn r s).0
  report :
      (seq : ℕ) (s : BandwidthState) → Turns c status_report_loop s (report_turn c seq s).shared
  ticks : (seq : ℕ) (s : BandwidthState) → Turns c print_sent s (both_turn seq s).shared
  udp_tx :
      {size speed : ℕ} {multi : Bool} (t : UdpTx) (e : UdpPass) (s : BandwidthState)
      → t.tx_size ≡ size
      → IsTaken t.tx_size e.sent
      → Turns c (udp_tx_loop size speed multi) s (udp_tx_turn t e s).shared
  udp_rx :
      (last : Option ℕ) (a : Arrival) (s : BandwidthState)
      → Turns c udp_rx_loop s (udp_rx_turn last a s).shared
  exchange :
      (t : Exchanger) (e : StatusPass) (s : BandwidthState)
      → Turns c udp_status_loop s (exchange_turn c t e s).shared

-- A task is one of a list.
pub data IsOneOf {ℓ} {A : Type ℓ} (k : A) : List A → Type ℓ where
  first : {ks : List A} → IsOneOf k (k ∷ ks)
  later : {j : A} {ks : List A} → IsOneOf k ks → IsOneOf k (j ∷ ks)

-- A run of the tasks `ks`: any number of turns, in any order, and the test stopped from outside.
pub data Run (c : Command) (ks : List Task) : BandwidthState → BandwidthState → Type 0 where
  done : (s : BandwidthState) → Run c ks s s
  turn :
      {k : Task} {s s' s'' : BandwidthState}
      → IsOneOf k ks
      → Turns c k s s'
      → Run c ks s' s''
      → Run c ks s s''
  stopped : {s s' : BandwidthState} → Run c ks (stop s) s' → Run c ks s s'
