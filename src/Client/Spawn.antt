-- ===== src/Client/Spawn.antt =====
-- The tasks that the tests of src/client.rs start, by the direction of the command, and any run of
-- them. A task that ends before the test does is one that takes no more turns.
pub mod Silence
use btest_rs.Base.{ℕ, Bool, true, false, List, [], ◌∷◌, ◌++◌, Option, Bytes, ◌≡◌, if◌then◌else◌}
use btest_rs.Bandwidth.{BandwidthState, stop}
use btest_rs.Protocol.Command
use btest_rs.Protocol.Command.{Command}
use btest_rs.Server.Udp.{UdpTx, UdpPass, Arrival}
use btest_rs.Server.Status.{Exchanger, StatusPass}
use btest_rs.Server.Spawn.{IsOneOf}
use btest_rs.Client.Tcp.{
  ClientTx, SendPass, ReadBytes, client_tx_turn, client_rx_turn, status_reader_turn,
}
use btest_rs.Client.Udp.{client_udp_tx_turn, client_udp_rx_turn}
use btest_rs.Client.Status.{client_report_turn, client_exchange_turn}

-- The loops, with the size of a packet and the speed at the start of the senders.
pub data ClientTask : Type 0 where
  tcp_client_tx_loop : ℕ → ℕ → ClientTask
  tcp_client_rx_loop : ClientTask
  tcp_client_status_reader : ClientTask
  client_status_loop : ClientTask
  udp_client_tx_loop : ℕ → ℕ → ClientTask
  udp_client_rx_loop : ClientTask
  udp_client_status_loop : ClientTask

-- The task on the reading half: the data, or only the status messages of the server. With neither
-- the half is kept open.
unfoldable pub client_reader : Command → List ClientTask
unfolding Command.client_tx Command.client_rx
client_reader c =
    if Command.client_rx c
    then tcp_client_rx_loop ∷ []
    else if Command.client_tx c
    then tcp_client_status_reader ∷ []
    else []

unfoldable pub run_tcp_test_client : Command → List ClientTask
unfolding client_reader Command.client_tx
run_tcp_test_client c =
    (if Command.client_tx c then tcp_client_tx_loop c.tx_size c.local_tx_speed ∷ [] else [])
    ++ (client_reader c ++ (client_status_loop ∷ []))

unfoldable pub run_udp_test_client : Command → List ClientTask
unfolding Command.client_tx Command.client_rx
run_udp_test_client c =
    (if Command.client_tx c then udp_client_tx_loop c.tx_size c.local_tx_speed ∷ [] else [])
    ++ ((if Command.client_rx c then udp_client_rx_loop ∷ [] else [])
        ++ (udp_client_status_loop ∷ []))

-- The tests of a command.
pub data IsClientTest (c : Command) : List ClientTask → Type 0 where
  tcp : IsClientTest c (run_tcp_test_client c)
  udp : IsClientTest c (run_udp_test_client c)

-- One turn of a task.
pub data ClientTurns (c : Command) : ClientTask → BandwidthState → BandwidthState → Type 0 where
  tcp_tx :
      {size speed : ℕ} (t : ClientTx) (e : SendPass) (s : BandwidthState)
      → t.tx_size ≡ size
      → ClientTurns c (tcp_client_tx_loop size speed) s (client_tx_turn t e s).shared
  tcp_rx :
      (r : ReadBytes) (s : BandwidthState)
      → ClientTurns c tcp_client_rx_loop s (client_rx_turn r s).0
  reader :
      (buf : Option Bytes) (s : BandwidthState)
      → ClientTurns c tcp_client_status_reader s (status_reader_turn buf s).0
  report :
      (seq : ℕ) (s : BandwidthState)
      → ClientTurns c client_status_loop s (client_report_turn c seq s).shared
  udp_tx :
      {size speed : ℕ} (t : UdpTx) (e : UdpPass) (s : BandwidthState)
      → t.tx_size ≡ size
      → ClientTurns c (udp_client_tx_loop size speed) s (client_udp_tx_turn t e s).shared
  udp_rx :
      (last : Option ℕ) (a : Arrival) (s : BandwidthState)
      → ClientTurns c udp_client_rx_loop s (client_udp_rx_turn last a s).shared
  exchange :
      (t : Exchanger) (e : StatusPass) (s : BandwidthState)
      → ClientTurns c udp_client_status_loop s (client_exchange_turn c t e s).shared

-- A run of the tasks `ks`: any number of turns, in any order, and the test stopped from outside.
pub data ClientRun (c : Command) (ks : List ClientTask)
    : BandwidthState → BandwidthState → Type 0 where
  done : (s : BandwidthState) → ClientRun c ks s s
  turn :
      {k : ClientTask} {s s' s'' : BandwidthState}
      → IsOneOf k ks
      → ClientTurns c k s s'
      → ClientRun c ks s' s''
      → ClientRun c ks s s''
  stopped : {s s' : BandwidthState} → ClientRun c ks (stop s) s' → ClientRun c ks s s'
