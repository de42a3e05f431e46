-- ===== src/Client/Spawn/Silence.antt =====
-- A test of src/client.rs in one direction counts nothing in the other.
use btest_rs.Base.{
  ℕ, ◌≡◌, refl, Bool, true, false, List, Option, none, some, Bytes, length, if◌then◌else◌, arith,
}
use btest_rs.Bandwidth
use btest_rs.Bandwidth.{BandwidthState, stop, record_interval, summary}
use btest_rs.Protocol.Command
use btest_rs.Protocol.Command.{Command}
use btest_rs.Protocol.StatusMessage
use btest_rs.Tasks.{repick, count_sent, count_received, count_packet, hear_status}
use btest_rs.Server.Udp.{UdpTx, UdpPass, Arrival, datagram, failed, timed_out}
use btest_rs.Server.Status.{Exchanger, StatusPass, Heard, message, broken, silence}
use btest_rs.Server.Spawn.Suitable.{all, all-IsOneOf, either_way}
use btest_rs.Client.Tcp.{
  ReadBytes, got, ended, client_tx_turn, packet_sent, client_rx_turn, take_in, store_load,
  find_load, status_reader_turn, read_status,
}
use btest_rs.Client.Udp.{client_udp_tx_turn, client_sent, client_udp_rx_turn, client_arrive}
use btest_rs.Client.Status.{
  client_report_turn, client_exchange_turn, client_exchange_of, client_exchange_report,
}
use btest_rs.Client.Spawn.{
  ClientTask, tcp_client_tx_loop, tcp_client_rx_loop, tcp_client_status_reader, client_status_loop,
  udp_client_tx_loop, udp_client_rx_loop, udp_client_status_loop, client_reader,
  run_tcp_test_client, run_udp_test_client, IsClientTest, tcp, udp, ClientTurns, tcp_tx, tcp_rx,
  reader, report, udp_tx, udp_rx, exchange, ClientRun, done, turn, stopped,
}

-- What the direction of the command lets a task do.
abbrev suits : Command → ClientTask → Bool
suits c (tcp_client_tx_loop size speed) = Command.client_tx c
suits c tcp_client_rx_loop = Command.client_rx c
suits c tcp_client_status_reader = true
suits c client_status_loop = true
suits c (udp_client_tx_loop size speed) = Command.client_tx c
suits c udp_client_rx_loop = Command.client_rx c
suits c udp_client_status_loop = true

tasks_suit : {c : Command} {ks : List ClientTask} → IsClientTest c ks → all (suits c) ks ≡ true
unfolding run_tcp_test_client client_reader run_udp_test_client
tasks_suit tcp = ground arith
tasks_suit udp = ground arith

-- Nothing was received, and nothing was sent.
abbrev NoReceived : BandwidthState → Type 0
NoReceived s = (s.rx_bytes ≡ 0) × (s.total_rx_bytes ≡ 0)

abbrev NoSent : BandwidthState → Type 0
NoSent s = (s.tx_bytes ≡ 0) × (s.total_tx_bytes ≡ 0)

read-NoReceived :
    (buf : Option Bytes) (s : BandwidthState)
    → NoReceived s
    → NoReceived (status_reader_turn buf s).0
unfolding status_reader_turn read_status hear_status
read-NoReceived none s h = (ground arith, ground arith)
read-NoReceived (some buf) s h = (ground arith, ground arith)

exchange_report-NoReceived :
    (t : Exchanger) (e : StatusPass) (s : BandwidthState)
    → NoReceived s
    → NoReceived (client_exchange_report t e s).shared
unfolding client_exchange_report record_interval stop
exchange_report-NoReceived t e s h = (ground arith, ground arith)

exchange_of-NoReceived :
    (w : Heard) (c : Command) (t : Exchanger) (e : StatusPass) (s : BandwidthState)
    → NoReceived s
    → NoReceived (client_exchange_of w c t e s).shared
unfolding client_exchange_of hear_status stop
exchange_of-NoReceived (message bs) c t e s h =
    let heard = hear_status (Command.client_tx c) (StatusMessage.deserialize bs) s in
    let kept : NoReceived heard = (ground arith, ground arith) in
    let told = exchange_report-NoReceived t e heard kept in
    (ground (arith, kept, told), ground (arith, kept, told))
exchange_of-NoReceived broken c t e s h = h
exchange_of-NoReceived silence c t e s h = exchange_report-NoReceived t e s h

udp_sent-NoReceived :
    (sent : Option ℕ) (t : UdpTx) (e : UdpPass) (s : BandwidthState)
    → NoReceived s
    → NoReceived (client_sent sent t e s).shared
unfolding client_sent repick count_sent
udp_sent-NoReceived none t e s h = (ground arith, ground arith)
udp_sent-NoReceived (some n) t e s h = (ground arith, ground arith)

-- A turn of a task that suits a test that does not receive.
turn-NoReceived :
    {c : Command} {k : ClientTask} {s s' : BandwidthState}
    → ClientTurns c k s s'
    → Command.client_rx c ≡ false
    → suits c k ≡ true
    → NoReceived s
    → NoReceived s'
unfolding client_tx_turn packet_sent client_report_turn client_udp_tx_turn client_exchange_turn
    record_interval repick count_sent
turn-NoReceived (tcp_tx t e s size) deaf fits h = (ground arith, ground arith)
turn-NoReceived (tcp_rx r s) deaf fits h = (ground arith, ground arith)
turn-NoReceived (reader buf s) deaf fits h = read-NoReceived buf s h
turn-NoReceived (report seq s) deaf fits h = (ground arith, ground arith)
turn-NoReceived (udp_tx t e s size) deaf fits h =
    let sent = udp_sent-NoReceived e.sent t e s h in (ground (arith, sent), ground (arith, sent))
turn-NoReceived (udp_rx last a s) deaf fits h = (ground arith, ground arith)
turn-NoReceived {c = c} (exchange t e s) deaf fits h =
    let told = exchange_of-NoReceived e.heard c t e s h in
    (ground (arith, told), ground (arith, told))

ClientRun-NoReceived :
    {c : Command} {ks : List ClientTask} {s s' : BandwidthState}
    → IsClientTest c ks
    → ClientRun c ks s s'
    → Command.client_rx c ≡ false
    → NoReceived s
    → NoReceived s'
unfolding stop
ClientRun-NoReceived test (done s) deaf h = h
ClientRun-NoReceived {c = c} test (turn one step rest) deaf h =
    ClientRun-NoReceived test rest deaf
      (turn-NoReceived step deaf (all-IsOneOf (suits c) one (tasks_suit test)) h)
ClientRun-NoReceived test (stopped rest) deaf h = ClientRun-NoReceived test rest deaf h

read-NoSent :
    (buf : Option Bytes) (s : BandwidthState) → NoSent s → NoSent (status_reader_turn buf s).0
unfolding status_reader_turn read_status hear_status
read-NoSent none s h = (ground arith, ground arith)
read-NoSent (some buf) s h = (ground arith, ground arith)

exchange_report-NoSent :
    (t : Exchanger) (e : StatusPass) (s : BandwidthState)
    → NoSent s
    → NoSent (client_exchange_report t e s).shared
unfolding client_exchange_report record_interval stop
exchange_report-NoSent t e s h = (ground arith, ground arith)

exchange_of-NoSent :
    (w : Heard) (c : Command) (t : Exchanger) (e : StatusPass) (s : BandwidthState)
    → NoSent s
    → NoSent (client_exchange_of w c t e s).shared
unfolding client_exchange_of hear_status stop
exchange_of-NoSent (message bs) c t e s h =
    let heard = hear_status (Command.client_tx c) (StatusMessage.deserialize bs) s in
    let kept : NoSent heard = (ground arith, ground arith) in
    let told = exchange_report-NoSent t e heard kept in
    (ground (arith, kept, told), ground (arith, kept, told))
exchange_of-NoSent broken c t e s h = h
exchange_of-NoSent silence c t e s h = exchange_report-NoSent t e s h

stored-NoSent : (load : Option ℕ) (s : BandwidthState) → NoSent s → NoSent (store_load load s)
unfolding store_load
stored-NoSent none s h = h
stored-NoSent (some load) s h = h

tcp_rx-NoSent : (r : ReadBytes) (s : BandwidthState) → NoSent s → NoSent (client_rx_turn r s).0
unfolding client_rx_turn take_in count_received
tcp_rx-NoSent ended s h = (ground arith, ground arith)
tcp_rx-NoSent (got bs) s h =
    let kept = stored-NoSent (find_load bs) (count_received (length bs) s) h in
    (ground (arith, kept), ground (arith, kept))

udp_rx-NoSent :
    (last : Option ℕ) (a : Arrival) (s : BandwidthState)
    → NoSent s
    → NoSent (client_udp_rx_turn last a s).shared
unfolding client_udp_rx_turn client_arrive count_received count_packet
udp_rx-NoSent last (datagram bs) s h = (ground arith, ground arith)
udp_rx-NoSent last failed s h = (ground arith, ground arith)
udp_rx-NoSent last timed_out s h = (ground arith, ground arith)

-- A turn of a task that suits a test that does not send.
turn-NoSent :
    {c : Command} {k : ClientTask} {s s' : BandwidthState}
    → ClientTurns c k s s'
    → Command.client_tx c ≡ false
    → suits c k ≡ true
    → NoSent s
    → NoSent s'
unfolding client_report_turn client_exchange_turn record_interval
turn-NoSent (tcp_tx t e s size) mute fits h = (ground arith, ground arith)
turn-NoSent (tcp_rx r s) mute fits h = tcp_rx-NoSent r s h
turn-NoSent (reader buf s) mute fits h = read-NoSent buf s h
turn-NoSent (report seq s) mute fits h = (ground arith, ground arith)
turn-NoSent (udp_tx t e s size) mute fits h = (ground arith, ground arith)
turn-NoSent (udp_rx last a s) mute fits h = udp_rx-NoSent last a s h
turn-NoSent {c = c} (exchange t e s) mute fits h =
    let told = exchange_of-NoSent e.heard c t e s h in (ground (arith, told), ground (arith, told))

ClientRun-NoSent :
    {c : Command} {ks : List ClientTask} {s s' : BandwidthState}
    → IsClientTest c ks
    → ClientRun c ks s s'
    → Command.client_tx c ≡ false
    → NoSent s
    → NoSent s'
unfolding stop
ClientRun-NoSent test (done s) mute h = h
ClientRun-NoSent {c = c} test (turn one step rest) mute h =
    ClientRun-NoSent test rest mute
      (turn-NoSent step mute (all-IsOneOf (suits c) one (tasks_suit test)) h)
ClientRun-NoSent test (stopped rest) mute h = ClientRun-NoSent test rest mute h

-- A client's test, over TCP or UDP, that starts on a new state reports nothing received if the
-- command's direction has the client not receive, and nothing sent if it has the client not send,
-- whatever the order of its tasks' turns and when it is stopped.
pub client_one_way_silent :
    {c : Command} {ks : List ClientTask} {s : BandwidthState}
    → IsClientTest c ks
    → ClientRun c ks Bandwidth.new s
    → ((summary s).0 ≡ (if Command.client_tx c then (summary s).0 else 0))
      × ((summary s).1 ≡ (if Command.client_rx c then (summary s).1 else 0))
unfolding summary Bandwidth.new
client_one_way_silent {c = c} {s = s} test run = (
  either_way (Command.client_tx c) s.total_tx_bytes
      (λ mute. (ClientRun-NoSent test run mute (refl, refl)).1),
  either_way (Command.client_rx c) s.total_rx_bytes
      (λ deaf. (ClientRun-NoReceived test run deaf (refl, refl)).1),
)
