-- ===== src/Server/Spawn/Silence.antt =====
-- A test of src/server.rs in one direction counts nothing in the other.
use btest_rs.Base.{ℕ, ◌≡◌, refl, if◌then◌else◌, true, false, List, Option, none, some, arith}
use btest_rs.Bandwidth
use btest_rs.Bandwidth.{BandwidthState, stop, spend_budget, record_interval, set_budget, summary}
use btest_rs.Protocol.Command
use btest_rs.Protocol.Command.{Command}
use btest_rs.Protocol.StatusMessage
use btest_rs.Tasks.{repick, count_sent, count_received, count_packet, hear_status}
use btest_rs.Server.Tcp.{
  TcpTx, TxPass, Read, received, closed, inject_status, send_packet, after_packet, receive,
  tcp_tx_turn, tcp_rx_turn, tcp_status_turn, both_turn,
}
use btest_rs.Server.Udp.{
  UdpTx, UdpPass, Arrival, datagram, failed, timed_out, udp_tx_turn, sent_or_failed, udp_rx_turn,
  arrive, accept,
}
use btest_rs.Server.Status.{
  Exchanger, StatusPass, Heard, message, broken, silence, exchange_report, exchange_of,
  exchange_turn, report_turn,
}
use btest_rs.Server.Spawn.Suitable.{either_way, suits, tasks_suit, all-IsOneOf}
use btest_rs.Server.Spawn.{
  Task, IsTest, Turns, with_status, tcp_tx, status, tcp_rx, report, ticks, udp_tx, udp_rx, exchange,
  Run, done, turn, stopped,
}

-- Nothing was received, and nothing was sent.
abbrev NoReceived : BandwidthState → Type 0
NoReceived s = (s.rx_bytes ≡ 0) × (s.total_rx_bytes ≡ 0)

abbrev NoSent : BandwidthState → Type 0
NoSent s = (s.tx_bytes ≡ 0) × (s.total_tx_bytes ≡ 0)

inject-NoReceived :
    (t : TcpTx) (e : TxPass) (s : BandwidthState)
    → NoReceived s
    → NoReceived (inject_status t e s).shared
unfolding inject_status record_interval stop
inject-NoReceived t e s h = (ground arith, ground arith)

send-NoReceived :
    (t : TcpTx) (e : TxPass) (s : BandwidthState)
    → NoReceived s
    → NoReceived (send_packet t e s).shared
unfolding send_packet spend_budget stop after_packet repick count_sent
send-NoReceived t e s h = (ground arith, ground arith)

tcp_tx-NoReceived :
    (t : TcpTx) (e : TxPass) (s : BandwidthState)
    → NoReceived s
    → NoReceived (tcp_tx_turn t e s).shared
unfolding tcp_tx_turn
tcp_tx-NoReceived t e s h =
    let injected = inject_status t e s in
    let first = inject-NoReceived t e s h in
    let sent = send-NoReceived injected.task e injected.shared first in
    (ground (arith, first, sent), ground (arith, first, sent))

udp_sent-NoReceived :
    (sent : Option ℕ) (t : UdpTx) (e : UdpPass) (s : BandwidthState)
    → NoReceived s
    → NoReceived (sent_or_failed sent t e s).shared
unfolding sent_or_failed repick count_sent
udp_sent-NoReceived none t e s h = (ground arith, ground arith)
udp_sent-NoReceived (some n) t e s h = (ground arith, ground arith)

exchange_report-NoReceived :
    (c : Command) (t : Exchanger) (e : StatusPass) (s : BandwidthState)
    → NoReceived s
    → NoReceived (exchange_report c t e s).shared
unfolding exchange_report record_interval stop
exchange_report-NoReceived c t e s h = (ground arith, ground arith)

exchange_of-NoReceived :
    (w : Heard) (c : Command) (t : Exchanger) (e : StatusPass) (s : BandwidthState)
    → NoReceived s
    → NoReceived (exchange_of w c t e s).shared
unfolding exchange_of hear_status stop
exchange_of-NoReceived (message bs) c t e s h =
    let heard = hear_status (Command.server_tx c) (StatusMessage.deserialize bs) s in
    let kept : NoReceived heard = (ground arith, ground arith) in
    let told = exchange_report-NoReceived c t e heard kept in
    (ground (arith, kept, told), ground (arith, kept, told))
exchange_of-NoReceived broken c t e s h = h
exchange_of-NoReceived silence c t e s h = exchange_report-NoReceived c t e s h

-- A turn of a task that suits a test that does not receive.
turn-NoReceived :
    {c : Command} {k : Task} {s s' : BandwidthState}
    → Turns c k s s'
    → Command.server_rx c ≡ false
    → suits c k ≡ true
    → NoReceived s
    → NoReceived s'
unfolding udp_tx_turn report_turn exchange_turn spend_budget record_interval stop both_turn
turn-NoReceived (with_status t e s size sends) deaf fits h = tcp_tx-NoReceived t e s h
turn-NoReceived (tcp_tx t e s size sends) deaf fits h = tcp_tx-NoReceived t e s h
turn-NoReceived (status seq cpu written s) deaf fits h = (ground arith, ground arith)
turn-NoReceived (tcp_rx r s) deaf fits h = (ground arith, ground arith)
turn-NoReceived (report seq s) deaf fits h = (ground arith, ground arith)
turn-NoReceived (ticks seq s) deaf fits h = (ground arith, ground arith)
turn-NoReceived (udp_tx t e s size taken) deaf fits h =
    let spent = (spend_budget t.tx_size s).0 in
    let kept : NoReceived spent = (ground arith, ground arith) in
    let sent = udp_sent-NoReceived e.sent t e spent kept in
    (ground (arith, kept, sent), ground (arith, kept, sent))
turn-NoReceived (udp_rx last a s) deaf fits h = (ground arith, ground arith)
turn-NoReceived {c = c} (exchange t e s) deaf fits h =
    let told = exchange_of-NoReceived e.heard c t e s h in
    (ground (arith, told), ground (arith, told))

Run-NoReceived :
    {c : Command} {ks : List Task} {s s' : BandwidthState}
    → IsTest c ks
    → Run c ks s s'
    → Command.server_rx c ≡ false
    → NoReceived s
    → NoReceived s'
unfolding stop
Run-NoReceived test (done s) deaf h = h
Run-NoReceived {c = c} test (turn one step rest) deaf h =
    Run-NoReceived test rest deaf
      (turn-NoReceived step deaf (all-IsOneOf (suits c) one (tasks_suit test)) h)
Run-NoReceived test (stopped rest) deaf h = Run-NoReceived test rest deaf h

tcp_rx-NoSent : (r : Read) (s : BandwidthState) → NoSent s → NoSent (tcp_rx_turn r s).0
unfolding tcp_rx_turn receive spend_budget stop count_received
tcp_rx-NoSent closed s h = (ground arith, ground arith)
tcp_rx-NoSent (received n) s h = (ground arith, ground arith)

udp_rx-NoSent :
    (last : Option ℕ) (a : Arrival) (s : BandwidthState)
    → NoSent s
    → NoSent (udp_rx_turn last a s).shared
unfolding udp_rx_turn arrive accept spend_budget stop count_received count_packet
udp_rx-NoSent last (datagram bs) s h = (ground arith, ground arith)
udp_rx-NoSent last failed s h = (ground arith, ground arith)
udp_rx-NoSent last timed_out s h = (ground arith, ground arith)

exchange_report-NoSent :
    (c : Command) (t : Exchanger) (e : StatusPass) (s : BandwidthState)
    → NoSent s
    → NoSent (exchange_report c t e s).shared
unfolding exchange_report record_interval stop
exchange_report-NoSent c t e s h = (ground arith, ground arith)

exchange_of-NoSent :
    (w : Heard) (c : Command) (t : Exchanger) (e : StatusPass) (s : BandwidthState)
    → NoSent s
    → NoSent (exchange_of w c t e s).shared
unfolding exchange_of hear_status stop
exchange_of-NoSent (message bs) c t e s h =
    let heard = hear_status (Command.server_tx c) (StatusMessage.deserialize bs) s in
    let kept : NoSent heard = (ground arith, ground arith) in
    let told = exchange_report-NoSent c t e heard kept in
    (ground (arith, kept, told), ground (arith, kept, told))
exchange_of-NoSent broken c t e s h = h
exchange_of-NoSent silence c t e s h = exchange_report-NoSent c t e s h

-- A turn of a task that suits a test that does not send.
turn-NoSent :
    {c : Command} {k : Task} {s s' : BandwidthState}
    → Turns c k s s'
    → Command.server_tx c ≡ false
    → suits c k ≡ true
    → NoSent s
    → NoSent s'
unfolding tcp_status_turn report_turn exchange_turn record_interval stop
turn-NoSent (with_status t e s size sends) mute fits h = (ground arith, ground arith)
turn-NoSent (tcp_tx t e s size sends) mute fits h = (ground arith, ground arith)
turn-NoSent (status seq cpu written s) mute fits h = (ground arith, ground arith)
turn-NoSent (tcp_rx r s) mute fits h = tcp_rx-NoSent r s h
turn-NoSent (report seq s) mute fits h = (ground arith, ground arith)
turn-NoSent (ticks seq s) mute fits h = (ground arith, ground arith)
turn-NoSent (udp_tx t e s size taken) mute fits h = (ground arith, ground arith)
turn-NoSent (udp_rx last a s) mute fits h = udp_rx-NoSent last a s h
turn-NoSent {c = c} (exchange t e s) mute fits h =
    let told = exchange_of-NoSent e.heard c t e s h in (ground (arith, told), ground (arith, told))

Run-NoSent :
    {c : Command} {ks : List Task} {s s' : BandwidthState}
    → IsTest c ks
    → Run c ks s s'
    → Command.server_tx c ≡ false
    → NoSent s
    → NoSent s'
unfolding stop
Run-NoSent test (done s) mute h = h
Run-NoSent {c = c} test (turn one step rest) mute h =
    Run-NoSent test rest mute
      (turn-NoSent step mute (all-IsOneOf (suits c) one (tasks_suit test)) h)
Run-NoSent test (stopped rest) mute h = Run-NoSent test rest mute h

-- A test of any kind that starts on a new state with any budget reports nothing received if the
-- command's direction has the server not receive, and nothing sent if it has the server not send,
-- whatever the order of its tasks' turns and when it is stopped.
pub one_way_silent :
    (budget : ℕ) {c : Command} {ks : List Task} {s : BandwidthState}
    → IsTest c ks
    → Run c ks (set_budget budget Bandwidth.new) s
    → ((summary s).0 ≡ (if Command.server_tx c then (summary s).0 else 0))
      × ((summary s).1 ≡ (if Command.server_rx c then (summary s).1 else 0))
unfolding summary Bandwidth.new set_budget
one_way_silent budget {c = c} {s = s} test run = (
  either_way (Command.server_tx c) s.total_tx_bytes
      (λ mute. (Run-NoSent test run mute (refl, refl)).1),
  either_way (Command.server_rx c) s.total_rx_bytes
      (λ deaf. (Run-NoReceived test run deaf (refl, refl)).1),
)
