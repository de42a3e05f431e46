-- ===== src/Client/Totals.antt =====
-- The counters of a test of src/client.rs: its tasks take turns in any order, over one state.
use btest_rs.Base.{
  ℕ, ◌+◌, ◌<◌, ◌≡◌, refl, Bool, not, ◌&&◌, ltb, if◌then◌else◌, true, Option, none, some, Bytes,
  length, u64_mod, arith,
}
use btest_rs.Bandwidth.{BandwidthState, stop, record_interval}
use btest_rs.Bandwidth.Budget.{counted}
use btest_rs.Protocol.Command
use btest_rs.Protocol.Command.{Command}
use btest_rs.Protocol.StatusMessage
use btest_rs.Tasks.{repick, count_sent, count_received, hear_status, count_packet}
use btest_rs.Server.Udp.{UdpTx, UdpPass, Arrival, datagram, failed, timed_out}
use btest_rs.Server.Status.{Exchanger, StatusPass, Heard, message, broken, silence}
use btest_rs.Client.Tcp.{
  ClientTx, SendPass, ReadBytes, got, ended, client_tx_turn, packet_sent, client_rx_turn, take_in,
  store_load, find_load, status_reader_turn, read_status,
}
use btest_rs.Client.Udp.{client_udp_tx_turn, client_sent, client_udp_rx_turn, client_arrive}
use btest_rs.Client.Status.{
  client_report_turn, client_exchange_turn, client_exchange_of, client_exchange_report,
}

-- The bytes that a pass sends or takes in.
abbrev pub sent_bytes : BandwidthState → ClientTx → SendPass → ℕ
sent_bytes s t e = if s.running && e.packet_written then t.effective_size else 0

abbrev pub size_of : Arrival → ℕ
size_of (datagram bs) = if ltb (length bs) 4 then 0 else length bs
size_of failed = 0
size_of timed_out = 0

abbrev pub read_bytes : ReadBytes → ℕ
read_bytes (got bs) = length bs
read_bytes ended = 0

abbrev pub taken_bytes : Option ℕ → ℕ
taken_bytes none = 0
taken_bytes (some n) = n

-- One turn of one task, and the bytes that it moved.
pub data ClientStep (c : Command) : BandwidthState → ℕ → BandwidthState → Type 0 where
  tcp_tx :
      (t : ClientTx) (e : SendPass) (s : BandwidthState)
      → ClientStep c s (sent_bytes s t e) (client_tx_turn t e s).shared
  tcp_rx :
      (r : ReadBytes) (s : BandwidthState)
      → ClientStep c s (if s.running then read_bytes r else 0) (client_rx_turn r s).0
  tcp_reader :
      (buf : Option Bytes) (s : BandwidthState) → ClientStep c s 0 (status_reader_turn buf s).0
  udp_tx :
      (t : UdpTx) (e : UdpPass) (s : BandwidthState)
      → ClientStep c s
          (if s.running && not (ltb t.tx_size 4) then taken_bytes e.sent else 0)
          (client_udp_tx_turn t e s).shared
  udp_rx :
      (last : Option ℕ) (a : Arrival) (s : BandwidthState)
      → ClientStep c s (if s.running then size_of a else 0) (client_udp_rx_turn last a s).shared
  report : (seq : ℕ) (s : BandwidthState) → ClientStep c s 0 (client_report_turn c seq s).shared
  exchange :
      (t : Exchanger) (e : StatusPass) (s : BandwidthState)
      → ClientStep c s 0 (client_exchange_turn c t e s).shared
  stopped : (s : BandwidthState) → ClientStep c s 0 (stop s)

-- Any number of turns, and the bytes that they moved together.
pub data ClientSteps (c : Command) : BandwidthState → ℕ → BandwidthState → Type 0 where
  done : (s : BandwidthState) → ClientSteps c s 0 s
  next :
      {s s' s'' : BandwidthState} {n m : ℕ}
      → ClientStep c s n s'
      → ClientSteps c s' m s''
      → ClientSteps c s (n + m) s''

-- `s'` has counted `n` bytes more than `s`.
abbrev Adds : BandwidthState → ℕ → BandwidthState → Type 0
Adds s n s' = counted s' ≡ counted s + n

client_sent-Adds :
    (sent : Option ℕ) (t : UdpTx) (e : UdpPass) (s : BandwidthState)
    → counted s + taken_bytes sent < u64_mod
    → Adds s (taken_bytes sent) (client_sent sent t e s).shared
unfolding client_sent repick count_sent
client_sent-Adds none t e s h = ground arith
client_sent-Adds (some n) t e s h = ground arith

client_exchange_report-Adds :
    (t : Exchanger) (e : StatusPass) (s : BandwidthState)
    → counted s < u64_mod
    → Adds s 0 (client_exchange_report t e s).shared
unfolding client_exchange_report record_interval stop
client_exchange_report-Adds t e s h = ground arith

counted-hear_status :
    (sends : Bool) (m : StatusMessage.StatusMessage) (s : BandwidthState)
    → counted (hear_status sends m s) ≡ counted s
unfolding hear_status
counted-hear_status sends m s = ground arith

client_exchange_of-Adds :
    (h : Heard) (c : Command) (t : Exchanger) (e : StatusPass) (s : BandwidthState)
    → counted s < u64_mod
    → Adds s 0 (client_exchange_of h c t e s).shared
unfolding client_exchange_of stop
client_exchange_of-Adds (message bs) c t e s h =
    let heard = hear_status (Command.client_tx c) (StatusMessage.deserialize bs) s in
    let same = counted-hear_status (Command.client_tx c) (StatusMessage.deserialize bs) s in
    ground (arith, same, client_exchange_report-Adds t e heard)
client_exchange_of-Adds broken c t e s h = ground arith
client_exchange_of-Adds silence c t e s h = client_exchange_report-Adds t e s h

counted-store_load :
    (load : Option ℕ) (s : BandwidthState) → counted (store_load load s) ≡ counted s
unfolding store_load
counted-store_load none s = refl
counted-store_load (some load) s = refl

ClientStep-Adds :
    {c : Command} {s s' : BandwidthState} {n : ℕ}
    → ClientStep c s n s'
    → counted s + n < u64_mod
    → Adds s n s'
unfolding client_tx_turn packet_sent client_rx_turn take_in status_reader_turn read_status
    client_udp_tx_turn client_udp_rx_turn client_arrive client_report_turn client_exchange_turn
    record_interval stop repick count_sent count_received count_packet
ClientStep-Adds (tcp_tx t e s) h = ground arith
ClientStep-Adds (tcp_rx ended s) h = ground arith
ClientStep-Adds (tcp_rx (got bs) s) h =
    ground (arith, counted-store_load (find_load bs) (count_received (length bs) s))
ClientStep-Adds (tcp_reader none s) h = ground arith
ClientStep-Adds (tcp_reader (some buf) s) h =
    ground (arith, counted-hear_status true (StatusMessage.deserialize buf) s)
ClientStep-Adds (udp_tx t e s) h = ground (arith, client_sent-Adds e.sent t e s)
ClientStep-Adds (udp_rx last (datagram bs) s) h = ground arith
ClientStep-Adds (udp_rx last failed s) h = ground arith
ClientStep-Adds (udp_rx last timed_out s) h = ground arith
ClientStep-Adds (report seq s) h = ground arith
ClientStep-Adds {c = c} (exchange t e s) h = ground (arith, client_exchange_of-Adds e.heard c t e s)
ClientStep-Adds (stopped s) h = ground arith

-- Whatever the order of the turns, what the client has counted, in the interval and in the totals,
-- sent and received together, is what it had counted and the bytes that it moved, while that fits 64
-- bits: the two sides of the counters lose none and count none twice.
pub client_conserves :
    {c : Command} {s s' : BandwidthState} {n : ℕ}
    → ClientSteps c s n s'
    → counted s + n < u64_mod
    → counted s' ≡ counted s + n
client_conserves (done s) h = omega arith
client_conserves (next {s' = s'} {n = n} {m = m} p ps) h =
    let one = ClientStep-Adds p (omega arith) in
    omega (arith, one, client_conserves ps (omega (arith, one)))
