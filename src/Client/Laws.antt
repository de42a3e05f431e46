-- ===== src/Client/Laws.antt =====
-- What the client of src/client.rs makes of the server's messages, and what ends its TCP test.
use btest_rs.Base.{
  ℕ, zero, suc, ◌≤◌, ◌<◌, ◌≡◌, refl, Bool, ◌&&◌, true, false, Option, none, some, [], ◌∷◌, ◌++◌,
  Bytes, length, replicate, bytes_eq, leb, ◌==◌, passes_to, passes_at, min, bit_and, bit_or,
  u32_mod, arith, if◌then◌else◌,
}
use btest_rs.Bandwidth.{BandwidthState}
use btest_rs.Protocol.{hello, auth_ok}
use btest_rs.Protocol.Command
use btest_rs.Protocol.Command.{Command}
use btest_rs.Protocol.Wire.{IsCommand, length-serialize, deserialize-serialize}
use btest_rs.Protocol.StatusMessage
use btest_rs.Protocol.StatusMessage.{StatusMessage}
use btest_rs.Stream
use btest_rs.Stream.{
  Exchange, Stream, Outcome, ok, read_exact, write_all, recv_hello, send_command, recv_command,
  recv_response,
}
use btest_rs.Tasks.{repick, count_sent, count_received, hear_status}
use btest_rs.Stream.Laws.{open_stream, read_exact_prefix}
use btest_rs.Client.Handshake.{command, run_client, answer}
use btest_rs.Client.Tcp.{
  ClientTx, SendPass, ReadBytes, got, ended, find_load, store_load, client_tx_turn, packet_sent,
  client_rx_turn, take_in, status_reader_turn, read_status,
}

-- The load that is read off the byte sent for a load.
load_table :
    passes_to
      (λ load.
        let raw : ℕ = bit_or 0x80 (bit_and load 0x7f) in
        leb 0x80 raw && (min (bit_and raw 0x7f) 100 == load))
      101
    ≡ true
unfolding passes_to
load_table = refl

both_tests : (b : Bool) (x y : ℕ) → (b && (x == y)) ≡ true → (b ≡ true) × (x ≡ y)
both_tests b x y h = (ground arith, ground arith)

found_at :
    (raw load : ℕ) (later : Bytes)
    → 10 ≤ length later
    → leb 0x80 raw ≡ true
    → min (bit_and raw 0x7f) 100 ≡ load
    → find_load (7 ∷ raw ∷ later) ≡ some load
unfolding find_load
found_at raw load later long high read = ground arith

find_load-serialize :
    (m : StatusMessage) (rest : Bytes)
    → m.cpu_load ≤ 100
    → find_load (StatusMessage.serialize m ++ rest) ≡ some m.cpu_load
unfolding StatusMessage.serialize
find_load-serialize m rest h =
    let raw : ℕ = bit_or 0x80 (bit_and m.cpu_load 0x7f) in
    let read =
      both_tests (leb 0x80 raw) (min (bit_and raw 0x7f) 100) m.cpu_load
        (passes_at _ 101 load_table m.cpu_load (omega arith)) in
    found_at raw m.cpu_load _ (omega arith) read.0 read.1

length-find_load :
    (k : ℕ) (m : StatusMessage) (rest : Bytes)
    → 12 ≤ length (replicate k 0 ++ (StatusMessage.serialize m ++ rest))
unfolding StatusMessage.serialize
length-find_load zero m rest = omega arith
length-find_load (suc k) m rest = omega (arith, length-find_load k m rest)

-- A status message between the zeros of a data stream, whole in one read, gives the client the load
-- that the server sent, whatever follows it; here also a load of 0.
pub status_found :
    (k : ℕ) (m : StatusMessage) (rest : Bytes)
    → m.cpu_load ≤ 100
    → find_load (replicate k 0 ++ (StatusMessage.serialize m ++ rest)) ≡ some m.cpu_load
unfolding find_load
status_found zero m rest h = find_load-serialize m rest h
status_found (suc k) m rest h = ground (arith, status_found k m rest h, length-find_load k m rest)

tx_runs_on :
    (t : ClientTx) (e : SendPass) (s : BandwidthState)
    → (client_tx_turn t e s).shared.running ≡ s.running
unfolding client_tx_turn packet_sent repick count_sent
tx_runs_on t e s = ground arith

stored_running : (load : Option ℕ) (s : BandwidthState) → (store_load load s).running ≡ s.running
unfolding store_load
stored_running none s = refl
stored_running (some load) s = refl

rx_runs_on : (r : ReadBytes) (s : BandwidthState) → (client_rx_turn r s).0.running ≡ s.running
unfolding client_rx_turn take_in count_received
rx_runs_on ended s = ground arith
rx_runs_on (got bs) s = ground (arith, stored_running (find_load bs) (count_received (length bs) s))

reader_runs_on :
    (buf : Option Bytes) (s : BandwidthState) → (status_reader_turn buf s).0.running ≡ s.running
unfolding status_reader_turn read_status hear_status
reader_runs_on none s = ground arith
reader_runs_on (some buf) s = ground arith

-- No turn of the three TCP loops of the client ends the test, not even one that finds the connection
-- broken: `running` stays as it was.
pub tcp_runs_on :
    (t : ClientTx) (e : SendPass) (r : ReadBytes) (buf : Option Bytes) (s : BandwidthState)
    → ((client_tx_turn t e s).shared.running ≡ s.running)
      × ((client_rx_turn r s).0.running ≡ s.running)
      × ((status_reader_turn buf s).0.running ≡ s.running)
tcp_runs_on t e r buf s = (tx_runs_on t e s, rx_runs_on r s, reader_runs_on buf s)

decoded :
    (d c : Command)
    → d ≡ c
    → Command.is_invalid c ≡ false
    → (s : Stream)
    → Path
        (Outcome Command)
        ((if Command.is_invalid d then Stream.raise Stream.invalid_command else Stream.pure d) s)
        (ok c s)
decoded d c e valid s = rw (e, valid)

module _ (use_udp : Bool) (direction tx_speed rx_speed : ℕ) (low : 1 ≤ direction)
    (high : direction ≤ 3) (tx : tx_speed < u32_mod) (rx : rx_speed < u32_mod) where
  pub command-IsCommand : IsCommand (command use_udp direction tx_speed rx_speed)
  unfolding command Command.new
  command-IsCommand = ground arith

  pub command_valid : Command.is_invalid (command use_udp direction tx_speed rx_speed) ≡ false
  unfolding command Command.new Command.is_invalid
  command_valid = ground arith

module _ (md5 : Bytes → Bytes) (ecsrp5 : Bytes → Bytes → Exchange {0} Unit) where
  -- A server without a password, and a command with a direction of 1 to 3 and speeds that fit 32
  -- bits: the client reads the greeting and the reply, and the server decodes what the client
  -- wrote to the command that the client's test runs with.
  pub command_arrives :
      (use_udp : Bool) (direction tx_speed rx_speed : ℕ) (user pass : Option Bytes)
      (rest rest' w' : Bytes)
      → 1 ≤ direction
      → direction ≤ 3
      → tx_speed < u32_mod
      → rx_speed < u32_mod
      → let c = command use_udp direction tx_speed rx_speed in
        (run_client md5 ecsrp5 use_udp direction tx_speed rx_speed user pass
            (open_stream (hello ++ (auth_ok ++ rest)) [])
          ≡ ok c (open_stream rest (Command.serialize c)))
        × (recv_command (open_stream (Command.serialize c ++ rest') w')
            ≡ ok c (open_stream rest' w'))
  unfolding run_client answer recv_hello send_command write_all recv_response recv_command bytes_eq
  command_arrives use_udp direction tx_speed rx_speed user pass rest rest' w' low high tx rx =
      let c = command use_udp direction tx_speed rx_speed in
      let v = command-IsCommand use_udp direction tx_speed rx_speed low high tx rx in
      (
        rw
            (
              read_exact_prefix 4 hello (auth_ok ++ rest) [] refl,
              read_exact_prefix 4 auth_ok rest (Command.serialize c) refl,
            )
            refl,
        rw (read_exact_prefix 16 (Command.serialize c) rest' w' (length-serialize c)) (
            decoded (Command.deserialize (Command.serialize c)) c (deserialize-serialize c v)
              (command_valid use_udp direction tx_speed rx_speed low high tx rx)
              (open_stream rest' w')),
      )
