-- ===== src/Server/Handler/Ending.antt =====
-- The end of `handle_client` of src/server.rs: what goes to the log and to the file of results.
use btest_rs.Base.{
  ℕ, ◌≡◌, ap, Bool, true, List, Option, none, some, Bytes, ◌==◌, if◌then◌else◌, codes,
}
use btest_rs.Bandwidth
use btest_rs.Bandwidth.{BandwidthState, summary}
use btest_rs.Protocol.{cmd_dir_rx, cmd_dir_tx}
use btest_rs.Protocol.Command
use btest_rs.Protocol.Command.{Command}
use btest_rs.Syslog.{SyslogSender, Datagram, Ended, test_end}
use btest_rs.Csv.{File, TestResult, write_result}
use btest_rs.Server.Spawn.{Run, run_tcp_test_inner}
use btest_rs.Server.Spawn.Reporting.{both_ways_unreported}

-- Where the results go, and what the outside gives: the time, the load, the texts of the peer.
pub record Outlets : Type 0 where
  pub sender : Option SyslogSender
  pub enabled : Bool
  pub file : File
  pub average : ℕ → ℕ → Bytes
  pub now : ℕ
  pub cpu : ℕ
  pub peer : Bytes
  pub peer_ip : Bytes
  pub peer_port : ℕ
  pub auth_type : Bytes

unfoldable pub server_proto : Command → Bytes
unfolding Command.is_udp
server_proto c = if Command.is_udp c then codes "UDP" else codes "TCP"

unfoldable pub server_dir : Command → Bytes
server_dir c =
    if c.direction == cmd_dir_rx
    then codes "RX"
    else if c.direction == cmd_dir_tx
    then codes "TX"
    else codes "BOTH"

-- A test that ended in an error is written with zeros.
abbrev pub or_zeros : Option (ℕ × ℕ × ℕ × ℕ) → ℕ × ℕ × ℕ × ℕ
or_zeros none = (0, 0, 0, 0)
or_zeros (some totals) = totals

unfoldable pub ended : ℕ × ℕ × ℕ × ℕ → Ended
ended (tx, rx, lost, intervals) = record {
  total_tx = tx;
  total_rx = rx;
  total_lost = lost;
  duration_secs = intervals;
}

-- The intervals stand for the seconds.
unfoldable pub result_of : Outlets → Command → Ended → TestResult
unfolding server_proto server_dir
result_of o c e = record {
  now = o.now;
  host = o.peer_ip;
  port = o.peer_port;
  protocol = server_proto c;
  direction = server_dir c;
  duration_secs = e.duration_secs;
  tx_bytes = e.total_tx;
  rx_bytes = e.total_rx;
  lost_packets = e.total_lost;
  local_cpu = o.cpu;
  remote_cpu = 0;
  auth_type = o.auth_type;
}

unfoldable pub end_test : Outlets → Command → Option (ℕ × ℕ × ℕ × ℕ) → List Datagram × File
unfolding ended result_of server_proto server_dir test_end write_result
end_test o c result =
    let e = ended (or_zeros result) in
    (
      test_end o.sender o.now o.average o.peer (server_proto c) (server_dir c) e,
      write_result o.average o.enabled (result_of o c e) o.file,
    )

-- A bidirectional TCP test over one connection is logged and written to the file of results like one
-- that received the same and sent nothing.
pub both_ways_logged :
    (o : Outlets) (c : Command) {s : BandwidthState}
    → Command.server_tx c ≡ true
    → Command.server_rx c ≡ true
    → Run c (run_tcp_test_inner c) Bandwidth.new s
    → end_test o c (some (summary s))
      ≡ end_test o c (some (0, s.total_rx_bytes, s.total_lost_packets, s.intervals))
unfolding summary
both_ways_logged o c {s = s} tx rx run =
    ap (λ n. end_test o c (some (n, s.total_rx_bytes, s.total_lost_packets, s.intervals)))
      (both_ways_unreported c tx rx run)
