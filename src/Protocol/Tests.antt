-- ===== src/Protocol/Tests.antt =====
-- Runs and instances for the wire format.
use btest_rs.Base.{◌≡◌, arith}
use btest_rs.Protocol.Command
use btest_rs.Protocol.Command.{Command}
use btest_rs.Protocol.StatusMessage.{StatusMessage}
use btest_rs.Protocol.Wire.{deserialize-serialize}

abbrev upload : Command
upload = record {
  proto = 1;
  direction = 1;
  random_data = 0;
  tcp_conn_count = 0;
  tx_size = 0x8000;
  client_buf_size = 0;
  remote_tx_speed = 0;
  local_tx_speed = 100_000_000;
}

deserialize-serialize_example : Command.deserialize (Command.serialize upload) ≡ upload
deserialize-serialize_example = deserialize-serialize upload (omega arith)

abbrev busy : StatusMessage
busy = record { seq = 7; bytes_received = 1_000_000; cpu_load = 42 }

abbrev idle : StatusMessage
idle = record { seq = 7; bytes_received = 1_000_000; cpu_load = 0 }
