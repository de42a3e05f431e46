-- ===== src/Protocol/Command.antt =====
-- `struct Command` of src/protocol.rs: its 16 bytes, and who transmits.
use btest_rs.Base.{
  ℕ, bit_and, Bool, not, ◌||◌, List, ◌∷◌, ◌++◌, ltb, ◌==◌, if◌then◌else◌, get_or, u16_le, u32_le,
  u16_of, u32_of,
}
use btest_rs.Protocol.{
  cmd_proto_udp, cmd_dir_rx, cmd_dir_tx, default_tcp_tx_size, default_udp_tx_size,
}

pub record Command : Type 0 where
  pub proto : ℕ  -- u8
  pub direction : ℕ  -- u8
  pub random_data : ℕ  -- u8
  pub tcp_conn_count : ℕ  -- u8
  pub tx_size : ℕ  -- u16
  pub client_buf_size : ℕ  -- u16
  pub remote_tx_speed : ℕ  -- u32
  pub local_tx_speed : ℕ  -- u32

unfoldable pub new : ℕ → ℕ → Command
new proto direction = record {
  proto = proto;
  direction = direction;
  random_data = 0;
  tcp_conn_count = 0;
  tx_size = if proto == cmd_proto_udp then default_udp_tx_size else default_tcp_tx_size;
  client_buf_size = 0;
  remote_tx_speed = 0;
  local_tx_speed = 0;
}

unfoldable pub serialize : Command → List ℕ
serialize c =
    c.proto
    ∷ c.direction
    ∷ c.random_data
    ∷ c.tcp_conn_count
    ∷ (u16_le c.tx_size
        ++ (u16_le c.client_buf_size ++ (u32_le c.remote_tx_speed ++ u32_le c.local_tx_speed)))

-- The argument is a buffer of 16 bytes.
unfoldable pub deserialize : List ℕ → Command
deserialize buf =
    let at = λ (i : ℕ). get_or buf i 0 in
    record {
      proto = at 0;
      direction = at 1;
      random_data = at 2;
      tcp_conn_count = at 3;
      tx_size = u16_of (at 4) (at 5);
      client_buf_size = u16_of (at 6) (at 7);
      remote_tx_speed = u32_of (at 8) (at 9) (at 10) (at 11);
      local_tx_speed = u32_of (at 12) (at 13) (at 14) (at 15);
    }

unfoldable pub is_udp : Command → Bool
is_udp c = c.proto == cmd_proto_udp

-- The direction bits are from the server's side.
unfoldable pub server_tx : Command → Bool
server_tx c = not (bit_and c.direction cmd_dir_tx == 0)

unfoldable pub server_rx : Command → Bool
server_rx c = not (bit_and c.direction cmd_dir_rx == 0)

unfoldable pub client_tx : Command → Bool
client_tx c = not (bit_and c.direction cmd_dir_rx == 0)

unfoldable pub client_rx : Command → Bool
client_rx c = not (bit_and c.direction cmd_dir_tx == 0)

-- The test that `recv_command` and the server's handlers make on a command.
unfoldable pub is_invalid : Command → Bool
is_invalid c = ltb 1 c.proto || (c.direction == 0 || ltb 3 c.direction)
