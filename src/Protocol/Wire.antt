-- ===== src/Protocol/Wire.antt =====
-- What the two ends of the wire agree on: the command survives its encoding, and its direction
-- bits say who transmits.
use btest_rs.Base.{
  ◌≤◌, ◌<◌, ◌≡◌, refl, ◌⊎◌, false, arith, length, u8_mod, u16_mod, u32_mod, u16_bytes, u32_bytes,
}
use btest_rs.Protocol.{cmd_dir_rx, cmd_dir_tx, cmd_dir_both}
use btest_rs.Protocol.Command
use btest_rs.Protocol.Command.{Command}

-- The ranges of the fields' types.
pub record IsCommand (c : Command) : Type 0 where
  pub proto : c.proto < u8_mod
  pub direction : c.direction < u8_mod
  pub random_data : c.random_data < u8_mod
  pub tcp_conn_count : c.tcp_conn_count < u8_mod
  pub tx_size : c.tx_size < u16_mod
  pub client_buf_size : c.client_buf_size < u16_mod
  pub remote_tx_speed : c.remote_tx_speed < u32_mod
  pub local_tx_speed : c.local_tx_speed < u32_mod

pub length-serialize : (c : Command) → length (Command.serialize c) ≡ 16
unfolding Command.serialize
length-serialize c = refl

-- Decoding the 16 bytes of a command gives the command back.
pub deserialize-serialize :
    (c : Command) → IsCommand c → Command.deserialize (Command.serialize c) ≡ c
unfolding Command.serialize Command.deserialize
deserialize-serialize c v = λ i. record {
  proto = c.proto;
  direction = c.direction;
  random_data = c.random_data;
  tcp_conn_count = c.tcp_conn_count;
  tx_size = u16_bytes c.tx_size v.tx_size i;
  client_buf_size = u16_bytes c.client_buf_size v.client_buf_size i;
  remote_tx_speed = u32_bytes c.remote_tx_speed v.remote_tx_speed i;
  local_tx_speed = u32_bytes c.local_tx_speed v.local_tx_speed i;
}

-- An accepted command names one of two protocols and one of three directions.
pub valid-direction :
    (c : Command)
    → Command.is_invalid c ≡ false
    → (c.proto ≤ 1)
      × ((c.direction ≡ cmd_dir_rx) ⊎ ((c.direction ≡ cmd_dir_tx) ⊎ (c.direction ≡ cmd_dir_both)))
unfolding Command.is_invalid
valid-direction c h = ground arith
