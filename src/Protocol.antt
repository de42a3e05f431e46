-- ===== src/Protocol.antt =====
-- The constants of src/protocol.rs. The children hold the 16-byte command, the 12-byte status
-- message and their laws.
pub mod Command
pub mod StatusMessage
pub mod Wire
pub mod Cpu
pub mod Token
mod Tests
use btest_rs.Base.{ℕ, List, ◌∷◌, []}

abbrev pub btest_udp_port_start : ℕ
btest_udp_port_start = 2001

abbrev pub btest_port_client_offset : ℕ
btest_port_client_offset = 256

abbrev pub cmd_proto_udp : ℕ
cmd_proto_udp = 0

abbrev pub cmd_proto_tcp : ℕ
cmd_proto_tcp = 1

abbrev pub cmd_dir_rx : ℕ
cmd_dir_rx = 1

abbrev pub cmd_dir_tx : ℕ
cmd_dir_tx = 2

abbrev pub cmd_dir_both : ℕ
cmd_dir_both = 3

abbrev pub default_tcp_tx_size : ℕ
default_tcp_tx_size = 0x8000

abbrev pub default_udp_tx_size : ℕ
default_udp_tx_size = 0x05dc

abbrev pub hello : List ℕ
hello = 1 ∷ 0 ∷ 0 ∷ 0 ∷ []

abbrev pub auth_ok : List ℕ
auth_ok = 1 ∷ 0 ∷ 0 ∷ 0 ∷ []

abbrev pub auth_required : List ℕ
auth_required = 2 ∷ 0 ∷ 0 ∷ 0 ∷ []

abbrev pub auth_failed : List ℕ
auth_failed = 0 ∷ 0 ∷ 0 ∷ 0 ∷ []

-- The reply that announces EC-SRP5, which the source writes out where it is used.
abbrev pub auth_ecsrp5 : List ℕ
auth_ecsrp5 = 3 ∷ 0 ∷ 0 ∷ 0 ∷ []

abbrev pub status_msg_type : ℕ
status_msg_type = 7

abbrev pub status_msg_size : ℕ
status_msg_size = 12
