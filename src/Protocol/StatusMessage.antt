-- ===== src/Protocol/StatusMessage.antt =====
-- `struct StatusMessage` of src/protocol.rs: its 12 bytes.
use btest_rs.Base.{
  ℕ, min, bit_and, bit_or, List, ◌∷◌, ◌++◌, ltb, if◌then◌else◌, get_or, u32_le, u32_of,
}
use btest_rs.Protocol.{status_msg_type}

pub record StatusMessage : Type 0 where
  pub seq : ℕ  -- u32
  pub bytes_received : ℕ  -- u32
  pub cpu_load : ℕ  -- u8

unfoldable pub serialize : StatusMessage → List ℕ
serialize m =
    status_msg_type
    ∷ bit_or 0x80 (bit_and m.cpu_load 0x7f)
    ∷ 0
    ∷ 0
    ∷ (u32_le m.seq ++ u32_le m.bytes_received)

-- The argument is a buffer of 12 bytes.
unfoldable pub deserialize : List ℕ → StatusMessage
deserialize buf =
    let at = λ (i : ℕ). get_or buf i 0 in
    let cpu = if ltb 128 (at 1) then bit_and (at 1) 0x7f else at 1 in
    record {
      seq = u32_of (at 4) (at 5) (at 6) (at 7);
      bytes_received = u32_of (at 8) (at 9) (at 10) (at 11);
      cpu_load = min cpu 100;
    }
