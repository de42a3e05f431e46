-- ===== src/Protocol/Cpu.antt =====
-- The status message across the wire. Byte 1 carries the CPU load under a set high bit.
use btest_rs.Base.{
  ℕ, ◌≤◌, ◌<◌, ◌≡◌, refl, ◌∙◌, ap, true, List, arith, min, bit_and, bit_or, ltb, ◌==◌,
  if◌then◌else◌, ==_iff, u32_mod, u32_bytes, passes_to, passes_at,
}
use btest_rs.Protocol.StatusMessage
use btest_rs.Protocol.StatusMessage.{StatusMessage}

-- What the receiver makes of the byte sent for a load.
abbrev pub cpu_across : ℕ → ℕ
cpu_across load =
    let raw : ℕ = bit_or 0x80 (bit_and load 0x7f) in
    min (if ltb 128 raw then bit_and raw 0x7f else raw) 100

across_table : passes_to (λ load. cpu_across load == (if load == 0 then 100 else load)) 101 ≡ true
unfolding passes_to
across_table = refl

cpu_across-eq : (load : ℕ) → load ≤ 100 → cpu_across load ≡ (if load == 0 then 100 else load)
cpu_across-eq load h = (==_iff _ _).0 (passes_at _ 101 across_table load (omega arith))

module _ (m : StatusMessage) (hs : m.seq < u32_mod) (hb : m.bytes_received < u32_mod) where
  across :
      StatusMessage.deserialize (StatusMessage.serialize m)
      ≡ record m { cpu_load = cpu_across m.cpu_load }
  unfolding StatusMessage.serialize StatusMessage.deserialize
  across = λ i. record {
    seq = u32_bytes m.seq hs i;
    bytes_received = u32_bytes m.bytes_received hb i;
    cpu_load = cpu_across m.cpu_load;
  }

  -- A status message with a load of 1 to 100 percent is received as it was sent.
  pub status_round_trip :
      0 < m.cpu_load → m.cpu_load ≤ 100 → StatusMessage.deserialize (StatusMessage.serialize m) ≡ m
  status_round_trip pos le = across ∙ ap (λ l. record m { cpu_load = l }) same
    where
      same : cpu_across m.cpu_load ≡ m.cpu_load
      same = cpu_across-eq m.cpu_load le ∙ ground arith

  -- An idle sender, with a load of 0, is received as one at 100 percent.
  pub idle_status :
      m.cpu_load ≡ 0 → (StatusMessage.deserialize (StatusMessage.serialize m)).cpu_load ≡ 100
  idle_status e = ap (λ (r : StatusMessage). r.cpu_load) across ∙ ap cpu_across e

-- Whatever bytes arrive, the load that is stored is a percentage.
pub cpu_load-le : (buf : List ℕ) → (StatusMessage.deserialize buf).cpu_load ≤ 100
unfolding StatusMessage.deserialize
cpu_load-le buf = omega arith
