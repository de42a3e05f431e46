-- ===== src/EcSrp5/Octets.antt =====
-- The numbers of src/ecsrp5.rs as bytes, the most significant first.
use btest_rs.Base.{
  ℕ, zero, suc, ◌+◌, ◌-◌, ◌*◌, ◌/◌, ◌%◌, min, ◌==◌, [], ◌∷◌, ◌++◌, Bytes, length, take, drop,
  replicate, if◌then◌else◌,
}

-- `to_bytes_be`: no leading zeros, and one byte for 0.
unfoldable pub to_bytes_be_from : ℕ → ℕ → Bytes → Bytes
to_bytes_be_from zero n acc = acc
to_bytes_be_from (suc fuel) n acc =
    let bytes = n % 256 ∷ acc in
    let more = to_bytes_be_from fuel (n / 256) bytes in if n / 256 == 0 then bytes else more

unfoldable pub to_bytes_be : ℕ → Bytes
unfolding to_bytes_be_from
to_bytes_be n = to_bytes_be_from (suc n) n []

-- `from_bytes_be`, after the bytes that gave `acc`
unfoldable pub from_bytes_be_from : ℕ → Bytes → ℕ
from_bytes_be_from acc [] = acc
from_bytes_be_from acc (b ∷ bs) = from_bytes_be_from (acc * 256 + b) bs

unfoldable pub from_bytes_be : Bytes → ℕ
unfolding from_bytes_be_from
from_bytes_be bs = from_bytes_be_from 0 bs

-- The 32 low bytes.
unfoldable pub bigint_to_32bytes : ℕ → Bytes
unfolding to_bytes_be
bigint_to_32bytes val =
    let bytes = to_bytes_be val in
    let copy_len = min (length bytes) 32 in
    replicate (32 - length bytes) 0 ++ drop (length bytes - copy_len) bytes

-- The copy of `to_montgomery`, which keeps the first 32 bytes.
unfoldable pub coordinate_bytes : ℕ → Bytes
unfolding to_bytes_be
coordinate_bytes x =
    let x_bytes = to_bytes_be x in
    let copied = min (length x_bytes) 32 in replicate (32 - copied) 0 ++ take copied x_bytes
