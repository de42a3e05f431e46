-- ===== src/Base/Words.antt =====
-- Machine words: wrap-around of the unsigned types, and their bytes in both orders.
use Prim.Native.Nat.{ℕ, ◌+◌, ◌*◌, ◌/◌, ◌%◌, ◌^◌, ◌<◌}
use mathlib.Core.Path.{◌≡◌}
use mathlib.Core.List.{List, [], ◌∷◌}
use native.Mathlib.Omega.{arith}

abbrev pub u8_mod : ℕ
u8_mod = 2 ^ 8

abbrev pub u16_mod : ℕ
u16_mod = 2 ^ 16

abbrev pub u32_mod : ℕ
u32_mod = 2 ^ 32

abbrev pub u64_mod : ℕ
u64_mod = 2 ^ 64

abbrev pub u64_max : ℕ
u64_max = 18446744073709551615

-- `to_le_bytes` and `to_be_bytes`
abbrev pub u16_le : ℕ → List ℕ
u16_le n = n % 256 ∷ n / 256 % 256 ∷ []

abbrev pub u16_be : ℕ → List ℕ
u16_be n = n / 256 % 256 ∷ n % 256 ∷ []

abbrev pub u32_le : ℕ → List ℕ
u32_le n = n % 256 ∷ n / 256 % 256 ∷ n / 65536 % 256 ∷ n / 16777216 % 256 ∷ []

abbrev pub u32_be : ℕ → List ℕ
u32_be n = n / 16777216 % 256 ∷ n / 65536 % 256 ∷ n / 256 % 256 ∷ n % 256 ∷ []

-- `from_le_bytes`; big endian is the same with the arguments turned round.
abbrev pub u16_of : ℕ → ℕ → ℕ
u16_of b0 b1 = b0 + b1 * 256

abbrev pub u32_of : ℕ → ℕ → ℕ → ℕ → ℕ
u32_of b0 b1 b2 b3 = b0 + b1 * 256 + b2 * 65536 + b3 * 16777216

pub u16_bytes : (n : ℕ) → n < u16_mod → u16_of (n % 256) (n / 256 % 256) ≡ n
u16_bytes n h = omega arith

pub u32_bytes :
    (n : ℕ)
    → n < u32_mod
    → u32_of (n % 256) (n / 256 % 256) (n / 65536 % 256) (n / 16777216 % 256) ≡ n
u32_bytes n h = omega arith
