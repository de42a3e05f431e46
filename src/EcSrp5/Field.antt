-- ===== src/EcSrp5/Field.antt =====
-- The field of src/ecsrp5.rs: its constants, inverses, the Legendre symbol, and differences.
use btest_rs.Base.{ℕ, ◌-◌, ◌/◌, ◌%◌, leb, ◌==◌, if◌then◌else◌}

abbrev pub field_p : ℕ
field_p = 0x7fffffffffffffffffffffffffffffffffffffffffffffffffffffffffffffed

abbrev pub curve_order : ℕ
curve_order = 0x1000000000000000000000000000000014def9dea2f79cd65812631a5cf5d3ed

abbrev pub weierstrass_a : ℕ
weierstrass_a = 0x2aaaaaaaaaaaaaaaaaaaaaaaaaaaaaaaaaaaaaaaaaaaaaaaaaaaaa984914a144

abbrev pub mont_a : ℕ
mont_a = 486662

-- `modpow a exponent modulus`
abbrev pub Modpow : Type 0
Modpow = ℕ → ℕ → ℕ → ℕ

-- Fermat's little theorem: a^(p - 2) mod p
unfoldable pub modinv : Modpow → ℕ → ℕ → ℕ
modinv modpow a modulus = modpow a (modulus - 2) modulus

-- -1, 0 and 1
pub data Legendre : Type 0 where
  non_residue : Legendre
  divisible : Legendre
  residue : Legendre

unfoldable pub legendre_symbol : Modpow → ℕ → ℕ → Legendre
legendre_symbol modpow a p =
    let l = modpow a ((p - 1) / 2) p in
    if l == p - 1
    then Legendre.non_residue
    else if l == 0
    then Legendre.divisible
    else Legendre.residue

-- The difference of two numbers below `p`, as the code writes it out at each of its uses.
unfoldable pub mod_sub : ℕ → ℕ → ℕ → ℕ
mod_sub p a b = if leb b a then (a - b) % p else (p - (b - a) % p) % p
