-- ===== src/EcSrp5/Sqrt.antt =====
-- `prime_mod_sqrt` of src/ecsrp5.rs. The loops of Tonelli and Shanks run on fuel: the algorithm is for
-- the primes that leave 1 on division by 8, and that of the curve leaves 5.
use btest_rs.Base.{
  ℕ, zero, suc, ◌+◌, ◌-◌, ◌*◌, ◌/◌, ◌%◌, ◌^◌, leb, ◌==◌, Bool, true, false, ◌||◌, Option, none,
  some, if◌then◌else◌,
}
use btest_rs.EcSrp5.Field.{Modpow, Legendre, legendre_symbol}

-- `Option<(BigUint, BigUint)>`, or the fuel is spent.
pub data Roots : Type 0 where
  roots : ℕ → ℕ → Roots
  no_roots : Roots
  spent : Roots

-- `while q.is_even()`: the odd part of `q`, and how often it was halved.
unfoldable pub odd_part : ℕ → ℕ → ℕ → Option (ℕ × ℕ)
odd_part zero q s = none
odd_part (suc fuel) q s =
    let more = odd_part fuel (q / 2) (suc s) in if q % 2 == 0 then more else some (q, s)

unfoldable pub is_non_residue : Legendre → Bool
is_non_residue Legendre.non_residue = true
is_non_residue _ = false

unfoldable pub find_non_residue : ℕ → Modpow → ℕ → ℕ → Option ℕ
unfolding is_non_residue legendre_symbol
find_non_residue zero modpow p z = none
find_non_residue (suc fuel) modpow p z =
    let more = find_non_residue fuel modpow p (z + 1) in
    if is_non_residue (legendre_symbol modpow z p) then some z else more

-- How often a number is squared until it is 1.
unfoldable pub squarings : ℕ → ℕ → ℕ → ℕ → Option ℕ
squarings zero p tmp i = none
squarings (suc fuel) p tmp i =
    let more = squarings fuel p ((tmp * tmp) % p) (i + 1) in if tmp == 1 then some i else more

unfoldable pub tonelli_loop : ℕ → Modpow → ℕ → ℕ → ℕ → ℕ → ℕ → Roots
unfolding squarings
tonelli_loop zero modpow p c x t m = Roots.spent
tonelli_loop (suc fuel) modpow p c x t m =
    if t == 1 then Roots.roots x (p - x) else elim (squarings fuel p ((t * t) % p) 1) [
      | none ↦ Roots.spent
      | some i ↦
          let b = modpow c (2 ^ (m - i - 1)) p in
          tonelli_loop fuel modpow p ((b * b) % p) ((x * b) % p) (((t * b % p) * b) % p) i
    ]

unfoldable pub tonelli_shanks : ℕ → Modpow → ℕ → ℕ → Roots
unfolding odd_part find_non_residue tonelli_loop
tonelli_shanks fuel modpow a p = elim (odd_part fuel (p - 1) 0) [
  | none ↦ Roots.spent
  | some (q, s) ↦ elim (find_non_residue fuel modpow p 2) [
    | none ↦ Roots.spent
    | some z ↦ tonelli_loop fuel modpow p (modpow z q p) (modpow a ((q + 1) / 2) p) (modpow a q p) s
  ]
]

-- Atkin's algorithm, for p ≡ 5 (mod 8), where `a` is not 0. Its result is squared again.
unfoldable pub atkin : Modpow → ℕ → ℕ → Roots
atkin modpow a p =
    let v = modpow ((2 * a) % p) ((p - 5) / 8) p in
    let i_val = (2 * a % p * v % p * v) % p in
    let i_minus_1 = if leb 1 i_val then (i_val - 1) % p else (p - 1 + i_val) % p in
    let x = (a * v % p * i_minus_1) % p in
    if (x * x) % p == a then Roots.roots x (p - x) else Roots.no_roots

unfoldable pub is_residue : Legendre → Bool
is_residue Legendre.residue = true
is_residue _ = false

unfoldable pub prime_mod_sqrt : ℕ → Modpow → ℕ → ℕ → Roots
unfolding is_residue legendre_symbol atkin tonelli_shanks
prime_mod_sqrt fuel modpow n p =
    let a = n % p in
    if a == 0
    then Roots.roots 0 0
    else if is_residue (legendre_symbol modpow a p)
    then (if p % 8 == 5
        then atkin modpow a p
        else if p % 8 == 3 || p % 8 == 7
        then (let x = modpow a ((p + 1) / 4) p in Roots.roots x (p - x))
        else tonelli_shanks fuel modpow a p)
    else Roots.no_roots
