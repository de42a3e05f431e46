-- ===== src/Quota/Connections.antt =====
-- `active_connections` of src/server_pro/quota.rs: a map from an address to a u32, as an association
-- list.
use btest_rs.Base.{
  ℕ, ◌+◌, ◌-◌, ◌%◌, ◌≡◌, List, [], ◌∷◌, arith, Bytes, bytes_eq, bytes_eq_iff, if◌then◌else◌, ◌==◌,
  u32_mod,
}

-- `conns.get(ip).copied().unwrap_or(0)`
unfoldable pub count_of : Bytes → List (Bytes × ℕ) → ℕ
count_of ip [] = 0
count_of ip ((key, n) ∷ rest) = if bytes_eq key ip then n else count_of ip rest

-- `*conns.entry(*ip).or_insert(0) += 1`
unfoldable pub add_one : Bytes → List (Bytes × ℕ) → List (Bytes × ℕ)
add_one ip [] = (ip, 1) ∷ []
add_one ip ((key, n) ∷ rest) =
    if bytes_eq key ip then (key, (n + 1) % u32_mod) ∷ rest else (key, n) ∷ add_one ip rest

abbrev pub remove_key : Bytes → List (Bytes × ℕ) → List (Bytes × ℕ)
remove_key ip [] = []
remove_key ip ((key, n) ∷ rest) =
    let others = remove_key ip rest in if bytes_eq key ip then others else (key, n) ∷ others

-- The entry less one, and gone at 0.
unfoldable pub take_one : Bytes → List (Bytes × ℕ) → List (Bytes × ℕ)
take_one ip [] = []
take_one ip ((key, n) ∷ rest) =
    if bytes_eq key ip
    then (if n - 1 == 0 then remove_key ip rest else (key, n - 1) ∷ rest)
    else (key, n) ∷ take_one ip rest

count_of-remove_key :
    (ip other : Bytes) (conns : List (Bytes × ℕ))
    → count_of other (remove_key ip conns) ≡ (if bytes_eq ip other then 0 else count_of other conns)
unfolding count_of
count_of-remove_key ip other [] = ground arith
count_of-remove_key ip other ((key, n) ∷ rest) = ground (
  arith,
  count_of-remove_key ip other rest,
  bytes_eq_iff key ip,
  bytes_eq_iff key other,
  bytes_eq_iff ip other,
)

pub count_of-add_one :
    (ip other : Bytes) (conns : List (Bytes × ℕ))
    → count_of other (add_one ip conns)
      ≡ (if bytes_eq ip other then (count_of other conns + 1) % u32_mod else count_of other conns)
unfolding count_of add_one
count_of-add_one ip other [] = ground arith
count_of-add_one ip other ((key, n) ∷ rest) = ground (
  arith,
  count_of-add_one ip other rest,
  bytes_eq_iff key ip,
  bytes_eq_iff key other,
  bytes_eq_iff ip other,
)

pub count_of-take_one :
    (ip other : Bytes) (conns : List (Bytes × ℕ))
    → count_of other (take_one ip conns)
      ≡ (if bytes_eq ip other then count_of other conns - 1 else count_of other conns)
unfolding count_of take_one
count_of-take_one ip other [] = ground arith
count_of-take_one ip other ((key, n) ∷ rest) = ground (
  arith,
  count_of-take_one ip other rest,
  count_of-remove_key ip other rest,
  bytes_eq_iff key ip,
  bytes_eq_iff key other,
  bytes_eq_iff ip other,
)
