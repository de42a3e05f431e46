-- ===== src/Auth/Response.antt =====
-- The 48 bytes of the response: what the server reads in them is what the client put there.
use btest_rs.Base.{
  ℕ, ◌+◌, ◌-◌, ◌≤◌, ◌≡◌, refl, ap, min, zero, suc, true, none, some, [], ◌∷◌, ◌++◌, Bytes, length,
  length-append, length-take, length-replicate, take, replicate, take_prefix, find_zero, is_utf8,
  append-nil, arith, absent,
}
use btest_rs.Auth.{received_name, auth_response, or_else}

find_zero-absent : (u : Bytes) → absent 0 u ≡ true → find_zero u ≡ none
unfolding find_zero absent
find_zero-absent [] h = refl
find_zero-absent (b ∷ u) h = ground (arith, find_zero-absent u)

find_zero_padded :
    (u : Bytes) (k : ℕ) → absent 0 u ≡ true → find_zero (u ++ replicate (suc k) 0) ≡ some (length u)
unfolding find_zero absent
find_zero_padded [] k h = refl
find_zero_padded (b ∷ u) k h = ground (arith, find_zero_padded u k)

take_all : (n : ℕ) (xs : Bytes) → length xs ≤ n → take n xs ≡ xs
take_all zero [] h = refl
take_all zero (x ∷ xs) h = absurd (omega arith)
take_all (suc n) [] h = refl
take_all (suc n) (x ∷ xs) h = ap (◌∷◌ x) (take_all n xs (omega arith))

-- What the client puts in the field of the name.
abbrev pub name_field : Bytes → Bytes
name_field u = take 32 u ++ replicate (32 - min (length u) 32) 0

name_read :
    (field u : Bytes)
    → take (or_else (find_zero field) 32) field ≡ u
    → is_utf8 u ≡ true
    → received_name field ≡ u
unfolding received_name
name_read field u e t = rw (e, t)

padded_name :
    (u : Bytes) (k : ℕ)
    → length u + k ≡ 32
    → absent 0 u ≡ true
    → is_utf8 u ≡ true
    → received_name (u ++ replicate k 0) ≡ u
unfolding received_name
padded_name u zero h z t =
    rw (append-nil u) (name_read u u (rw (find_zero-absent u z) (take_all 32 u (omega arith))) t)
padded_name u (suc k) h z t =
    name_read (u ++ replicate (suc k) 0) u
      (rw (find_zero_padded u k z) (take_prefix (length u) u (replicate (suc k) 0) refl)) t

-- A name of at most 32 bytes, none of them zero, is read back.
pub received_name-name_field :
    (u : Bytes)
    → length u ≤ 32
    → absent 0 u ≡ true
    → is_utf8 u ≡ true
    → received_name (name_field u) ≡ u
received_name-name_field u h z t =
    rw (take_all 32 u h) (padded_name u (32 - min (length u) 32) (omega arith) z t)

length-name_field : (u : Bytes) → length (name_field u) ≡ 32
length-name_field u =
    let pad = 32 - min (length u) 32 in
    omega (
      arith,
      length-append (take 32 u) (replicate pad 0),
      length-take 32 u,
      length-replicate {A = ℕ} pad 0,
    )

pub length-auth_response : (hash u : Bytes) → length hash ≡ 16 → length (auth_response hash u) ≡ 48
unfolding auth_response
length-auth_response hash u h =
    omega (arith, h, length-append hash (name_field u), length-name_field u)
