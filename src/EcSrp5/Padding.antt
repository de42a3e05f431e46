-- ===== src/EcSrp5/Padding.antt =====
-- The byte strings of src/ecsrp5.rs are read back to the numbers they were made from.
use btest_rs.Base.{
  ℕ, zero, suc, ◌≡◌, ◌<◌, ◌≤◌, ◌+◌, ◌-◌, ◌*◌, ◌/◌, ◌%◌, ◌^◌, min, ◌==◌, refl, sym, ap, subst, ◌∙◌,
  [], ◌∷◌, ◌++◌, append-nil, Bytes, length, take, drop, replicate, length-append, length-replicate,
  take_prefix, Bool, true, false, if◌then◌else◌, arith,
}
use btest_rs.EcSrp5.Octets.{
  to_bytes_be, to_bytes_be_from, from_bytes_be, from_bytes_be_from, bigint_to_32bytes,
  coordinate_bytes,
}

-- 256 ^ k
abbrev octets : ℕ → ℕ
octets zero = 1
octets (suc k) = 256 * octets k

length-to_bytes_be_from :
    (fuel k n : ℕ) (acc : Bytes)
    → n < octets (suc k)
    → length (to_bytes_be_from fuel n acc) ≤ suc k + length acc
unfolding to_bytes_be_from
length-to_bytes_be_from zero k n acc h = omega arith
length-to_bytes_be_from (suc fuel) zero n acc h = ground arith
length-to_bytes_be_from (suc fuel) (suc k) n acc h =
    ground (arith, length-to_bytes_be_from fuel k (n / 256) (n % 256 ∷ acc))

last_digit : (n : ℕ) → (n / 256 == 0) ≡ true → 0 * 256 + n % 256 ≡ n
last_digit n h = ground arith

digits : (n : ℕ) → n / 256 * 256 + n % 256 ≡ n
digits n = omega arith

fewer : (fuel n : ℕ) → n < suc fuel → (n / 256 == 0) ≡ false → n / 256 < fuel
fewer fuel n h more = ground arith

either_value :
    (b : Bool) (xs ys : Bytes) (v : ℕ)
    → (b ≡ true → from_bytes_be_from 0 xs ≡ v)
    → (b ≡ false → from_bytes_be_from 0 ys ≡ v)
    → from_bytes_be_from 0 (if b then xs else ys) ≡ v
either_value true xs ys v f g = f refl
either_value false xs ys v f g = g refl

value-to_bytes_be_from :
    (fuel n : ℕ) (acc : Bytes)
    → n < fuel
    → from_bytes_be_from 0 (to_bytes_be_from fuel n acc) ≡ from_bytes_be_from n acc
unfolding to_bytes_be_from from_bytes_be_from
value-to_bytes_be_from zero n acc h = absurd (omega arith)
value-to_bytes_be_from (suc fuel) n acc h =
    either_value (n / 256 == 0) (n % 256 ∷ acc) (to_bytes_be_from fuel (n / 256) (n % 256 ∷ acc))
      (from_bytes_be_from n acc) (λ last. ap (λ v. from_bytes_be_from v acc) (last_digit n last))
      (λ more.
        value-to_bytes_be_from fuel (n / 256) (n % 256 ∷ acc) (fewer fuel n h more)
        ∙ ap (λ v. from_bytes_be_from v acc) (digits n))

leading_zeros : (k : ℕ) (bs : Bytes) → from_bytes_be (replicate k 0 ++ bs) ≡ from_bytes_be bs
unfolding from_bytes_be
leading_zeros zero bs = refl
leading_zeros (suc k) bs = leading_zeros k bs

take_all : (xs : Bytes) → take (length xs) xs ≡ xs
take_all xs = ap (take (length xs)) (sym (append-nil xs)) ∙ take_prefix (length xs) xs [] refl

value-to_bytes_be : (n : ℕ) → from_bytes_be (to_bytes_be n) ≡ n
unfolding to_bytes_be from_bytes_be
value-to_bytes_be n = value-to_bytes_be_from (suc n) n [] (omega arith)

length-to_bytes_be : (n : ℕ) → n < 2 ^ 256 → length (to_bytes_be n) ≤ 32
unfolding to_bytes_be
length-to_bytes_be n h =
    omega (arith, length-to_bytes_be_from (suc n) 31 n [] (subst (λ b. n < b) refl h))

min_short : (n : ℕ) → n ≤ 32 → min n 32 ≡ n
min_short n h = omega arith

no_excess : (n : ℕ) → n - n ≡ 0
no_excess n = omega arith

padded :
    (bytes : Bytes) (n : ℕ)
    → from_bytes_be bytes ≡ n
    → length bytes ≤ 32
    → let copied = min (length bytes) 32 in
      (from_bytes_be (replicate (32 - copied) 0 ++ take copied bytes) ≡ n)
      × ((replicate (32 - length bytes) 0 ++ drop (length bytes - copied) bytes
            ≡ replicate (32 - copied) 0 ++ take copied bytes)
          × (length (replicate (32 - copied) 0 ++ take copied bytes) ≡ 32))
padded bytes n value short =
    rw (min_short (length bytes) short, take_all bytes, no_excess (length bytes))
      (
        leading_zeros (32 - length bytes) bytes ∙ value,
        (
          refl,
          omega (
            arith,
            length-append (replicate (32 - length bytes) 0) bytes,
            length-replicate {A = ℕ} (32 - length bytes) 0,
          ),
        ),
      )

-- A number of at most 32 bytes is padded to 32, both where a coordinate is sent and where a digest is
-- counted on, and is read back.
pub padded_alike :
    (n : ℕ)
    → n < 2 ^ 256
    → (from_bytes_be (coordinate_bytes n) ≡ n)
      × ((bigint_to_32bytes n ≡ coordinate_bytes n) × (length (coordinate_bytes n) ≡ 32))
unfolding coordinate_bytes bigint_to_32bytes
padded_alike n h = padded (to_bytes_be n) n (value-to_bytes_be n) (length-to_bytes_be n h)
