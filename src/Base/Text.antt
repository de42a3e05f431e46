-- ===== src/Base/Text.antt =====
-- Text as bytes: literals, decimal numbers, and `contains`.
use Prim.Native.Nat.{ℕ, zero, suc, ◌+◌, ◌/◌, ◌%◌, ◌<◌}
use Prim.Native.Char.{code}
use Prim.Native.String.{String}
use mathlib.Core.Path.{◌≡◌, refl}
use mathlib.Core.Bool.{Bool, true, false, not, ◌&&◌, ◌||◌}
use mathlib.Core.List.{[], ◌∷◌, ◌++◌}
use native.Mathlib.Omega.{arith}
use btest_rs.Base.Tests.{◌==◌, ltb, if◌then◌else◌}
use btest_rs.Base.Lists.{Bytes}

-- The bytes of an ASCII literal.
abbrev pub codes : String → Bytes
codes String.[] = []
codes (String.◌∷◌ c s) = code c ∷ codes s

-- The decimal digits of a number, before `acc`; a number has fewer digits than its successor.
unfoldable pub show_from : ℕ → ℕ → Bytes → Bytes
show_from zero n acc = acc
show_from (suc fuel) n acc =
    let digits = (48 + n % 10) ∷ acc in
    let more = show_from fuel (n / 10) digits in if n / 10 == 0 then digits else more

-- `{}` of an unsigned integer
unfoldable pub show : ℕ → Bytes
unfolding show_from
show n = show_from (suc n) n []

unfoldable pub starts : Bytes → Bytes → Bool
starts [] s = true
starts (p ∷ ps) [] = false
starts (p ∷ ps) (c ∷ cs) = p == c && starts ps cs

-- `s.contains(pattern)`
unfoldable pub contains : Bytes → Bytes → Bool
unfolding starts
contains pattern_ [] = starts pattern_ []
contains pattern_ (c ∷ cs) = starts pattern_ (c ∷ cs) || contains pattern_ cs

-- A text in which a byte does not occur.
unfoldable pub absent : ℕ → Bytes → Bool
absent c [] = true
absent c (x ∷ xs) = not (x == c) && absent c xs

pub absent-append :
    (c : ℕ) (xs ys : Bytes) → absent c xs ≡ true → absent c ys ≡ true → absent c (xs ++ ys) ≡ true
unfolding absent
absent-append c [] ys h k = k
absent-append c (x ∷ xs) ys h k = ground (arith, absent-append c xs ys)

absent-show_from :
    (c fuel n : ℕ) (acc : Bytes)
    → ltb 47 c && ltb c 58 ≡ false
    → absent c acc ≡ true
    → absent c (show_from fuel n acc) ≡ true
unfolding absent show_from
absent-show_from c zero n acc h k = k
absent-show_from c (suc fuel) n acc h k =
    ground (arith, absent-show_from c fuel (n / 10) ((48 + n % 10) ∷ acc))

-- A number has digits only.
pub absent-show_number : (c n : ℕ) → ltb 47 c && ltb c 58 ≡ false → absent c (show n) ≡ true
unfolding show absent
absent-show_number c n h = absent-show_from c (suc n) n [] h refl

pub absent-show : (c n : ℕ) → 57 < c → absent c (show n) ≡ true
absent-show c n h = absent-show_number c n (ground arith)

-- A pattern is not found where its first byte does not occur.
pub contains-absent : (c : ℕ) (p s : Bytes) → absent c s ≡ true → contains (c ∷ p) s ≡ false
unfolding contains absent
contains-absent c p [] h = refl
contains-absent c p (x ∷ xs) h = ground (arith, contains-absent c p xs)
