-- ===== src/Base/Utf8.antt =====
-- `std::str::from_utf8`: which byte strings are text.
use Prim.Native.Nat.{ℕ, zero, suc}
use mathlib.Core.Bool.{Bool, true, false, ◌&&◌}
use mathlib.Core.List.{List, [], ◌∷◌}
use btest_rs.Base.Tests.{ltb, leb, ◌==◌, if◌then◌else◌}

-- The next byte of a started character is in `low`..`high`; after it, `more` bytes in 0x80..0xBF.
-- The arguments are the number of bytes that the character still needs, and the range of the next.
unfoldable pub utf8_from : ℕ → ℕ → ℕ → List ℕ → Bool
utf8_from zero low high [] = true
utf8_from zero low high (b ∷ bs) =
    let plain = utf8_from 0 0 0 bs in
    let two = utf8_from 1 0x80 0xBF bs in
    let three = (λ (l h : ℕ). utf8_from 2 l h bs) in
    let four = (λ (l h : ℕ). utf8_from 3 l h bs) in
    if ltb b 0x80
    then plain
    else if ltb b 0xC2
    then false
    else if ltb b 0xE0
    then two
    else if b == 0xE0
    then three 0xA0 0xBF
    else if b == 0xED
    then three 0x80 0x9F
    else if ltb b 0xF0
    then three 0x80 0xBF
    else if b == 0xF0
    then four 0x90 0xBF
    else if ltb b 0xF4
    then four 0x80 0xBF
    else if b == 0xF4
    then four 0x80 0x8F
    else false
utf8_from (suc n) low high [] = false
utf8_from (suc n) low high (b ∷ bs) = (leb low b && leb b high) && utf8_from n 0x80 0xBF bs

unfoldable pub is_utf8 : List ℕ → Bool
unfolding utf8_from
is_utf8 bs = utf8_from 0 0 0 bs
