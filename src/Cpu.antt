-- ===== src/Cpu.antt =====
-- The load of src/cpu.rs: the counters of /proc/stat on Linux, and the load between two samples. The
-- text of the file is an argument.
pub mod Load
mod Tests
use btest_rs.Base.{
  ℕ, zero, suc, ◌+◌, ◌-◌, ◌*◌, ◌/◌, ◌%◌, min, Bool, true, false, ◌&&◌, ◌||◌, ltb, leb, ◌==◌, List,
  [], ◌∷◌, Option, none, some, Bytes, drop, length, get_or, u64_mod, if◌then◌else◌,
}

abbrev pub is_space : ℕ → Bool
is_space c = c == 32 || leb 9 c && leb c 13

-- `content.lines().next()`; `split_whitespace` takes off a carriage return before the end.
abbrev pub first_line : Bytes → Bytes
first_line [] = []
first_line (c ∷ cs) = let more = first_line cs in if c == 10 then [] else c ∷ more

-- `split_whitespace`, where `word` holds the letters before, the last one first.
unfoldable pub words_from : Bytes → Bytes → List Bytes
words_from [] [] = []
words_from (w ∷ ws) [] = (w ∷ ws) ∷ []
words_from [] (c ∷ cs) =
    let rest = words_from [] cs in
    let longer = words_from (c ∷ []) cs in if is_space c then rest else longer
words_from (w ∷ ws) (c ∷ cs) =
    let rest = words_from [] cs in
    let longer = words_from (c ∷ w ∷ ws) cs in if is_space c then (w ∷ ws) ∷ rest else longer

-- The digits of a word that is read from its end.
unfoldable pub value_of : Bytes → Option ℕ
value_of [] = some 0
value_of (d ∷ ds) = elim (value_of ds) [
  | none ↦ none
  | some v ↦ if leb 48 d && leb d 57 then some (v * 10 + (d - 48)) else none
]

-- `parse::<u64>()` of a word that is not empty: digits, of a number that fits.
unfoldable pub parse_u64 : Bytes → Option ℕ
unfolding value_of
parse_u64 w = elim (value_of w) [ none ↦ none | some v ↦ if ltb v u64_mod then some v else none ]

unfoldable pub parse_all : List Bytes → List ℕ
unfolding parse_u64
parse_all [] = []
parse_all (w ∷ ws) = elim (parse_u64 w) [ none ↦ parse_all ws | some v ↦ v ∷ parse_all ws ]

abbrev pub sum : List ℕ → ℕ
sum [] = 0
sum (x ∷ xs) = x + sum xs

-- The total and the idle ticks; `none` is a file that cannot be read.
unfoldable pub get_cpu_times : Option Bytes → ℕ × ℕ
unfolding words_from parse_all
get_cpu_times none = (0, 0)
get_cpu_times (some content) =
    let parts = parse_all (drop 1 (words_from [] (first_line content))) in
    if leb 4 (length parts) then (sum parts % u64_mod, get_or parts 3 0) else (0, 0)

-- Subtraction of u64.
abbrev pub wrapping_sub : ℕ → ℕ → ℕ
wrapping_sub a b = (a + (u64_mod - b)) % u64_mod

unfoldable pub compute_usage : ℕ × ℕ → ℕ × ℕ → ℕ
compute_usage prev curr =
    let total_diff = curr.0 - prev.0 in
    let idle_diff = curr.1 - prev.1 in
    if total_diff == 0
    then 0
    else (let busy = wrapping_sub total_diff idle_diff in
        min ((busy * 100) % u64_mod / total_diff) 100)
