-- ===== src/CommandLine.antt =====
-- The client's command line in src/main.rs: the direction and the speeds that `run_client` is given,
-- and the text of a speed in src/bandwidth.rs. The products of floating-point numbers are an argument.
pub mod Speeds
mod Tests
use btest_rs.Base.{
  ℕ, ◌-◌, Bool, true, false, ◌==◌, ◌||◌, ◌&&◌, leb, ltb, not, List, [], ◌∷◌, ◌++◌, Option, none,
  some, Bytes, u32_mod, if◌then◌else◌,
}
use btest_rs.Protocol.{cmd_dir_rx, cmd_dir_tx, cmd_dir_both}

-- The arguments of a test: direction and speeds, or the message and exit of a wrong command line.
pub data Plan : Type 0 where
  no_direction : Plan
  bad_bandwidth : Plan
  run : ℕ → ℕ → ℕ → Plan

-- The direction tells the server what to do.
unfoldable pub direction_of : Bool → Bool → Option ℕ
direction_of true false = some cmd_dir_rx
direction_of false true = some cmd_dir_tx
direction_of true true = some cmd_dir_both
direction_of false false = none

unfoldable pub speeds : ℕ → ℕ → ℕ × ℕ
speeds direction bw =
    if direction == cmd_dir_tx
    then (bw, 0)
    else if direction == cmd_dir_rx
    then (0, bw)
    else if direction == cmd_dir_both
    then (bw, bw)
    else (0, 0)

abbrev is_space : ℕ → Bool
is_space c = c == 32 || leb 9 c && leb c 13

abbrev trim_start : Bytes → Bytes
trim_start [] = []
trim_start (c ∷ cs) = let rest = trim_start cs in if is_space c then rest else c ∷ cs

-- Without the spaces at the end.
abbrev trim_end : Bytes → Bytes
trim_end [] = []
trim_end (c ∷ cs) = elim (trim_end cs) [
  | [] ↦ if is_space c then [] else c ∷ []
  | d ∷ ds ↦ c ∷ d ∷ ds
]

-- The number before the last letter, and the factor of the letter.
abbrev with_unit : Bytes → ℕ → Bytes × ℕ
with_unit front c =
    if c == 71 || c == 103
    then (front, 1000000000)
    else if c == 77 || c == 109
    then (front, 1000000)
    else if c == 75 || c == 107
    then (front, 1000)
    else (front ++ c ∷ [], 1)

unfoldable pub split_unit : Bytes → Bytes → Bytes × ℕ
split_unit front [] = (front, 1)
split_unit front (c ∷ []) = with_unit front c
split_unit front (c ∷ d ∷ cs) = split_unit (front ++ c ∷ []) (d ∷ cs)

-- `product number factor` is the number that is parsed, times the factor, cast to u64; `none` is no
-- number.
unfoldable pub parse_bandwidth : (Bytes → ℕ → Option ℕ) → Bytes → Option ℕ
unfolding split_unit
parse_bandwidth product s =
    let trimmed = trim_end (trim_start s) in
    let parts = split_unit [] trimmed in
    elim trimmed [
      | [] ↦ none
      | c ∷ cs ↦ elim (product parts.0 parts.1) [
        | none ↦ none
        | some result ↦ if ltb (u32_mod - 1) result then none else some result
      ]
    ]

abbrev given : (Bytes → ℕ → Option ℕ) → Option Bytes → Option ℕ
given product none = some 0
given product (some b) = parse_bandwidth product b

abbrev pub planned : Option ℕ → Option ℕ → Plan
planned none bw = no_direction
planned (some direction) none = bad_bandwidth
planned (some direction) (some bw) = run direction (speeds direction bw).0 (speeds direction bw).1

unfoldable pub plan : (Bytes → ℕ → Option ℕ) → Bool → Bool → Option Bytes → Plan
unfolding direction_of speeds parse_bandwidth
plan product transmit receive bandwidth =
    planned (direction_of transmit receive) (given product bandwidth)
