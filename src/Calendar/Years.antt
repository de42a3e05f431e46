-- ===== src/Calendar/Years.antt =====
-- The loop over the years against the closed formula of the Gregorian calendar.
use btest_rs.Base.{
  ℕ, zero, suc, ◌+◌, ◌-◌, ◌*◌, ◌/◌, ◌≤◌, ◌<◌, ◌≡◌, subst, false, Option, none, some, ltb, arith,
  Bool-cases, inl, inr,
}
use btest_rs.Calendar.{is_leap, year_length, find_year}

-- The leap years among the years before `y`, of which there are as many as multiples of 4, less those
-- of 100, and again those of 400.
abbrev pub IsLeapCount : ℕ → ℕ → Type 0
IsLeapCount y n = n + (y + 99) / 100 ≡ (y + 3) / 4 + (y + 399) / 400

-- The days before the year `y`, from the year 0 on.
abbrev pub IsDaysBefore : ℕ → ℕ → Type 0
IsDaysBefore y n = n + (y + 99) / 100 ≡ 365 * y + (y + 3) / 4 + (y + 399) / 400

next_year : (y n : ℕ) → IsDaysBefore y n → IsDaysBefore (y + 1) (n + year_length y)
unfolding year_length is_leap
next_year y n h = ground arith

-- A year and a day in it, of the day with the number `total` from the year 0 on.
abbrev pub IsYearOf : ℕ → Option (ℕ × ℕ) → Type 0
IsYearOf total none = ⊥
IsYearOf total (some (y, r)) = (r < year_length y) × (r ≤ total) × IsDaysBefore y (total - r)

year_positive : (y : ℕ) → 365 ≤ year_length y
unfolding year_length
year_positive y = ground arith

at_least : (a b : ℕ) → ltb a b ≡ false → b ≤ a
at_least a b h = ground arith

pub find_year-IsYearOf :
    (fuel y r n : ℕ) → r < fuel → IsDaysBefore y n → IsYearOf (n + r) (find_year fuel y r)
unfolding find_year
find_year-IsYearOf zero y r n h before = absurd (omega arith)
find_year-IsYearOf (suc fuel) y r n h before = elim (Bool-cases (ltb r (year_length y))) [
  | inl e ↦ rw e (ground arith, omega arith, omega arith)
  | inr e ↦
      let full = at_least r (year_length y) e in
      rw e (
        subst (λ total. IsYearOf total (find_year fuel (y + 1) (r - year_length y)))
          (omega (arith, full))
          (find_year-IsYearOf fuel (y + 1) (r - year_length y) (n + year_length y)
            (omega (arith, full, year_positive y)) (next_year y n before)))
]
