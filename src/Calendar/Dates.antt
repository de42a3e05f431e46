-- ===== src/Calendar/Dates.antt =====
-- The dates of src/server_pro/user_db.rs and src/syslog_logger.rs are right.
use btest_rs.Base.{
  ℕ, zero, suc, ◌+◌, ◌-◌, ◌%◌, ◌==◌, ◌&&◌, passes_to, passes_at, refl, ◌≤◌, ◌<◌, ◌≡◌, Bool, true,
  false, Bool-cases, inl, inr, length, List, [], ◌∷◌, Option, none, some, take, get_or, ltb,
  if◌then◌else◌, arith,
}
use btest_rs.Calendar.{
  is_leap, year_length, find_year, find_month, days_in_months, date_in, date_of,
}
use btest_rs.Calendar.Years.{IsDaysBefore, IsYearOf, find_year-IsYearOf}

abbrev pub total : List ℕ → ℕ
total [] = 0
total (x ∷ xs) = x + total xs

-- A month and a day in it, of the day `r` of a year.
abbrev pub IsDayOf : Bool → ℕ → ℕ × ℕ → Type 0
IsDayOf leap r f =
    (f.0 < 12)
    × (f.1 < get_or (days_in_months leap) f.0 0)
    × (total (take f.0 (days_in_months leap)) + f.1 ≡ r)

-- What the loop finds in a list of months that it enters with the index `i`.
record IsAt (ds : List ℕ) (i r : ℕ) (f : ℕ × ℕ) : Type 0 where
  passed : ℕ
  index : f.0 ≡ passed + i
  month : passed < length ds
  day : f.1 < get_or ds passed 0
  sum : total (take passed ds) + f.1 ≡ r

find_month-IsAt : (ds : List ℕ) (i r : ℕ) → r < total ds → IsAt ds i r (find_month ds i r)
unfolding find_month
find_month-IsAt [] i r h = absurd (omega arith)
find_month-IsAt (d ∷ ds) i r h = elim (Bool-cases (ltb r d)) [
  | inl e ↦ rw e (record {
    passed = 0;
    index = omega arith;
    month = omega arith;
    day = ground arith;
    sum = omega arith;
  })
  | inr e ↦
      let more = find_month-IsAt ds (i + 1) (r - d) (ground arith) in
      rw e (record {
        passed = suc more.passed;
        index = omega (arith, more.index);
        month = omega (arith, more.month);
        day = more.day;
        sum = ground (arith, more.sum);
      })
]

at_passed : {ds : List ℕ} {r : ℕ} {f : ℕ × ℕ} (v : IsAt ds 0 r f) → f.0 ≡ v.passed
at_passed v = omega (arith, v.index)

at_0 : (leap : Bool) (r : ℕ) {f : ℕ × ℕ} → IsAt (days_in_months leap) 0 r f → IsDayOf leap r f
at_0 leap r {f} v = rw (at_passed v) (v.month, v.day, v.sum)

find_month-IsDayOf :
    (leap : Bool) (r : ℕ)
    → r < (if leap then 366 else 365)
    → IsDayOf leap r (find_month (days_in_months leap) 0 r)
find_month-IsDayOf true r h = at_0 true r (find_month-IsAt (days_in_months true) 0 r h)
find_month-IsDayOf false r h = at_0 false r (find_month-IsAt (days_in_months false) 0 r h)

-- The days of a month, which counts from 0: February has 28 or 29, and the others alternate between
-- 31 and 30, starting anew with August.
abbrev pub month_days : Bool → ℕ → ℕ
month_days leap m = if m == 1 then (if leap then 29 else 28) else 31 - m % 7 % 2

-- The days before a month.
abbrev pub days_before : Bool → ℕ → ℕ
days_before leap zero = 0
days_before leap (suc m) = days_before leap m + month_days leap m

abbrev agrees : Bool → ℕ → Bool
agrees leap m =
    (get_or (days_in_months leap) m 0 == month_days leap m)
    && (total (take m (days_in_months leap)) == days_before leap m)

all_agree : (leap : Bool) → passes_to (agrees leap) 12 ≡ true
unfolding passes_to
all_agree true = refl
all_agree false = refl

both_equal : (a b x y : ℕ) → ((a == b) && (x == y)) ≡ true → (a ≡ b) × (x ≡ y)
both_equal a b x y h = (ground arith, ground arith)

months_agree :
    (leap : Bool) (m : ℕ)
    → m < 12
    → (get_or (days_in_months leap) m 0 ≡ month_days leap m)
      × (total (take m (days_in_months leap)) ≡ days_before leap m)
months_agree leap m h =
    both_equal (get_or (days_in_months leap) m 0) (month_days leap m)
      (total (take m (days_in_months leap))) (days_before leap m)
      (passes_at (agrees leap) 12 (all_agree leap) m h)

-- The date of a day since 1970: a year, a month and a day that the calendar has. The number of
-- `days`, counted from the year 0 on, is the days before the year, by the closed formula with its
-- leap years, the days of the months before, and the days before this one.
abbrev pub IsDateOf : ℕ → Option (ℕ × ℕ × ℕ) → Type 0
IsDateOf number none = ⊥
IsDateOf number (some (y, m, d)) =
    let before = days_before (is_leap y) m + d in
    (m < 12) × (d < month_days (is_leap y) m) × (before ≤ number) × IsDaysBefore y (number - before)

in_year : (number : ℕ) (o : Option (ℕ × ℕ)) → IsYearOf number o → IsDateOf number (date_in o)
unfolding year_length
in_year number none v = v
in_year number (some (y, r)) (small, le, before) =
    let (m, d) = find_month (days_in_months (is_leap y)) 0 r in
    let found = find_month-IsDayOf (is_leap y) r small in
    let agree = months_agree (is_leap y) m found.0 in
    let same : days_before (is_leap y) m + d ≡ r = omega (arith, agree.1, found.2) in
    rw same (found.0, omega (arith, agree.0, found.1), le, before)

-- Every number of days since 1970 has a date, which is the right one of the Gregorian calendar: the
-- loops end, and the day and the month exist. The first day of 1970 has the number 719528.
pub date_of-IsDateOf : (days : ℕ) → IsDateOf (719528 + days) (date_of days)
unfolding date_of
date_of-IsDateOf days =
    in_year (719528 + days) (find_year (days + 1) 1970 days)
      (find_year-IsYearOf (days + 1) 1970 days 719528 (omega arith) (omega arith))
