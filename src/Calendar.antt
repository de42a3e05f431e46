-- ===== src/Calendar.antt =====
-- The date arithmetic of src/server_pro/user_db.rs and src/syslog_logger.rs: from the seconds since
-- 1970 to a date, a year and then a month at a time.
pub mod Years
pub mod Dates
mod Tests
use btest_rs.Base.{
  ℕ, zero, suc, ◌+◌, ◌-◌, ◌/◌, ◌%◌, Bool, not, ◌&&◌, ◌||◌, List, [], ◌∷◌, ◌++◌, Option, none, some,
  Bytes, length, replicate, get_or, ltb, ◌==◌, if◌then◌else◌, show, codes,
}

unfoldable pub is_leap : ℕ → Bool
is_leap y = y % 4 == 0 && (not (y % 100 == 0) || y % 400 == 0)

unfoldable pub year_length : ℕ → ℕ
unfolding is_leap
year_length y = if is_leap y then 366 else 365

-- The loop over the years: the year, and the days into it. `none` is out of fuel; a year takes off
-- at least 365 days, so the number of days and one more is enough.
unfoldable pub find_year : ℕ → ℕ → ℕ → Option (ℕ × ℕ)
unfolding year_length
find_year zero y remaining = none
find_year (suc fuel) y remaining =
    let later = find_year fuel (y + 1) (remaining - year_length y) in
    if ltb remaining (year_length y) then some (y, remaining) else later

-- The loop over the months: the index, and the days into it. Past the last month the index is 0.
unfoldable pub find_month : List ℕ → ℕ → ℕ → ℕ × ℕ
find_month [] i remaining = (0, remaining)
find_month (d ∷ ds) i remaining =
    let later = find_month ds (i + 1) (remaining - d) in
    if ltb remaining d then (i, remaining) else later

abbrev pub days_in_months : Bool → List ℕ
days_in_months leap =
    31 ∷ (if leap then 29 else 28) ∷ 31 ∷ 30 ∷ 31 ∷ 30 ∷ 31 ∷ 31 ∷ 30 ∷ 31 ∷ 30 ∷ 31 ∷ []

-- The month counts from 0 and so does the day.
abbrev pub date_in : Option (ℕ × ℕ) → Option (ℕ × ℕ × ℕ)
date_in none = none
date_in (some (y, remaining)) =
    let found = find_month (days_in_months (is_leap y)) 0 remaining in some (y, found.0, found.1)

unfoldable pub date_of : ℕ → Option (ℕ × ℕ × ℕ)
unfolding find_year find_month
date_of days = date_in (find_year (days + 1) 1970 days)

-- `{:0w}` and `{:w}`
abbrev pub padded : ℕ → ℕ → ℕ → Bytes
padded fill w n = replicate (w - length (show n)) fill ++ show n

abbrev date_text : Option (ℕ × ℕ × ℕ) → Bytes
date_text none = []
date_text (some (y, m, d)) =
    padded 48 4 y ++ (codes "-" ++ (padded 48 2 (m + 1) ++ (codes "-" ++ padded 48 2 (d + 1))))

unfoldable pub chrono_date_today : ℕ → Bytes
unfolding date_of
chrono_date_today secs = date_text (date_of (secs / 86400))

abbrev pub month_name : ℕ → Bytes
month_name m =
    get_or
      (codes "Jan"
        ∷ codes "Feb"
        ∷ codes "Mar"
        ∷ codes "Apr"
        ∷ codes "May"
        ∷ codes "Jun"
        ∷ codes "Jul"
        ∷ codes "Aug"
        ∷ codes "Sep"
        ∷ codes "Oct"
        ∷ codes "Nov"
        ∷ codes "Dec"
        ∷ [])
      m []

abbrev day_text : Option (ℕ × ℕ × ℕ) → Bytes
day_text none = []
day_text (some (y, m, d)) = month_name m ++ (codes " " ++ padded 32 2 (d + 1))

unfoldable pub bsd_timestamp : ℕ → Bytes
unfolding date_of
bsd_timestamp now =
    let time_of_day = now % 86400 in
    day_text (date_of (now / 86400))
    ++ (codes " "
        ++ (padded 48 2 (time_of_day / 3600)
            ++ (codes ":"
                ++ (padded 48 2 (time_of_day % 3600 / 60)
                    ++ (codes ":" ++ padded 48 2 (time_of_day % 60))))))
