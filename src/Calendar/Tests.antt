-- ===== src/Calendar/Tests.antt =====
-- Dates of src/server_pro/user_db.rs and src/syslog_logger.rs.
use btest_rs.Base.{◌+◌, ◌*◌, ◌≡◌, refl, some, codes, show}
use btest_rs.Calendar.Dates.{IsDateOf, date_of-IsDateOf}
use btest_rs.Calendar.{
  date_of, find_year, find_month, year_length, is_leap, chrono_date_today, bsd_timestamp,
}

-- The 29th of February 2024
leap_day : date_of 19782 ≡ some (2024, 1, 28)
unfolding date_of find_year find_month year_length is_leap
leap_day = refl

leap_day_text : chrono_date_today (19782 * 86400 + 5) ≡ codes "2024-02-29"
unfolding chrono_date_today date_of find_year find_month year_length is_leap show
leap_day_text = refl

leap_day_stamp : bsd_timestamp (19782 * 86400 + 3661) ≡ codes "Feb 29 01:01:01"
unfolding bsd_timestamp date_of find_year find_month year_length is_leap show
leap_day_stamp = refl

date_of-IsDateOf_example : IsDateOf (719528 + 19782) (date_of 19782)
date_of-IsDateOf_example = date_of-IsDateOf 19782
