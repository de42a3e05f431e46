-- ===== src/UserDb/Table.antt =====
-- The tables `usage` and `ip_usage` of src/server_pro/user_db.rs: a row for an owner and a day, with
-- two byte counts. In `usage` the owner is a user, `first` is tx_bytes and `second` rx_bytes; in
-- `ip_usage` the owner is an address, `first` is inbound_bytes and `second` outbound_bytes.
use btest_rs.Base.{ℕ, ◌+◌, Bool, ◌&&◌, List, [], ◌∷◌, Bytes, bytes_eq, bytes_le, if◌then◌else◌}

pub record DayRow : Type 0 where
  pub owner : Bytes
  pub date : Bytes
  pub first : ℕ
  pub second : ℕ
  pub test_count : ℕ

abbrev pub is_row : Bytes → Bytes → DayRow → Bool
is_row owner date r = bytes_eq r.owner owner && bytes_eq r.date date

-- `INSERT … ON CONFLICT(owner, date) DO UPDATE SET … = … + …`
unfoldable pub upsert : Bytes → Bytes → ℕ → ℕ → ℕ → List DayRow → List DayRow
upsert o d a b n [] = record { owner = o; date = d; first = a; second = b; test_count = n } ∷ []
upsert o d a b n (r ∷ rs) =
    if is_row o d r
    then record r { first = r.first + a; second = r.second + b; test_count = r.test_count + n } ∷ rs
    else r ∷ upsert o d a b n rs

-- `SELECT COALESCE(SUM(column), 0) … WHERE test`
unfoldable pub sum_where : (DayRow → Bool) → (DayRow → ℕ) → List DayRow → ℕ
sum_where test column [] = 0
sum_where test column (r ∷ rs) = (if test r then column r else 0) + sum_where test column rs

-- `owner = ? AND date = ?` and `owner = ? AND date >= ?`
abbrev pub on_day : Bytes → Bytes → DayRow → Bool
on_day = is_row

abbrev pub since : Bytes → Bytes → DayRow → Bool
since owner cutoff r = bytes_eq r.owner owner && bytes_le cutoff r.date
