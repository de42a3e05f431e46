-- ===== src/UserDb/Usage/Sums.antt =====
-- What a record of usage does to the sums.
use btest_rs.Base.{
  ℕ, ◌+◌, ◌≤◌, ◌≡◌, Bool, true, ◌&&◌, List, [], ◌∷◌, arith, Bytes, bytes_eq, bytes_eq_refl,
  bytes_eq_sound, bytes_le, if◌then◌else◌, ap₂,
}
use btest_rs.UserDb.Table.{DayRow, upsert, sum_where, is_row, on_day, since}
use btest_rs.UserDb.Usage.{both}

-- A test on the owner and the day of a row.
abbrev keyed : (Bytes → Bytes → Bool) → DayRow → Bool
keyed p r = p r.owner r.date

module _ (p : Bytes → Bytes → Bool) (o d : Bytes) (a b n : ℕ) where
  same_key : (r : DayRow) → is_row o d r ≡ true → keyed p r ≡ p o d
  same_key r h =
      ap₂ p (bytes_eq_sound r.owner o (ground arith)) (bytes_eq_sound r.date d (ground arith))

  pub sum-upsert_first :
      (rows : List DayRow)
      → sum_where (keyed p) (λ r. r.first) (upsert o d a b n rows)
        ≡ sum_where (keyed p) (λ r. r.first) rows + (if p o d then a else 0)
  unfolding sum_where upsert
  sum-upsert_first [] = ground arith
  sum-upsert_first (r ∷ rs) = ground (arith, same_key r, sum-upsert_first rs)

  pub sum-upsert_second :
      (rows : List DayRow)
      → sum_where (keyed p) (λ r. r.second) (upsert o d a b n rows)
        ≡ sum_where (keyed p) (λ r. r.second) rows + (if p o d then b else 0)
  unfolding sum_where upsert
  sum-upsert_second [] = ground arith
  sum-upsert_second (r ∷ rs) = ground (arith, same_key r, sum-upsert_second rs)

-- A wider test has a larger sum.
sum_mono :
    (p q : DayRow → Bool) (column : DayRow → ℕ)
    → ((r : DayRow) → p r ≡ true → q r ≡ true)
    → (rows : List DayRow) → sum_where p column rows ≤ sum_where q column rows
unfolding sum_where
sum_mono p q column wider [] = omega arith
sum_mono p q column wider (r ∷ rs) = ground (arith, wider r, sum_mono p q column wider rs)

-- The tests of the statements, as tests on the owner and the day.
abbrev pub day_key : Bytes → Bytes → Bytes → Bytes → Bool
day_key owner day o d = bytes_eq o owner && bytes_eq d day

abbrev pub since_key : Bytes → Bytes → Bytes → Bytes → Bool
since_key owner cutoff o d = bytes_eq o owner && bytes_le cutoff d

-- Both sums of a query after an `upsert` for the owner `o` today: they grow by the amounts if the
-- query is about `o`, and stay if it is about another.
module _ (o v today : Bytes) (a b n : ℕ) (rows : List DayRow) where
  abbrev after : List DayRow
  after = upsert o today a b n rows

  pub both-upsert_day : both (on_day v today) after ≡ (
      if bytes_eq o v
      then (((both (on_day v today) rows).0 + a), ((both (on_day v today) rows).1 + b))
      else both (on_day v today) rows)
  both-upsert_day = ground (
    arith,
    sum-upsert_first (day_key v today) o today a b n rows,
    sum-upsert_second (day_key v today) o today a b n rows,
    bytes_eq_refl today,
  )

  pub both-upsert_since :
      (cutoff : Bytes)
      → bytes_le cutoff today ≡ true
      → both (since v cutoff) after ≡ (
          if bytes_eq o v
          then (((both (since v cutoff) rows).0 + a), ((both (since v cutoff) rows).1 + b))
          else both (since v cutoff) rows)
  both-upsert_since cutoff le = ground (
    arith,
    sum-upsert_first (since_key v cutoff) o today a b n rows,
    sum-upsert_second (since_key v cutoff) o today a b n rows,
  )
