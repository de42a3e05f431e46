-- ===== src/Csv/Table.antt =====
-- The file of results of src/csv_output.rs is a table: every row has the fields of the header.
use btest_rs.Base.{
  ℕ, suc, ◌+◌, ◌≡◌, refl, subst, true, List, [], ◌∷◌, ◌++◌, some, Bytes, ◌==◌, if◌then◌else◌, show,
  codes, absent, absent-append, absent-show_number, arith,
}
use btest_rs.Csv.{
  header, new_line, File, is_empty, init, TestResult, joined, mbps, fields, append_row,
  write_result,
}

-- How often a byte occurs in a text.
abbrev pub occurrences : ℕ → Bytes → ℕ
occurrences c [] = 0
occurrences c (x ∷ xs) = (if x == c then 1 else 0) + occurrences c xs

occurrences-append :
    (c : ℕ) (xs ys : Bytes) → occurrences c (xs ++ ys) ≡ occurrences c xs + occurrences c ys
occurrences-append c [] ys = omega arith
occurrences-append c (x ∷ xs) ys = ground (arith, occurrences-append c xs ys)

occurrences-absent : (c : ℕ) (xs : Bytes) → absent c xs ≡ true → occurrences c xs ≡ 0
unfolding absent
occurrences-absent c [] h = refl
occurrences-absent c (x ∷ xs) h = ground (arith, occurrences-absent c xs)

-- A text that stands in a field: neither a comma nor the end of a line is in it.
pub record IsField (f : Bytes) : Type 0 where
  pub no_comma : absent 44 f ≡ true
  pub no_line : absent 10 f ≡ true

-- The content of a file that starts with the header, and has a line of as many commas for each row.
pub data IsTable : ℕ → Bytes → Type 0 where
  only_header : IsTable 0 (header ++ new_line)
  with_row :
      {rows : ℕ} {bs : Bytes} (row : Bytes)
      → IsTable rows bs
      → occurrences 44 row ≡ occurrences 44 header
      → absent 10 row ≡ true
      → IsTable (suc rows) (bs ++ (row ++ new_line))

infixr 5 ◌&◌
data AllFields : List Bytes → Type 0 where
  no_more : AllFields []
  ◌&◌ : {f : Bytes} {fs : List Bytes} → IsField f → AllFields fs → AllFields (f ∷ fs)

-- One comma between two fields.
abbrev gaps : List Bytes → ℕ
gaps [] = 0
gaps (f ∷ []) = 0
gaps (f ∷ g ∷ fs) = 1 + gaps (g ∷ fs)

joined-commas : (fs : List Bytes) → AllFields fs → occurrences 44 (joined fs) ≡ gaps fs
joined-commas [] no_more = refl
joined-commas (f ∷ []) (h & hs) = occurrences-absent 44 f h.no_comma
joined-commas (f ∷ g ∷ fs) (h & hs) =
    let here = occurrences-absent 44 f h.no_comma in
    let rest = joined-commas (g ∷ fs) hs in
    omega (arith, occurrences-append 44 f (codes "," ++ joined (g ∷ fs)), here, rest)

joined-line : (fs : List Bytes) → AllFields fs → absent 10 (joined fs) ≡ true
unfolding absent
joined-line [] no_more = refl
joined-line (f ∷ []) (h & hs) = h.no_line
joined-line (f ∷ g ∷ fs) (h & hs) =
    absent-append 10 f (codes "," ++ joined (g ∷ fs)) h.no_line (joined-line (g ∷ fs) hs)

show-IsField : (n : ℕ) → IsField (show n)
show-IsField n = record {
  no_comma = absent-show_number 44 n refl;
  no_line = absent-show_number 10 n refl;
}

-- The texts of a result that are given from outside.
pub record IsPlain (r : TestResult) : Type 0 where
  pub host : IsField r.host
  pub protocol : IsField r.protocol
  pub direction : IsField r.direction
  pub auth_type : IsField r.auth_type

abbrev pub AllPlain : List TestResult → Type 0
AllPlain [] = Unit
AllPlain (r ∷ rs) = IsPlain r × AllPlain rs

-- The file holds a table of so many rows.
abbrev pub Holds : ℕ → File → Type 0
Holds rows f = (bs : Bytes) × (f.content ≡ some bs) × IsTable rows bs

-- The results, one after the other.
abbrev pub write_results : (ℕ → ℕ → Bytes) → List TestResult → File → File
write_results average [] f = f
write_results average (r ∷ rs) f = write_results average rs (write_result average true r f)

abbrev pub count : List TestResult → ℕ
count [] = 0
count (r ∷ rs) = suc (count rs)

module _ (average : ℕ → ℕ → Bytes) (texts : (n secs : ℕ) → IsField (average n secs)) where
  mbps-IsField : (n secs : ℕ) → IsField (mbps average n secs)
  unfolding mbps absent
  mbps-IsField n secs = record {
    no_comma = ground (arith, (texts n secs).no_comma);
    no_line = ground (arith, (texts n secs).no_line);
  }

  fields-AllFields : (r : TestResult) → IsPlain r → AllFields (fields average r)
  unfolding fields
  fields-AllFields r h =
      show-IsField r.now
      & h.host
      & show-IsField r.port
      & h.protocol
      & h.direction
      & show-IsField r.duration_secs
      & mbps-IsField r.tx_bytes r.duration_secs
      & mbps-IsField r.rx_bytes r.duration_secs
      & show-IsField r.tx_bytes
      & show-IsField r.rx_bytes
      & show-IsField r.lost_packets
      & show-IsField r.local_cpu
      & show-IsField r.remote_cpu
      & h.auth_type
      & no_more

  commas :
      (r : TestResult)
      → IsPlain r
      → occurrences 44 (joined (fields average r)) ≡ occurrences 44 header
  unfolding fields header
  commas r h = joined-commas (fields average r) (fields-AllFields r h)

  row_written :
      {rows : ℕ} (bs : Bytes) (r : TestResult)
      → IsPlain r
      → IsTable rows bs
      → IsTable (suc rows) (bs ++ (joined (fields average r) ++ new_line))
  row_written bs r h table =
      with_row (joined (fields average r)) table (commas r h)
        (joined-line (fields average r) (fields-AllFields r h))

  rows_follow :
      {rows : ℕ} (rs : List TestResult) (f : File) (bs : Bytes)
      → f.content ≡ some bs
      → f.writable ≡ true
      → AllPlain rs
      → IsTable rows bs
      → Holds (count rs + rows) (write_results average rs f)
  unfolding write_result append_row
  rows_follow {rows = rows} [] f bs here writable h table =
      (bs, here, subst (λ n. IsTable n bs) (omega arith) table)
  rows_follow {rows = rows} (r ∷ rs) f bs here writable h table =
      let row = joined (fields average r) ++ new_line in
      let rest =
        rows_follow rs (write_result average true r f) (bs ++ row) (rw (writable, here) refl)
          (rw writable refl) h.1 (row_written bs r h.0 table) in
      subst (λ n. Holds n (write_results average (r ∷ rs) f)) (omega arith) rest

  -- A file that is missing or empty and can be written holds, after it is opened for results and any
  -- number of them is written, the header and one line of as many fields for each result, when the
  -- texts of the results and of the averages have neither a comma nor the end of a line in them.
  pub results_tabled :
      (f : File) (rs : List TestResult)
      → is_empty f.content ≡ true
      → f.writable ≡ true
      → AllPlain rs
      → ((init f).1 ≡ true) × Holds (count rs) (write_results average rs (init f).0)
  unfolding init
  results_tabled f rs empty writable h =
      let table =
        rows_follow rs (init f).0 (header ++ new_line) (rw (empty, writable) refl)
          (rw (empty, writable) refl) h only_header in
      (
        rw (empty, writable) refl,
        subst (λ n. Holds n (write_results average rs (init f).0)) (omega arith) table,
      )
