-- ===== src/Csv/Tests.antt =====
-- One row of src/csv_output.rs.
use btest_rs.Base.{ℕ, ◌≡◌, refl, true, [], ◌∷◌, none, Bytes, codes, show, absent}
use btest_rs.Csv.{File, init, TestResult, joined, fields}
use btest_rs.Csv.Table.{IsField, IsPlain, Holds, write_results, count, results_tabled}

abbrev missing : File
missing = record { content = none; writable = true }

-- Every average reads the same here.
abbrev average : ℕ → ℕ → Bytes
average n secs = codes "8.00"

abbrev result : TestResult
result = record {
  now = 5;
  host = codes "h";
  port = 2000;
  protocol = codes "TCP";
  direction = codes "TX";
  duration_secs = 3;
  tx_bytes = 3000000;
  rx_bytes = 0;
  lost_packets = 0;
  local_cpu = 7;
  remote_cpu = 0;
  auth_type = codes "none";
}

row : joined (fields average result) ≡ codes "5,h,2000,TCP,TX,3,8.00,8.00,3000000,0,0,7,0,none"
unfolding fields show
row = refl

average-IsField : (n secs : ℕ) → IsField (average n secs)
unfolding absent
average-IsField n secs = record { no_comma = refl; no_line = refl }

result-IsPlain : IsPlain result
unfolding absent
result-IsPlain = record {
  host = record { no_comma = refl; no_line = refl };
  protocol = record { no_comma = refl; no_line = refl };
  direction = record { no_comma = refl; no_line = refl };
  auth_type = record { no_comma = refl; no_line = refl };
}

results_tabled_example :
    ((init missing).1 ≡ true)
    × Holds
        (count (result ∷ result ∷ []))
        (write_results average (result ∷ result ∷ []) (init missing).0)
results_tabled_example =
    results_tabled average average-IsField missing (result ∷ result ∷ []) refl refl
      (result-IsPlain, (result-IsPlain, tt))
