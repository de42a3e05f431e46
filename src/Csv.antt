-- ===== src/Csv.antt =====
-- src/csv_output.rs: the file of results. The file is its content, or nothing where it does not
-- exist; whether the system lets it be written is an argument.
pub mod Table
mod Tests
use btest_rs.Base.{
  ℕ, ◌==◌, Bool, true, false, not, ◌||◌, List, [], ◌∷◌, ◌++◌, Option, none, some, Bytes, length,
  ltb, if◌then◌else◌, show, codes,
}

unfoldable pub header : Bytes
header =
    codes "timestamp,host,port,protocol,direction,duration_s,"
    ++ codes "tx_avg_mbps,rx_avg_mbps,tx_bytes,rx_bytes,lost_packets,"
    ++ codes "local_cpu_pct,remote_cpu_pct,auth_type"

abbrev pub new_line : Bytes
new_line = 10 ∷ []

-- A file and whether it can be opened for writing.
pub record File : Type 0 where
  pub content : Option Bytes
  pub writable : Bool

abbrev pub is_empty : Option Bytes → Bool
is_empty none = true
is_empty (some bs) = length bs == 0

-- `false` is an I/O error, on which the output stays disabled. An empty file is written from its
-- start.
unfoldable pub init : File → File × Bool
init f =
    if is_empty f.content
    then (if f.writable
        then (record f { content = some (header ++ new_line) }, true)
        else (f, false))
    else (f, true)

-- The arguments of `write_result`, and the seconds since 1970 when it is called.
pub record TestResult : Type 0 where
  pub now : ℕ
  pub host : Bytes
  pub port : ℕ
  pub protocol : Bytes
  pub direction : Bytes
  pub duration_secs : ℕ
  pub tx_bytes : ℕ
  pub rx_bytes : ℕ
  pub lost_packets : ℕ
  pub local_cpu : ℕ
  pub remote_cpu : ℕ
  pub auth_type : Bytes

abbrev pub joined : List Bytes → Bytes
joined [] = []
joined (f ∷ []) = f
joined (f ∷ g ∷ fs) = f ++ (codes "," ++ joined (g ∷ fs))

-- The text of the megabits per second, with two decimals, of a number of bytes in a number of
-- seconds above 0.
module _ (average : ℕ → ℕ → Bytes) where
  unfoldable pub mbps : ℕ → ℕ → Bytes
  mbps bytes duration_secs =
      if ltb 0 duration_secs then average bytes duration_secs else codes "0.00"

  unfoldable pub fields : TestResult → List Bytes
  unfolding mbps
  fields r =
      show r.now
      ∷ r.host
      ∷ show r.port
      ∷ r.protocol
      ∷ r.direction
      ∷ show r.duration_secs
      ∷ mbps r.tx_bytes r.duration_secs
      ∷ mbps r.rx_bytes r.duration_secs
      ∷ show r.tx_bytes
      ∷ show r.rx_bytes
      ∷ show r.lost_packets
      ∷ show r.local_cpu
      ∷ show r.remote_cpu
      ∷ r.auth_type
      ∷ []

  unfoldable pub append_row : Option Bytes → TestResult → Option Bytes
  unfolding fields
  append_row none r = none
  append_row (some bs) r = some (bs ++ (joined (fields r) ++ new_line))

  -- The row goes to a file that exists and can be written; otherwise it is lost.
  unfoldable pub write_result : Bool → TestResult → File → File
  unfolding append_row
  write_result enabled r f =
      if enabled
      then (if f.writable then record f { content = append_row f.content r } else f)
      else f
