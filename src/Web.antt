-- ===== src/Web.antt =====
-- The answers of the web dashboard in src/server_pro/web/mod.rs, before they are written as JSON. The
-- floating-point numbers and the texts of their digits are arguments.
pub mod Agreement
mod Tests
use mathlib.Core.List.{reverse, map}
use mathlib.Core.Option.{bind}
use btest_rs.Base.{
  ℕ, ◌+◌, Bool, List, [], ◌∷◌, ◌++◌, Option, none, some, Bytes, bytes_eq, codes, show, leb, take,
  if◌then◌else◌,
}
use btest_rs.UserDb.{
  UserDb, Clock, Session, Query, web_sessions, web_stats, web_daily, web_weekly, web_monthly,
  web_export,
}
use btest_rs.UserDb.Table.{DayRow, sum_where, on_day, since}
use btest_rs.UserDb.Usage.{query}
use btest_rs.UserDb.Ordered.{order_by}

-- Floating-point numbers: `seconds` is the time between two texts, `mbps` a rate of bytes over seconds
-- in Mbit/s, and `fixed digits b unit` the text of `b / unit` with that many digits.
pub record Floats : Type 1 where
  pub Float : Type 0
  pub zero_float : Float
  pub add_float : Float → Float → Float
  pub is_positive : Float → Bool
  pub seconds : Bytes → Bytes → Float
  pub mbps : ℕ → Float → Float
  pub fixed : ℕ → ℕ → ℕ → Bytes

-- `WHERE peer_ip = ?`
abbrev pub rows_of : Bytes → List Session → List Session
rows_of ip [] = []
rows_of ip (r ∷ rs) = let more = rows_of ip rs in if bytes_eq r.peer_ip ip then r ∷ more else more

-- `ORDER BY started_at DESC LIMIT 100`
unfoldable pub recent : Bytes → List Session → List Session
unfolding order_by
recent ip sessions =
    take 100 (reverse (order_by (λ (r : Session). r.started_at) (rows_of ip sessions)))

unfoldable pub api_sessions : Bytes → UserDb → Option (List Session)
unfolding recent
api_sessions ip db = query db web_sessions (recent ip db.sessions)

abbrev pub sum_sessions : (Session → ℕ) → List Session → ℕ
sum_sessions column [] = 0
sum_sessions column (r ∷ rs) = column r + sum_sessions column rs

-- A query that fails counts as 0.
abbrev pub or_zero : Option ℕ → ℕ
or_zero none = 0
or_zero (some n) = n

abbrev pub day_total : (DayRow → Bool) → UserDb → ℕ
day_total test db = sum_where test (λ r. r.first + r.second) db.ip_usage

pub record QuotaUsageJson : Type 0 where
  pub daily_used : ℕ
  pub daily_limit : ℕ
  pub weekly_used : ℕ
  pub weekly_limit : ℕ
  pub monthly_used : ℕ
  pub monthly_limit : ℕ

unfoldable pub api_quota : Clock → Bytes → UserDb → QuotaUsageJson
api_quota k ip db = record {
  daily_used = or_zero (query db web_daily (day_total (on_day ip k.today) db));
  daily_limit = 2147483648;
  weekly_used = or_zero (query db web_weekly (day_total (since ip k.week_ago) db));
  weekly_limit = 8589934592;
  monthly_used = or_zero (query db web_monthly (day_total (since ip k.month_ago) db));
  monthly_limit = 25769803776;
}

module _ (f : Floats) where
  pub record StatsJson : Type 0 where
    pub total_sessions : ℕ
    pub total_tx_bytes : ℕ
    pub total_rx_bytes : ℕ
    pub avg_tx_mbps : f.Float
    pub avg_rx_mbps : f.Float

  -- A session that has not ended has lasted no time.
  abbrev pub lasted : Session → f.Float
  lasted r = elim (r.ended_at) [ none ↦ f.zero_float | some ended ↦ f.seconds r.started_at ended ]

  abbrev pub total_seconds : List Session → f.Float
  total_seconds [] = f.zero_float
  total_seconds (r ∷ rs) = f.add_float (lasted r) (total_seconds rs)

  abbrev pub rate : ℕ → f.Float → f.Float
  rate bytes secs = if f.is_positive secs then f.mbps bytes secs else f.zero_float

  abbrev pub stats_of : List Session → StatsJson
  stats_of rows =
      let tx = sum_sessions (λ r. r.tx_bytes) rows in
      let rx = sum_sessions (λ r. r.rx_bytes) rows in
      let secs = total_seconds rows in
      record {
        total_sessions = sum_sessions (λ r. 1) rows;
        total_tx_bytes = tx;
        total_rx_bytes = rx;
        avg_tx_mbps = rate tx secs;
        avg_rx_mbps = rate rx secs;
      }

  unfoldable pub api_stats : Bytes → UserDb → Option StatsJson
  api_stats ip db = query db web_stats (stats_of (rows_of ip db.sessions))

  unfoldable pub human_bytes : ℕ → Bytes
  human_bytes b =
      if leb 1073741824 b
      then f.fixed 2 b 1073741824 ++ codes " GB"
      else if leb 1048576 b
      then f.fixed 1 b 1048576 ++ codes " MB"
      else if leb 1024 b
      then f.fixed 1 b 1024 ++ codes " KB"
      else show b ++ codes " B"

  pub record QuotaJson : Type 0 where
    pub daily_used_bytes : ℕ
    pub daily_used_human : Bytes
    pub daily_limit_bytes : Bytes

  pub record ExportSessionJson : Type 0 where
    pub id : ℕ
    pub started_at : Bytes
    pub ended_at : Option Bytes
    pub protocol : Bytes
    pub direction : Bytes
    pub tx_bytes : ℕ
    pub rx_bytes : ℕ
    pub tx_human : Bytes
    pub rx_human : Bytes
    pub duration_secs : f.Float
    pub avg_tx_mbps : f.Float
    pub avg_rx_mbps : f.Float

  unfoldable pub export_session : Session → ExportSessionJson
  export_session r = record {
    id = r.id;
    started_at = r.started_at;
    ended_at = r.ended_at;
    protocol = r.protocol;
    direction = r.direction;
    tx_bytes = r.tx_bytes;
    rx_bytes = r.rx_bytes;
    tx_human = human_bytes r.tx_bytes;
    rx_human = human_bytes r.rx_bytes;
    duration_secs = lasted r;
    avg_tx_mbps = rate r.tx_bytes (lasted r);
    avg_rx_mbps = rate r.rx_bytes (lasted r);
  }

  pub record ExportJson : Type 0 where
    pub ip : Bytes
    pub exported_at : Bytes
    pub stats : StatsJson
    pub quota : QuotaJson
    pub sessions : List ExportSessionJson

  -- `now` is the Unix time.
  unfoldable pub api_export : ℕ → Clock → Bytes → UserDb → Option ExportJson
  api_export now k ip db =
      let daily_used = or_zero (query db web_daily (day_total (on_day ip k.today) db)) in
      bind (query db web_stats (stats_of (rows_of ip db.sessions))) (λ stats.
        bind (query db web_export (map export_session (recent ip db.sessions))) (λ sessions.
          some (record {
            ip = ip;
            exported_at = show now;
            stats = stats;
            quota = record {
              daily_used_bytes = daily_used;
              daily_used_human = human_bytes daily_used;
              daily_limit_bytes = codes "see server config";
            };
            sessions = sessions;
          })))
