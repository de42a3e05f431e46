-- ===== src/UserDb/Sessions.antt =====
-- The statements of `UserDb` on the table of sessions, and the totals of an address. The text of
-- `datetime('now')` is an argument.
pub mod Laws
use btest_rs.Base.{
  ℕ, ◌+◌, ◌==◌, List, [], ◌∷◌, ◌++◌, Option, none, some, Bytes, bytes_eq, take, if◌then◌else◌,
}
use mathlib.Core.List.{reverse}
use btest_rs.UserDb.{
  UserDb, Session, insert_session, update_session, select_ip_sessions, sum_ip_totals,
}
use btest_rs.UserDb.Table.{DayRow, sum_where}
use btest_rs.UserDb.Usage.{query}
use btest_rs.UserDb.Ordered.{order_by}

-- The number of the new row, and the database with it.
unfoldable pub start_session : Bytes → Bytes → Bytes → Bytes → Bytes → UserDb → Option (ℕ × UserDb)
start_session now username peer_ip protocol direction db =
    let row : Session = record {
      id = db.next_session_id;
      username = username;
      peer_ip = peer_ip;
      protocol = protocol;
      direction = direction;
      started_at = now;
      ended_at = none;
      tx_bytes = 0;
      rx_bytes = 0;
    } in
    query db insert_session (
      db.next_session_id,
      record db { sessions = db.sessions ++ row ∷ []; next_session_id = db.next_session_id + 1 },
    )

-- `UPDATE … WHERE id = ?`
abbrev pub update_row : ℕ → (Session → Session) → List Session → List Session
update_row n f [] = []
update_row n f (r ∷ rs) = (if r.id == n then f r else r) ∷ update_row n f rs

unfoldable pub end_session : Bytes → ℕ → ℕ → ℕ → UserDb → Option UserDb
end_session now session_id tx rx db = query db update_session (record db {
  sessions =
      update_row session_id (λ r. record r { ended_at = some now; tx_bytes = tx; rx_bytes = rx })
        db.sessions;
})

pub record SessionSummary : Type 0 where
  pub id : ℕ
  pub started_at : Bytes
  pub ended_at : Option Bytes
  pub protocol : Bytes
  pub direction : Bytes
  pub tx_bytes : ℕ
  pub rx_bytes : ℕ

abbrev pub summarize : Session → SessionSummary
summarize r = record {
  id = r.id;
  started_at = r.started_at;
  ended_at = r.ended_at;
  protocol = r.protocol;
  direction = r.direction;
  tx_bytes = r.tx_bytes;
  rx_bytes = r.rx_bytes;
}

-- `WHERE peer_ip = ?`
abbrev pub rows_of : Bytes → List Session → List SessionSummary
rows_of ip [] = []
rows_of ip (r ∷ rs) =
    let more = rows_of ip rs in if bytes_eq r.peer_ip ip then summarize r ∷ more else more

-- `ORDER BY started_at DESC LIMIT ?`; the latest of the rows of one time comes first.
unfoldable pub get_ip_sessions : Bytes → ℕ → UserDb → Option (List SessionSummary)
unfolding order_by
get_ip_sessions ip limit db = query db select_ip_sessions (
    take limit (reverse (order_by (λ (r : SessionSummary). r.started_at) (rows_of ip db.sessions))))

-- The first query of `get_ip_stats`: the rows of an address, and the sums of its two columns.
unfoldable pub get_ip_totals : Bytes → UserDb → Option (ℕ × ℕ × ℕ)
get_ip_totals ip db =
    let is_ip = (λ (r : DayRow). bytes_eq r.owner ip) in
    query db sum_ip_totals (
      sum_where is_ip (λ r. 1) db.ip_usage,
      sum_where is_ip (λ r. r.first) db.ip_usage,
      sum_where is_ip (λ r. r.second) db.ip_usage,
    )
