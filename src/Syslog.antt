-- ===== src/Syslog.antt =====
-- src/syslog_logger.rs: the messages of the log, and the datagrams that carry them. What the socket
-- does with a datagram is not looked at by the code.
pub mod Forging
mod Tests
use btest_rs.Base.{
  ℕ, ◌+◌, max, List, [], ◌∷◌, ◌++◌, Option, none, some, Bytes, show, codes, ltb, if◌then◌else◌,
}
use btest_rs.Calendar.{bsd_timestamp}

pub record SyslogSender : Type 0 where
  pub target : Bytes
  pub hostname : Bytes

pub record Datagram : Type 0 where
  pub receiver : Bytes
  pub payload : Bytes

-- `hostname::get`, `none` where it fails.
unfoldable pub init : Bytes → Option Bytes → SyslogSender
init target none = record { target = target; hostname = codes "btest-rs" }
init target (some name) = record { target = target; hostname = name }

-- A format string: its literals and its arguments, one after the other.
abbrev pub format : List Bytes → Bytes
format [] = []
format (t ∷ []) = t
format (t ∷ u ∷ ts) = t ++ format (u ∷ ts)

-- Facility 16, and the severity in the low bits.
unfoldable pub syslog_msg : ℕ → ℕ → Bytes → Bytes → Bytes
unfolding bsd_timestamp
syslog_msg severity now hostname msg = format (
    codes "<"
    ∷ show (128 + severity)
    ∷ codes ">"
    ∷ bsd_timestamp now
    ∷ codes " "
    ∷ hostname
    ∷ codes " btest-rs: "
    ∷ msg
    ∷ [])

-- What is sent at the time `now`, in seconds since 1970.
unfoldable pub send : Option SyslogSender → ℕ → ℕ → Bytes → List Datagram
unfolding syslog_msg
send none now severity msg = []
send (some sender) now severity msg =
    record { receiver = sender.target; payload = syslog_msg severity now sender.hostname msg } ∷ []

unfoldable pub auth_success_msg : Bytes → Bytes → Bytes → Bytes
auth_success_msg peer username auth_type = format (
    codes "AUTH_SUCCESS peer=" ∷ peer ∷ codes " user=" ∷ username ∷ codes " type=" ∷ auth_type ∷ [])

unfoldable pub auth_failure_msg : Bytes → Bytes → Bytes → Bytes → Bytes
auth_failure_msg peer username auth_type reason = format (
    codes "AUTH_FAILURE peer="
    ∷ peer
    ∷ codes " user="
    ∷ username
    ∷ codes " type="
    ∷ auth_type
    ∷ codes " reason="
    ∷ reason
    ∷ [])

unfoldable pub test_start_msg : Bytes → Bytes → Bytes → ℕ → Bytes
test_start_msg peer proto direction conn_count = format (
    codes "TEST_START peer="
    ∷ peer
    ∷ codes " proto="
    ∷ proto
    ∷ codes " dir="
    ∷ direction
    ∷ codes " connections="
    ∷ show (max conn_count 1)
    ∷ [])

unfoldable pub auth_success : Option SyslogSender → ℕ → Bytes → Bytes → Bytes → List Datagram
unfolding send auth_success_msg
auth_success sender now peer username auth_type =
    send sender now 6 (auth_success_msg peer username auth_type)

unfoldable pub auth_failure :
    Option SyslogSender → ℕ → Bytes → Bytes → Bytes → Bytes → List Datagram
unfolding send auth_failure_msg
auth_failure sender now peer username auth_type reason =
    send sender now 4 (auth_failure_msg peer username auth_type reason)

unfoldable pub test_start : Option SyslogSender → ℕ → Bytes → Bytes → Bytes → ℕ → List Datagram
unfolding send test_start_msg
test_start sender now peer proto direction conn_count =
    send sender now 6 (test_start_msg peer proto direction conn_count)

-- The totals of a test, and its seconds.
pub record Ended : Type 0 where
  pub total_tx : ℕ
  pub total_rx : ℕ
  pub total_lost : ℕ
  pub duration_secs : ℕ

-- The megabits per second with two decimals. `average` is the text for a number of bytes in a number of
-- seconds above 0.
unfoldable pub mbps_text : (ℕ → ℕ → Bytes) → ℕ → ℕ → Bytes
mbps_text average bytes duration_secs =
    if ltb 0 duration_secs then average bytes duration_secs else codes "0.00"

unfoldable pub test_end_msg : (ℕ → ℕ → Bytes) → Bytes → Bytes → Bytes → Ended → Bytes
unfolding mbps_text
test_end_msg average peer proto direction e = format (
    codes "TEST_END peer="
    ∷ peer
    ∷ codes " proto="
    ∷ proto
    ∷ codes " dir="
    ∷ direction
    ∷ codes " duration="
    ∷ show e.duration_secs
    ∷ codes "s tx_avg="
    ∷ mbps_text average e.total_tx e.duration_secs
    ∷ codes "Mbps rx_avg="
    ∷ mbps_text average e.total_rx e.duration_secs
    ∷ codes "Mbps tx_bytes="
    ∷ show e.total_tx
    ∷ codes " rx_bytes="
    ∷ show e.total_rx
    ∷ codes " lost="
    ∷ show e.total_lost
    ∷ [])

unfoldable pub test_end :
    Option SyslogSender → ℕ → (ℕ → ℕ → Bytes) → Bytes → Bytes → Bytes → Ended → List Datagram
unfolding send test_end_msg
test_end sender now average peer proto direction e =
    send sender now 6 (test_end_msg average peer proto direction e)
