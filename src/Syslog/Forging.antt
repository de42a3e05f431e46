-- ===== src/Syslog/Forging.antt =====
-- The messages of src/syslog_logger.rs put a user's name between fields as it was given.
use btest_rs.Base.{ℕ, ◌≡◌, ap, ◌++◌, Option, Bytes, append_assoc, codes}
use btest_rs.Syslog.{SyslogSender, send, auth_failure_msg, auth_failure}

-- A name that is written as a user, a type and a reason.
abbrev pub forged : Bytes → Bytes → Bytes → Bytes
forged user auth_type reason =
    user ++ (codes " type=" ++ (auth_type ++ (codes " reason=" ++ reason)))

-- A refused login under a name that holds the words of the other fields is logged with the same
-- datagrams as a refused login of another user, for a type and a reason of the name's own choice.
pub failure_forged :
    (sender : Option SyslogSender) (now : ℕ) (peer user auth_type reason auth_type' reason' : Bytes)
    → auth_failure sender now peer (forged user auth_type reason) auth_type' reason'
      ≡ auth_failure sender now peer user auth_type (forged reason auth_type' reason')
unfolding auth_failure auth_failure_msg
failure_forged sender now peer user auth_type reason auth_type' reason' =
    ap (λ t. send sender now 4 (codes "AUTH_FAILURE peer=" ++ (peer ++ (codes " user=" ++ t))))
      (simp append_assoc)
