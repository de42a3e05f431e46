-- ===== src/Syslog/Tests.antt =====
-- One message of src/syslog_logger.rs.
use btest_rs.Base.{◌≡◌, refl, [], ◌∷◌, Option, some, codes, show}
use btest_rs.Syslog.{SyslogSender, init, send, test_start_msg}

abbrev sender : Option SyslogSender
sender = some (init (codes "192.168.1.1:514") (some (codes "gw")))

sent :
    send sender 1774008000 6 (codes "m")
    ≡ record {
      receiver = codes "192.168.1.1:514";
      payload = codes "<134>Mar 20 12:00:00 gw btest-rs: m";
    }
      ∷ []
unfolding send init show
sent = refl

started :
    test_start_msg (codes "p") (codes "TCP") (codes "TX") 0
    ≡ codes "TEST_START peer=p proto=TCP dir=TX connections=1"
unfolding test_start_msg show
started = refl
