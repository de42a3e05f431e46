-- ===== src/Server/Spawn/Suitable.antt =====
-- What the tasks may do that the tests of src/server.rs start: only what the command's direction says.
use btest_rs.Base.{
  ℕ, zero, suc, ◌≡◌, refl, ltb, Bool, true, false, if◌then◌else◌, ◌&&◌, List, [], ◌∷◌, ◌++◌, arith,
}
use btest_rs.Protocol.Command
use btest_rs.Protocol.Command.{Command}
use btest_rs.Server.Spawn.{
  Task, tcp_tx_with_status, tcp_tx_loop, tcp_status_sender, tcp_rx_loop, status_report_loop,
  print_sent, udp_tx_loop, udp_rx_loop, udp_status_loop, writer_task, reader_task, main_task,
  run_tcp_test_inner, stream_tasks, run_tcp_multiconn_inner, run_udp_test_inner, IsTest, single,
  several, udp, IsOneOf, first, later,
}

-- What the direction of the command lets a task do.
abbrev pub suits : Command → Task → Bool
suits c (tcp_tx_with_status size speed) = Command.server_tx c && Command.server_rx c
suits c (tcp_tx_loop size speed) = Command.server_tx c
suits c tcp_status_sender = Command.server_rx c
suits c tcp_rx_loop = Command.server_rx c
suits c status_report_loop = true
suits c print_sent = Command.server_tx c
suits c (udp_tx_loop size speed multi) = Command.server_tx c
suits c udp_rx_loop = Command.server_rx c
suits c udp_status_loop = true

abbrev pub all {ℓ} : {A : Type ℓ} → (A → Bool) → List A → Bool
all f [] = true
all f (k ∷ ks) = f k && all f ks

pub all-append {ℓ} :
    {A : Type ℓ} (f : A → Bool) (js ks : List A)
    → all f js ≡ true
    → all f ks ≡ true
    → all f (js ++ ks) ≡ true
all-append f [] ks h k = k
all-append f (j ∷ js) ks h k =
    let rest = all-append f js ks (ground (arith, h)) k in ground (arith, h, rest)

pub all-IsOneOf {ℓ} :
    {A : Type ℓ} (f : A → Bool) {k : A} {ks : List A} → IsOneOf k ks → all f ks ≡ true → f k ≡ true
all-IsOneOf f first h = ground (arith, h)
all-IsOneOf f (later p) h = all-IsOneOf f p (ground (arith, h))

writer_suits : (c : Command) → all (suits c) (writer_task c) ≡ true
unfolding writer_task
writer_suits c = ground arith

reader_suits : (c : Command) → all (suits c) (reader_task c) ≡ true
unfolding reader_task
reader_suits c = ground arith

main_suits : (c : Command) → all (suits c) (main_task c) ≡ true
unfolding main_task
main_suits c = ground arith

streams_suit : (n : ℕ) (c : Command) → all (suits c) (stream_tasks n c) ≡ true
unfolding stream_tasks
streams_suit zero c = refl
streams_suit (suc n) c =
    all-append (suits c) (writer_task c) (reader_task c ++ stream_tasks n c) (writer_suits c)
      (all-append (suits c) (reader_task c) (stream_tasks n c) (reader_suits c) (streams_suit n c))

pub tasks_suit : {c : Command} {ks : List Task} → IsTest c ks → all (suits c) ks ≡ true
unfolding run_tcp_test_inner run_tcp_multiconn_inner run_udp_test_inner
tasks_suit {c = c} single =
    all-append (suits c) (writer_task c) (reader_task c ++ main_task c) (writer_suits c)
      (all-append (suits c) (reader_task c) (main_task c) (reader_suits c) (main_suits c))
tasks_suit {c = c} (several n) =
    all-append (suits c) (stream_tasks n c) (status_report_loop ∷ []) (streams_suit n c) refl
tasks_suit {c = c} udp = ground arith

-- A number that is 0 where a test fails.
pub either_way : (b : Bool) (n : ℕ) → (b ≡ false → n ≡ 0) → n ≡ (if b then n else 0)
either_way true n h = refl
either_way false n h = h refl

-- A test in one direction over one connection or over UDP has two tasks: one moves the bytes, the
-- other reports.
one_way_tasks :
    (c : Command)
    → ((Command.server_tx c ≡ true) × (Command.server_rx c ≡ false)
        → (run_tcp_test_inner c ≡ tcp_tx_loop c.tx_size c.remote_tx_speed ∷ status_report_loop ∷ [])
          × (run_udp_test_inner c
              ≡ udp_tx_loop c.tx_size c.remote_tx_speed (ltb 0 c.tcp_conn_count)
                ∷ udp_status_loop
                ∷ []))
      × ((Command.server_tx c ≡ false) × (Command.server_rx c ≡ true)
          → (run_tcp_test_inner c ≡ tcp_status_sender ∷ tcp_rx_loop ∷ [])
            × (run_udp_test_inner c ≡ udp_rx_loop ∷ udp_status_loop ∷ []))
unfolding run_tcp_test_inner run_udp_test_inner writer_task reader_task main_task
one_way_tasks c =
    (λ h. (rw (h.0, h.1) refl, rw (h.0, h.1) refl), λ h. (rw (h.0, h.1) refl, rw (h.0, h.1) refl))
