-- ===== src/Bandwidth/Tests.antt =====
-- Runs and instances for the counters and the pacing.
use btest_rs.Base.{ℕ, ◌+◌, ◌*◌, ◌≤◌, ◌<◌, ◌≡◌, ◌⊎◌, refl, true, false, [], ◌∷◌, some, arith}
use btest_rs.Bandwidth.{BandwidthState, calc_send_interval, one_second}
use btest_rs.Bandwidth.Pacing.{interval_rate}
use btest_rs.Bandwidth.Race.{run, calling, granted, race_overspends}

-- The figures of `test_calc_interval`.
test_calc_interval : calc_send_interval 100_000_000 1500 ≡ some 120_000
unfolding calc_send_interval
test_calc_interval = refl

abbrev limited : BandwidthState
limited = record {
  tx_bytes = 0;
  rx_bytes = 0;
  tx_speed = 0;
  tx_speed_changed = false;
  running = true;
  rx_packets = 0;
  rx_lost_packets = 0;
  last_udp_seq = 0;
  total_tx_bytes = 0;
  total_rx_bytes = 0;
  total_lost_packets = 0;
  intervals = 0;
  remote_cpu = 0;
  byte_budget = 1000;
}

interval_rate_example :
    let bits = one_second * (1500 * 8) in
    (iv : ℕ) × (calc_send_interval 100_000_000 1500 ≡ some iv)
    × (((500000001 * 100_000_000 ≤ bits) × (iv ≡ one_second))
        ⊎ (((bits < 100_000_000) × (iv ≡ 1))
            ⊎ ((bits < 500000001 * 100_000_000)
                × (iv * 100_000_000 ≤ bits)
                × (bits < (iv + 1) * 100_000_000))))
interval_rate_example = interval_rate 100_000_000 1500 (omega arith)

race_overspends_example :
    let t = run 600 600 (calling limited) (true ∷ false ∷ true ∷ false ∷ []) in
    (t.left ≡ granted)
    × (t.right ≡ granted)
    × (1000 < t.state.byte_budget)
    × (t.state.running ≡ true)
race_overspends_example =
    race_overspends 600 600 limited (omega arith) (omega arith) (omega arith) (omega arith)
      (omega arith)
