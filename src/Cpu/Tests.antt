-- ===== src/Cpu/Tests.antt =====
-- Runs of src/cpu.rs, the tests of the source among them.
use btest_rs.Base.{◌≡◌, ◌≤◌, ◌<◌, ◌+◌, ◌*◌, refl, some, codes, arith}
use btest_rs.Cpu.{get_cpu_times, compute_usage}
use btest_rs.Cpu.Load.{compute_usage-percentage}

four_loads :
    (compute_usage (0, 0) (100, 20) ≡ 80)
    × (compute_usage (0, 0) (100, 100) ≡ 0)
    × (compute_usage (0, 0) (100, 0) ≡ 100)
    × (compute_usage (0, 0) (0, 0) ≡ 0)
unfolding compute_usage
four_loads = (refl, refl, refl, refl)

stat_line : get_cpu_times (some (codes "cpu  10 0 5 80 1 x 4\ncpu0 1 1 1 1")) ≡ (100, 80)
unfolding get_cpu_times
stat_line = refl

compute_usage-percentage_example :
    let load = compute_usage (10, 5) (110, 35) in
    (load ≤ 100) × (load * 100 ≤ 7000) × (7000 < (load + 1) * 100)
compute_usage-percentage_example =
    compute_usage-percentage 10 5 110 35 (omega arith) (omega arith) (omega arith)
