-- ===== src/Bandwidth/Budget.antt =====
-- What a request to spend the byte budget does, and all that a session has counted.
use btest_rs.Base.{ℕ, ◌+◌, ◌-◌, ◌≤◌, ◌<◌, ◌≡◌, ◌↔◌, true, false, arith, u64_max}
use btest_rs.Bandwidth.{BandwidthState, spend_budget}

-- All bytes that the session has counted, in this interval and in earlier ones.
abbrev pub counted : BandwidthState → ℕ
counted s = s.tx_bytes + s.rx_bytes + s.total_tx_bytes + s.total_rx_bytes

-- Exactly when the budget has run short, a limited session is refused and told to stop; otherwise
-- the amount is taken off. Nothing else changes.
pub spend_budget_limited :
    (amount : ℕ) (s : BandwidthState)
    → s.byte_budget < u64_max
    → let r = spend_budget amount s in
      ((r.1 ≡ true) ↔ (amount ≤ s.byte_budget))
      × (r.1 ≡ true → r.0 ≡ record s { byte_budget = s.byte_budget - amount })
      × (r.1 ≡ false → r.0 ≡ record s { running = false })
unfolding spend_budget
spend_budget_limited amount s h = (ground arith, λ e. ground arith, λ e. ground arith)

-- An unlimited session may always spend, and does not run down.
pub spend_budget_unlimited :
    (amount : ℕ) (s : BandwidthState) → s.byte_budget ≡ u64_max → spend_budget amount s ≡ (s, true)
unfolding spend_budget
spend_budget_unlimited amount s h = ground arith
