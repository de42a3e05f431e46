-- ===== src/Bandwidth/Race.antt =====
-- `spend_budget` with its load and its `fetch_sub` apart, and two tasks that call it at a time.
use btest_rs.Base.{
  ℕ, ◌+◌, ◌≤◌, ◌<◌, ◌≡◌, Bool, true, false, List, [], ◌∷◌, arith, ltb, ◌==◌, if◌then◌else◌, u64_mod,
  u64_max,
}
use btest_rs.Bandwidth.{BandwidthState, sub_u64, stop, spend_budget}

-- Where a call of `spend_budget` stands: before the load, between the tests and the `fetch_sub`,
-- and after its return.
pub data Spend : Type 0 where
  start checked granted refused : Spend

-- One atomic step of a call that asks for `amount`.
unfoldable pub spend_step : ℕ → BandwidthState → Spend → BandwidthState × Spend
unfolding stop
spend_step amount s start =
    if s.byte_budget == u64_max
    then (s, granted)
    else if ltb s.byte_budget amount
    then (stop s, refused)
    else (s, checked)
spend_step amount s checked = (record s { byte_budget = sub_u64 s.byte_budget amount }, granted)
spend_step amount s granted = (s, granted)
spend_step amount s refused = (s, refused)

abbrev answer : Bool → Spend
answer true = granted
answer false = refused

-- A call that is not interrupted is `spend_budget`.
pub spend_alone :
    (amount : ℕ) (s : BandwidthState)
    → let (s', pc) = spend_step amount s start in
      let r = spend_budget amount s in spend_step amount s' pc ≡ (r.0, answer r.1)
unfolding spend_step spend_budget
spend_alone amount s = ground arith

pub record Tasks : Type 0 where
  pub state : BandwidthState
  pub left : Spend
  pub right : Spend

-- `true` in the schedule is a step of the left task, which asks for `a`; the right asks for `b`.
pub run : ℕ → ℕ → Tasks → List Bool → Tasks
run a b t [] = t
run a b t (true ∷ turns) =
    let (s', pc) = spend_step a t.state t.left in
    run a b (record { state = s'; left = pc; right = t.right }) turns
run a b t (false ∷ turns) =
    let (s', pc) = spend_step b t.state t.right in
    run a b (record { state = s'; left = t.left; right = pc }) turns

abbrev pub calling : BandwidthState → Tasks
calling s = record { state = s; left = start; right = start }

-- One task after the other: what both are granted is within the budget.
pub serial_within :
    (a b : ℕ) (s : BandwidthState)
    → s.byte_budget < u64_max
    → let t = run a b (calling s) (true ∷ true ∷ false ∷ false ∷ []) in
      (t.left ≡ granted → a + t.state.byte_budget ≤ s.byte_budget)
      × (t.right ≡ granted → b + t.state.byte_budget ≤ s.byte_budget)
      × (t.left ≡ granted → t.right ≡ granted → a + b + t.state.byte_budget ≡ s.byte_budget)
unfolding run spend_step
serial_within a b s h = (λ l. ground arith, λ r. ground arith, λ l r. ground arith)

-- Interleaved: whenever each amount fits the budget and both together do not, both tasks can be
-- granted. If they add up to less than 2 ^ 64, the budget then wraps around to more than it was at
-- first, with nobody told to stop.
pub race_overspends :
    (a b : ℕ) (s : BandwidthState)
    → s.byte_budget < u64_max
    → a ≤ s.byte_budget
    → b ≤ s.byte_budget
    → s.byte_budget < a + b
    → a + b < u64_mod
    → let t = run a b (calling s) (true ∷ false ∷ true ∷ false ∷ []) in
      (t.left ≡ granted)
      × (t.right ≡ granted)
      × (s.byte_budget < t.state.byte_budget)
      × (t.state.running ≡ s.running)
unfolding run spend_step
race_overspends a b s h ha hb both fits = ground arith
