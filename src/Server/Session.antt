-- ===== src/Server/Session.antt =====
-- The atomic operations of a test of src/server.rs in one direction over one connection or over UDP:
-- one task moves the bytes and asks the budget for them, any number of others report, and their
-- operations come in any order. Each load, `fetch_add`, `fetch_sub` and `swap` on a counter is a step
-- of its own, so that a read or a write that is in flight stands between two steps.
pub mod Uninterrupted
use btest_rs.Base.{ℕ, ◌+◌, ◌-◌, ◌≤◌, ◌<◌, List, [], ◌∷◌, leb, if◌then◌else◌, u64_max}
use btest_rs.Bandwidth
use btest_rs.Bandwidth.{BandwidthState, add_u64}
use btest_rs.Bandwidth.Race.{Spend, start, checked, granted, spend_step}
use btest_rs.Tasks.{count_sent, count_received}

-- Where the moving task is: outside `spend_budget`, or with a call for an amount. A granted call is
-- over when its bytes are counted, or when its task ends without.
pub data Place : Type 0 where
  outside : Place
  spending : ℕ → Spend → Place

-- The counters, the place of the moving task, and what the reporting tasks have together swapped out
-- of the counters and not yet added to the totals.
pub record Moment : Type 0 where
  pub shared : BandwidthState
  pub place : Place
  pub held_tx : ℕ
  pub held_rx : ℕ

-- What a task does next; a report adds what it swapped out. `stores` is a store or an add to any of the other fields.
pub data Action : Type 0 where
  calls : ℕ → Action
  goes_on : Action
  sends : ℕ → Action
  receives : ℕ → Action
  gives_up : Action
  swaps_tx : Action
  swaps_rx : Action
  adds_tx : ℕ → Action
  adds_rx : ℕ → Action
  stores : BandwidthState → Action

abbrev pub call : ℕ → Place → Place
call amount outside = spending amount start
call amount (spending a pc) = spending a pc

unfoldable pub proceed : Moment → Place → Moment
unfolding spend_step
proceed m outside = record m { place = outside }
proceed m (spending amount pc) =
    let (s, pc') = spend_step amount m.shared pc in
    record m { shared = s; place = spending amount pc' }

-- No more is counted than was granted.
unfoldable pub count_up : (ℕ → BandwidthState → BandwidthState) → ℕ → Moment → Place → Moment
count_up f n m (spending amount granted) =
    if leb n amount
    then record m { shared = f n m.shared; place = outside }
    else record m { place = spending amount granted }
count_up f n m p = record m { place = p }

-- The fields of `t` that are neither counters of bytes nor the budget.
abbrev pub stored : BandwidthState → BandwidthState → BandwidthState
stored t s = record t {
  tx_bytes = s.tx_bytes;
  rx_bytes = s.rx_bytes;
  total_tx_bytes = s.total_tx_bytes;
  total_rx_bytes = s.total_rx_bytes;
  byte_budget = s.byte_budget;
}

unfoldable pub act : Action → Moment → Moment
unfolding proceed count_up count_sent count_received
act (calls amount) m = record m { place = call amount m.place }
act goes_on m = proceed m m.place
act (sends n) m = count_up count_sent n m m.place
act (receives n) m = count_up count_received n m m.place
act gives_up m = record m { place = outside }
act swaps_tx m = record m {
  shared = record m.shared { tx_bytes = 0 };
  held_tx = m.held_tx + m.shared.tx_bytes;
}
act swaps_rx m = record m {
  shared = record m.shared { rx_bytes = 0 };
  held_rx = m.held_rx + m.shared.rx_bytes;
}
act (adds_tx n) m =
    if leb n m.held_tx
    then record m {
      shared = record m.shared { total_tx_bytes = add_u64 m.shared.total_tx_bytes n };
      held_tx = m.held_tx - n;
    }
    else m
act (adds_rx n) m =
    if leb n m.held_rx
    then record m {
      shared = record m.shared { total_rx_bytes = add_u64 m.shared.total_rx_bytes n };
      held_rx = m.held_rx - n;
    }
    else m
act (stores t) m = record m { shared = stored t m.shared }

-- A test: the actions of its tasks, in the order in which they happen.
unfoldable pub acts : List Action → Moment → Moment
unfolding act
acts [] m = m
acts (a ∷ rest) m = acts rest (act a m)

abbrev pub begin : BandwidthState → Moment
begin s = record { shared = s; place = outside; held_tx = 0; held_rx = 0 }

-- The bytes that are granted and not counted, and those that a call has found in the budget.
abbrev owed : Place → ℕ
owed (spending amount granted) = amount
owed _ = 0

abbrev found : Place → ℕ
found (spending amount checked) = amount
found _ = 0

-- A limited session: what was counted, swapped out and granted, with what may still be spent, is
-- within the limit, and what a call has found in the budget is still there.
record Covers (limit : ℕ) (s : BandwidthState) (p : Place) (tx rx : ℕ) : Type 0 where
  limited : limit < u64_max
  within :
      s.tx_bytes
        + s.rx_bytes
        + s.total_tx_bytes
        + s.total_rx_bytes
        + tx
        + rx
        + owed p
        + s.byte_budget
      ≤ limit
  there : found p ≤ s.byte_budget

abbrev IsCovered : ℕ → Moment → Type 0
IsCovered limit m = Covers limit m.shared m.place m.held_tx m.held_rx
