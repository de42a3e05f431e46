-- ===== src/Server/Session/Uninterrupted.antt =====
-- The atomic operations of a task of src/server.rs that nothing interrupts, one after the other, are
-- its turn.
use btest_rs.Base.{◌≡◌, ◌≤◌, ℕ, [], ◌∷◌, true, arith}
use btest_rs.Bandwidth.{BandwidthState, stop, spend_budget, record_interval}
use btest_rs.Server.Session.{
  calls, goes_on, sends, receives, swaps_tx, swaps_rx, adds_tx, adds_rx, stores, acts, begin,
}
use btest_rs.Server.Tcp.{received, receive, tcp_rx_turn}
use btest_rs.Tasks.{count_sent}

-- A pass of `tcp_rx_loop` that is granted and not interrupted is four of these actions.
receive_alone :
    (n : ℕ) (s : BandwidthState)
    → s.running ≡ true
    → (spend_budget n s).1 ≡ true
    → (acts (calls n ∷ goes_on ∷ goes_on ∷ receives n ∷ []) (begin s)).shared
      ≡ (tcp_rx_turn (received n) s).0
unfolding acts spend_budget tcp_rx_turn receive stop
receive_alone n s h e = ground arith

-- A sender that is granted an amount and counts no more than that.
send_alone :
    (amount n : ℕ) (s : BandwidthState)
    → n ≤ amount
    → (spend_budget amount s).1 ≡ true
    → (acts (calls amount ∷ goes_on ∷ goes_on ∷ sends n ∷ []) (begin s)).shared
      ≡ count_sent n (spend_budget amount s).0
unfolding acts spend_budget stop count_sent
send_alone amount n s h e = ground arith

-- The record of an interval by a task that is not interrupted.
report_alone :
    (lost : ℕ) (s : BandwidthState)
    → let taken = record s { tx_bytes = 0; rx_bytes = 0 } in
      let recorded = record_interval s.tx_bytes s.rx_bytes lost taken in
      (acts
        (swaps_tx ∷ swaps_rx ∷ adds_tx s.tx_bytes ∷ adds_rx s.rx_bytes ∷ stores recorded ∷ [])
        (begin s)).shared
      ≡ recorded
unfolding acts record_interval
report_alone lost s = ground arith
