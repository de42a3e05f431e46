-- ===== src/Quota/Slots.antt =====
-- The connections of an address, as `connect` and `disconnect` count them.
use btest_rs.Base.{
  ◌+◌, ◌-◌, ◌%◌, ◌≤◌, ◌<◌, ◌≡◌, Bytes, arith, u32_mod, bytes_eq, bytes_eq_refl, if◌then◌else◌,
}
use btest_rs.UserDb.{UserDb, Clock}
use btest_rs.Quota.Connections.{count_of-add_one, count_of-take_one}
use btest_rs.Quota.{
  QuotaManager, Direction, accept, reject, too_many_connections, check_ip, connect, disconnect,
  active_connections_count,
}

module _ (q : QuotaManager) (ip other : Bytes) where
  -- A connection adds one to the count of its address, and a disconnection takes one off if there is
  -- one; the other addresses keep theirs.
  pub count_changes :
      (active_connections_count other (connect ip q) ≡ (
        if bytes_eq ip other
        then (active_connections_count other q + 1) % u32_mod
        else active_connections_count other q))
      × (active_connections_count other (disconnect ip q) ≡ (
          if bytes_eq ip other
          then active_connections_count other q - 1
          else active_connections_count other q))
  unfolding active_connections_count connect disconnect
  count_changes = (
    count_of-add_one ip other q.active_connections,
    count_of-take_one ip other q.active_connections,
  )

  -- So the two undo one another.
  pub disconnect-connect :
      active_connections_count other q + 1 < u32_mod
      → active_connections_count other (disconnect ip (connect ip q))
        ≡ active_connections_count other q
  unfolding active_connections_count connect disconnect
  disconnect-connect small = ground (
    arith,
    count_of-add_one ip other q.active_connections,
    count_of-take_one ip other (connect ip q).active_connections,
  )

module _ (q : QuotaManager) (k : Clock) (db : UserDb) (ip : Bytes) (d : Direction) where
  -- The check of an address refuses at once when the slots are taken, and an address that it accepts
  -- has a free slot, where there is a limit.
  pub slots_checked :
      (0 < q.max_conn_per_ip
        → q.max_conn_per_ip ≤ active_connections_count ip q
        → check_ip q k db ip d
          ≡ reject (too_many_connections (active_connections_count ip q) q.max_conn_per_ip))
      × (check_ip q k db ip d ≡ accept
          → 0 < q.max_conn_per_ip
          → active_connections_count ip q < q.max_conn_per_ip)
  unfolding check_ip active_connections_count
  slots_checked = (λ pos full. ground arith, λ h pos. ground arith)

  -- After the connection that fills the slots the check refuses.
  pub full_after_connect :
      active_connections_count ip q + 1 ≡ q.max_conn_per_ip
      → q.max_conn_per_ip < u32_mod
      → check_ip (connect ip q) k db ip d
        ≡ reject (too_many_connections q.max_conn_per_ip q.max_conn_per_ip)
  unfolding check_ip active_connections_count connect
  full_after_connect full small =
      ground (arith, count_of-add_one ip ip q.active_connections, bytes_eq_refl ip)
