-- ===== src/ProServer/Waiting/Laws.antt =====
-- Who joins a waiting session of src/server_pro/server_loop.rs, and when it starts.
use btest_rs.Base.{
  ℕ, ◌+◌, ◌≤◌, ◌<◌, ◌≡◌, ◌≢◌, refl, List, [], ◌∷◌, ◌++◌, none, some, Bytes, length, length-append,
  bytes_eq_iff, arith,
}
use btest_rs.ProServer.Waiting.{
  TcpSession, not_waiting, joined, find, remove, insert, join_session, join,
}

-- A session that waits: it has its primary connection, and lacks at least one.
pub record IsWaiting (s : TcpSession) : Type 0 where
  pub lacks : length s.streams < s.expected

find-remove :
    (token : ℕ) (sessions : List (ℕ × TcpSession)) → find token (remove token sessions) ≡ none
find-remove token [] = refl
find-remove token ((key, s) ∷ rest) = ground (arith, find-remove token rest)

module _ (id : ℕ) (ip : Bytes) (token : ℕ) (sessions : List (ℕ × TcpSession)) (s : TcpSession)
    (found : find token sessions ≡ some s) where
  -- A connection with the token of a session that waits, from its address, is its next stream. The
  -- session that gets its last connection is handed over with all its streams and waits no more; one
  -- that lacks others waits on under its token.
  pub joins :
      IsWaiting s
      → s.peer_ip ≡ ip
      → let more = record s { streams = s.streams ++ id ∷ [] } in
        (length s.streams + 1 ≡ s.expected
          → join id ip token sessions ≡ joined (remove token sessions) (some more))
        × (length s.streams + 1 < s.expected
            → join id ip token sessions ≡ joined (insert token more sessions) none)
  unfolding join join_session
  joins v same = (
    λ last. ground (arith, bytes_eq_iff s.peer_ip ip, length-append s.streams (id ∷ [])),
    λ lacking. ground (arith, bytes_eq_iff s.peer_ip ip, length-append s.streams (id ∷ [])),
  )

  -- A connection from another address does not join, and none joins a session that has the streams it
  -- expects.
  pub never_joined :
      (s.peer_ip ≢ ip → join id ip token sessions ≡ not_waiting)
      × (s.expected ≤ length s.streams → join id ip token sessions ≡ not_waiting)
  unfolding join join_session
  never_joined = (λ other. ground (arith, bytes_eq_iff s.peer_ip ip), λ enough. ground arith)
