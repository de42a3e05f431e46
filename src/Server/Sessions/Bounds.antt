-- ===== src/Server/Sessions/Bounds.antt =====
-- No session of src/server.rs gets more connections than it expects.
use btest_rs.Base.{
  ℕ, ◌≤◌, ◌≡◌, true, [], ◌∷◌, Option, none, some, Bytes, length, length-append, arith,
}
use btest_rs.Server.Sessions.{
  TcpSession, SessionMap, has_room, join_by_token, join_by_address, register, gather, without_token,
  push,
}

abbrev pub IsBounded : SessionMap → Type 0
IsBounded [] = Unit {0}
IsBounded ((key, s) ∷ rest) = (length s.streams ≤ s.expected) × IsBounded rest

abbrev pub IsBoundedIfAny : Option SessionMap → Type 0
IsBoundedIfAny none = Unit {0}
IsBoundedIfAny (some sessions) = IsBounded sessions

push_fits :
    (id : ℕ) (ip : Bytes) (s : TcpSession)
    → has_room ip s ≡ true
    → length (push id s).streams ≤ s.expected
unfolding has_room
push_fits id ip s h = ground (arith, length-append s.streams (id ∷ []))

without_token-IsBounded :
    (token : ℕ) (sessions : SessionMap)
    → IsBounded sessions
    → IsBounded (without_token token sessions)
without_token-IsBounded token [] v = v
without_token-IsBounded token ((key, s) ∷ rest) v =
    ground (arith, without_token-IsBounded token rest v.1)

join_by_token-IsBounded :
    (id : ℕ) (ip : Bytes) (token : ℕ) (sessions : SessionMap)
    → IsBounded sessions
    → IsBoundedIfAny (join_by_token id ip token sessions)
unfolding join_by_token
join_by_token-IsBounded id ip token [] v = tt
join_by_token-IsBounded id ip token ((key, s) ∷ rest) v =
    ground (arith, push_fits id ip s, join_by_token-IsBounded id ip token rest v.1)

join_by_address-IsBounded :
    (id : ℕ) (ip : Bytes) (sessions : SessionMap)
    → IsBounded sessions
    → IsBounded (join_by_address id ip sessions)
unfolding join_by_address
join_by_address-IsBounded id ip [] v = v
join_by_address-IsBounded id ip ((key, s) ∷ rest) v =
    ground (arith, push_fits id ip s, join_by_address-IsBounded id ip rest v.1)

-- Every operation on the waiting sessions keeps each of them within the connections that it expects:
-- both ways of joining, the registration of a session, and the end of its wait.
pub within_expected :
    (id : ℕ) (ip : Bytes) (token expected : ℕ) (sessions : SessionMap)
    → IsBounded sessions
    → IsBoundedIfAny (join_by_token id ip token sessions)
      × IsBounded (join_by_address id ip sessions)
      × IsBounded (register token ip expected sessions)
      × IsBounded (gather id token sessions).1
unfolding register gather
within_expected id ip token expected sessions v = (
  join_by_token-IsBounded id ip token sessions v,
  join_by_address-IsBounded id ip sessions v,
  (omega arith, without_token-IsBounded token sessions v),
  without_token-IsBounded token sessions v,
)
