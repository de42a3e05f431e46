-- ===== src/Server/Sessions.antt =====
-- The TCP sessions of src/server.rs that wait for more connections: a map from the token, as an
-- association list in the order in which the map is walked. A stream is the number of its connection;
-- the primary connection is not among the streams.
pub mod Bounds
use btest_rs.Base.{
  ℕ, ◌+◌, Bool, false, leb, ◌||◌, ◌&&◌, List, [], ◌∷◌, ◌++◌, Option, none, some, Bytes, bytes_eq,
  ltb, ◌==◌, length, if◌then◌else◌,
}

pub record TcpSession : Type 0 where
  pub peer_ip : Bytes
  pub streams : List ℕ
  pub expected : ℕ  -- u8

abbrev pub SessionMap : Type 0
SessionMap = List (ℕ × TcpSession)

-- The test that lets a connection join.
unfoldable pub has_room : Bytes → TcpSession → Bool
has_room ip s = bytes_eq s.peer_ip ip && ltb (length s.streams) s.expected

abbrev pub push : ℕ → TcpSession → TcpSession
push id s = record s { streams = s.streams ++ id ∷ [] }

-- The session with the token gets the connection, if it has room for it.
unfoldable pub join_by_token : ℕ → Bytes → ℕ → SessionMap → Option SessionMap
unfolding has_room
join_by_token id ip token [] = none
join_by_token id ip token ((key, s) ∷ rest) =
    let others = join_by_token id ip token rest in
    if key == token
    then (if has_room ip s then some ((key, push id s) ∷ rest) else none)
    else elim others [ none ↦ none | some rest' ↦ some ((key, s) ∷ rest') ]

-- Whether some session has room for a connection from the address.
unfoldable pub any_room : Bytes → SessionMap → Bool
unfolding has_room
any_room ip [] = false
any_room ip ((key, s) ∷ rest) = has_room ip s || any_room ip rest

-- The first such session gets the connection; without one it is dropped.
unfoldable pub join_by_address : ℕ → Bytes → SessionMap → SessionMap
unfolding has_room
join_by_address id ip [] = []
join_by_address id ip ((key, s) ∷ rest) =
    let others = join_by_address id ip rest in
    if has_room ip s then (key, push id s) ∷ rest else (key, s) ∷ others

abbrev pub without_token : ℕ → SessionMap → SessionMap
without_token token [] = []
without_token token ((key, s) ∷ rest) =
    let others = without_token token rest in if key == token then others else (key, s) ∷ others

unfoldable pub register : ℕ → Bytes → ℕ → SessionMap → SessionMap
register token ip expected sessions =
    (token, record { peer_ip = ip; streams = []; expected = expected })
    ∷ without_token token sessions

abbrev pub streams_of : ℕ → SessionMap → List ℕ
streams_of token [] = []
streams_of token ((key, s) ∷ rest) =
    let others = streams_of token rest in if key == token then s.streams else others

-- The wait of a primary ends when the session has all its connections but the primary's, or at the
-- deadline.
unfoldable pub is_complete : ℕ → ℕ → SessionMap → Bool
is_complete token conn_count sessions = leb conn_count (length (streams_of token sessions) + 1)

-- The streams of the test, and the map without the session.
unfoldable pub gather : ℕ → ℕ → SessionMap → List ℕ × SessionMap
gather id token sessions = (id ∷ streams_of token sessions, without_token token sessions)
