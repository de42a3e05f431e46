-- ===== src/ProServer/Waiting.antt =====
-- The sessions of src/server_pro/server_loop.rs that wait for more TCP connections: a map from the
-- token, as an association list. A stream is the number of its connection.
pub mod Laws
use btest_rs.Base.{
  ℕ, ◌+◌, ◌*◌, Bool, true, false, ◌&&◌, List, [], ◌∷◌, ◌++◌, Option, none, some, Bytes, bytes_eq,
  ltb, leb, ◌==◌, length, get_or, if◌then◌else◌,
}
use btest_rs.Protocol.Command.{Command}

pub record TcpSession : Type 0 where
  pub peer_ip : Bytes
  pub username : Bytes
  pub cmd : Command
  pub streams : List ℕ
  pub expected : ℕ  -- u8

abbrev pub find : ℕ → List (ℕ × TcpSession) → Option TcpSession
find token [] = none
find token ((key, s) ∷ rest) = if key == token then some s else find token rest

abbrev pub remove : ℕ → List (ℕ × TcpSession) → List (ℕ × TcpSession)
remove token [] = []
remove token ((key, s) ∷ rest) =
    let others = remove token rest in if key == token then others else (key, s) ∷ others

unfoldable pub insert : ℕ → TcpSession → List (ℕ × TcpSession) → List (ℕ × TcpSession)
insert token s sessions = (token, s) ∷ remove token sessions

-- Whether a connection joins a session: the sessions after it, and the session if it is complete.
pub data Joined : Type 0 where
  not_waiting : Joined
  joined : List (ℕ × TcpSession) → Option TcpSession → Joined

unfoldable pub join_session : ℕ → Bytes → ℕ → List (ℕ × TcpSession) → TcpSession → Joined
unfolding insert
join_session id ip token sessions s =
    let more = record s { streams = s.streams ++ id ∷ [] } in
    if bytes_eq s.peer_ip ip && ltb (length s.streams) s.expected
    then (if leb s.expected (length more.streams)
        then joined (remove token sessions) (some more)
        else joined (insert token more sessions) none)
    else not_waiting

unfoldable pub join : ℕ → Bytes → ℕ → List (ℕ × TcpSession) → Joined
unfolding join_session
join id ip token sessions = elim (find token sessions) [
  | none ↦ not_waiting
  | some s ↦ join_session id ip token sessions s
]
