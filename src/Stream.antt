-- ===== src/Stream.antt =====
-- The byte stream under an exchange of messages, and the helpers of src/protocol.rs that read and
-- write it: what is still to be read, what has been written, and whether the peer still takes
-- writes. A failed exchange leaves the stream as it stood.
pub mod Laws
use btest_rs.Base.{ℕ, Bool, ◌++◌, Bytes, length, take, drop, bytes_eq, ltb, if◌then◌else◌}
use btest_rs.Protocol.{hello}
use btest_rs.Protocol.Command
use btest_rs.Protocol.Command.{Command}

-- `BtestError`, without the text of the messages.
pub data BtestError : Type 0 where
  io : BtestError
  protocol : BtestError
  auth_failed : BtestError
  invalid_command : BtestError

pub record Stream : Type 0 where
  pub incoming : Bytes
  pub written : Bytes
  pub writable : Bool

pub data Outcome {ℓ} (A : Type ℓ) : Type ℓ where
  ok : A → Stream → Outcome A
  err : BtestError → Stream → Outcome A

abbrev pub Exchange {ℓ} : Type ℓ → Type ℓ
Exchange A = Stream → Outcome A

abbrev pub and_then {ℓ κ} : {A : Type ℓ} {B : Type κ} → Outcome A → (A → Exchange B) → Outcome B
and_then (ok a s) f = f a s
and_then (err e s) f = err e s

infixl 5 ◌>>=◌ ◌>>◌
abbrev pub ◌>>=◌ {ℓ κ} : {A : Type ℓ} {B : Type κ} → Exchange A → (A → Exchange B) → Exchange B
(m >>= f) s = and_then (m s) f

abbrev pub ◌>>◌ {ℓ κ} : {A : Type ℓ} {B : Type κ} → Exchange A → Exchange B → Exchange B
m >> n = m >>= (λ _. n)

abbrev pub pure {ℓ} : {A : Type ℓ} → A → Exchange A
pure a s = ok a s

abbrev pub raise {ℓ} : {A : Type ℓ} → BtestError → Exchange A
raise e s = err e s

-- `read_exact` into a buffer of `n` bytes.
unfoldable pub read_exact : ℕ → Exchange Bytes
read_exact n s =
    if ltb (length s.incoming) n
    then err io s
    else ok (take n s.incoming) (record s { incoming = drop n s.incoming })

-- `write_all` and the `flush` after it.
unfoldable pub write_all : Bytes → Exchange {0} Unit
write_all bs s = if s.writable then ok tt (record s { written = s.written ++ bs }) else err io s

unfoldable pub send_hello : Exchange {0} Unit
send_hello = write_all hello

unfoldable pub recv_hello : Exchange {0} Unit
recv_hello = do buf ← read_exact 4; if bytes_eq buf hello then pure tt else raise protocol

unfoldable pub send_command : Command → Exchange {0} Unit
send_command c = write_all (Command.serialize c)

unfoldable pub recv_command : Exchange Command
recv_command = do
  buf ← read_exact 16
  let c = Command.deserialize buf
  if Command.is_invalid c then raise invalid_command else pure c

unfoldable pub recv_response : Exchange Bytes
recv_response = read_exact 4
