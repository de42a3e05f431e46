-- ===== src/Stream/Laws.antt =====
-- The helpers of src/protocol.rs on a stream that takes writes.
use btest_rs.Base.{
  ℕ, ◌≡◌, refl, true, false, ◌++◌, Bytes, length, length-append, take_prefix, drop_prefix, ltb,
  arith,
}
use btest_rs.Stream.{Stream, ok, read_exact}

-- A stream that takes writes.
abbrev pub open_stream : Bytes → Bytes → Stream
open_stream incoming written = record { incoming = incoming; written = written; writable = true }

enough_read : (n : ℕ) (r rest : Bytes) → length r ≡ n → ltb (length (r ++ rest)) n ≡ false
enough_read n r rest h = rw (length-append r rest) (ground arith)

-- A buffer of the right size is filled with what comes first.
pub read_exact_prefix :
    (n : ℕ) (r rest w : Bytes)
    → length r ≡ n
    → read_exact n (open_stream (r ++ rest) w) ≡ ok r (open_stream rest w)
unfolding read_exact
read_exact_prefix n r rest w h =
    rw (enough_read n r rest h, take_prefix n r rest h, drop_prefix n r rest h) refl
