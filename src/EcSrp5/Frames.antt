-- ===== src/EcSrp5/Frames.antt =====
-- The messages of src/ecsrp5.rs on a stream that takes writes.
use btest_rs.Base.{ℕ, zero, suc, ◌≡◌, ◌<◌, ◌%◌, refl, [], ◌∷◌, ◌++◌, Bytes, length, get_or, arith}
use btest_rs.Stream.{ok}
use btest_rs.Stream.Laws.{open_stream, read_exact_prefix}
use btest_rs.EcSrp5.Exchange.{framed, read_framed}

length_byte : (n : ℕ) → n < 256 → n % 256 ≡ n
length_byte n h = omega arith

-- A message of fewer than 256 bytes is read whole.
pub read_framed-framed :
    (m rest w : Bytes)
    → length m < 256
    → read_framed (open_stream (framed m ++ rest) w) ≡ ok m (open_stream rest w)
unfolding read_framed
read_framed-framed m rest w h =
    rw (read_exact_prefix 1 (length m % 256 ∷ []) (m ++ rest) w refl, length_byte (length m) h)
      (read_exact_prefix (length m) m rest w refl)

pub get_or-append :
    (xs : Bytes) (b d : ℕ) (ys : Bytes) (n : ℕ) → length xs ≡ n → get_or (xs ++ b ∷ ys) n d ≡ b
get_or-append [] b d ys zero h = refl
get_or-append [] b d ys (suc n) h = absurd (omega arith)
get_or-append (x ∷ xs) b d ys zero h = absurd (omega arith)
get_or-append (x ∷ xs) b d ys (suc n) h = get_or-append xs b d ys n (omega arith)
