-- ===== src/Base/Bits.antt =====
-- A Boolean property of the first numbers, checked one by one: a byte has 256 values.
use Prim.Native.Nat.{ℕ, zero, suc, ◌<◌}
use mathlib.Core.Path.{◌≡◌}
use mathlib.Core.Bool.{Bool, true, ◌&&◌}
use native.Mathlib.Omega.{arith}

unfoldable pub passes_to : (ℕ → Bool) → ℕ → Bool
passes_to test zero = true
passes_to test (suc k) = passes_to test k && test k

-- A number below the end of a passed check passes the test.
pub passes_at :
    (test : ℕ → Bool) (k : ℕ) → passes_to test k ≡ true → (x : ℕ) → x < k → test x ≡ true
unfolding passes_to
passes_at test zero passed x below = absurd (omega arith)
passes_at test (suc k) passed x below = ground (arith, passes_at test k (ground arith) x)
