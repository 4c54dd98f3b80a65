-- ===== src/Base/Bits.antt =====
-- A Boolean test at every value of a machine word, run once as a table and then used for one value.
use Prim.Native.Nat.{ℕ, zero, suc, ◌<◌}
use mathlib.Core.Path.{◌≡◌}
use mathlib.Core.Bool.{Bool, true, ◌&&◌}
use native.Mathlib.Omega.{arith}

-- The test holds at each value under the bound.
unfoldable pub every : (ℕ → Bool) → ℕ → Bool
every test zero = true
every test (suc top) = every test top && test top

pub every_at :
    (test : ℕ → Bool) (bound value : ℕ)
    → value < bound
    → every test bound ≡ true
    → test value ≡ true
unfolding every
every_at test zero value below table = absurd (omega arith)
every_at test (suc top) value below table = ground (arith, every_at test top value)
