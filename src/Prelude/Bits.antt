-- ===== src/Prelude/Bits.antt =====
-- To prove a Boolean test for each number of a small range by running it on all of them.
use Prim.Native.Nat.{ℕ, zero, suc, ◌<◌, ◌+◌}
use mathlib.Core.Path.{◌≡◌}
use mathlib.Core.Bool.{Bool, true, false}
use native.Mathlib.Omega.{arith}
use versaplex.Prelude.Tests.{if◌then◌else◌}

-- `test` holds at `lo`, ..., `lo + n - 1`.
unfoldable pub holds_from : (ℕ → Bool) → ℕ → ℕ → Bool
holds_from test lo zero = true
holds_from test lo (suc n) =
    let later = holds_from test (lo + 1) n in if test lo then later else false

from_start :
    (test : ℕ → Bool) (lo n k : ℕ) → holds_from test lo n ≡ true → k < n → test (lo + k) ≡ true
unfolding holds_from
from_start test lo zero k run h = absurd (omega arith)
from_start test lo (suc n) zero run h = ground arith
from_start test lo (suc n) (suc k) run h = ground (arith, from_start test (lo + 1) n k)

pub holds_at : (test : ℕ → Bool) (n k : ℕ) → holds_from test 0 n ≡ true → k < n → test k ≡ true
holds_at test n k run h = ground (arith, from_start test 0 n k run h)
