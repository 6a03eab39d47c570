-- ===== src/Prelude/Below.antt =====
-- Facts about all numbers below a bound, checked by evaluation.
use mathlib.Core.Path.{◌≡◌}
use mathlib.Core.Bool.{Bool, true, false}
use Prim.Native.Nat.{ℕ, zero, suc, ◌<◌}
use native.Mathlib.Omega.{arith}
use boox_bridge.Prelude.Tests.{◌==◌, if◌then◌else◌}

unfoldable pub holds_below : (ℕ → Bool) → ℕ → Bool
holds_below test zero = true
holds_below test (suc k) = let rest = holds_below test k in if test k then rest else false

pub holds_below-at : (test : ℕ → Bool) (k i : ℕ) → i < k → holds_below test k ≡ true → test i ≡ true
unfolding holds_below
holds_below-at test (suc k) i b h = ground (arith, holds_below-at test k i)
holds_below-at test zero i b h = absurd (omega arith)

-- Two functions that agree at each value below `n`.
unfoldable pub eq_below : ℕ → (ℕ → ℕ) → (ℕ → ℕ) → Bool
unfolding holds_below
eq_below n f g = holds_below (λ x. f x == g x) n

pub eq_below_sound : (n : ℕ) (f g : ℕ → ℕ) (x : ℕ) → eq_below n f g ≡ true → x < n → f x ≡ g x
unfolding eq_below
eq_below_sound n f g x h lt = ground (arith, holds_below-at (λ x. f x == g x) n x lt h)
