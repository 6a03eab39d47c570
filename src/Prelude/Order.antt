-- ===== src/Prelude/Order.antt =====
-- Strict total preorders given by a Boolean test: the interface behind every "greatest key wins".
use mathlib.Core.Path.{◌≡◌}
use mathlib.Core.Bool.{Bool, true, false}

-- `lt` orders the values of `A` by a key, and two values neither of which is less have equal keys.
pub record IsKeyOrder {ℓ} {A : Type ℓ} (lt : A → A → Bool) (SameKey : A → A → Type 0) : Type ℓ where
  pub irrefl : (a b : A) → SameKey a b → lt a b ≡ false
  pub trans : (a b c : A) → lt a b ≡ true → lt b c ≡ true → lt a c ≡ true
  pub total : (a b : A) → lt a b ≡ false → lt b a ≡ false → SameKey a b
  pub respects : (a b c : A) → SameKey b c → lt a b ≡ lt a c
