-- ===== src/Prelude/Picks.antt =====
-- The first of the least elements that pass a test: ORDER BY … LIMIT 1.
use mathlib.Core.Path.{◌≡◌, refl, subst, ap}
use mathlib.Core.Logic.{◌⊎◌, inl, inr}
use mathlib.Core.Bool.{Bool, true, false, ◌&&◌}
use mathlib.Core.Option.{Option, none, some}
use mathlib.Core.List.{List, [], ◌∷◌}
use native.Mathlib.Omega.{arith}
use boox_bridge.Prelude.Tests.{if◌then◌else◌, Bool-cases}
use boox_bridge.Prelude.Lists.{any}

module _ {ℓ} {A : Type ℓ} where
  unfoldable pub better : (A → A → Bool) → A → Option A → A
  better lt x none = x
  better lt x (some y) = if lt y x then y else x

  unfoldable pub pick : (A → Bool) → (A → A → Bool) → List A → Option A
  unfolding better
  pick p lt [] = none
  pick p lt (x ∷ xs) = let rest = pick p lt xs in if p x then some (better lt x rest) else rest

abbrev pub IsIn : {A : Type 0} → A → List A → Type 0
IsIn x [] = ⊥
IsIn x (y ∷ xs) = (y ≡ x) ⊎ IsIn x xs

pub any-IsIn :
    {A : Type 0} (q : A → Bool) (x : A) (xs : List A) → IsIn x xs → q x ≡ true → any q xs ≡ true
unfolding any
any-IsIn q x [] m h = elim m [ ]
any-IsIn q x (y ∷ xs) (inl e) h = ground (arith, ap q e, h)
any-IsIn q x (y ∷ xs) (inr m) h = ground (arith, any-IsIn q x xs m h)

pub none-IsIn :
    {A : Type 0} (q : A → Bool) (x : A) (xs : List A) → any q xs ≡ false → IsIn x xs → q x ≡ false
none-IsIn q x xs h m = elim (Bool-cases (q x)) [ inr e ↦ e | inl e ↦ cc (h, any-IsIn q x xs m e) ]

-- What is picked: an element that is there and passes, before which no other one is; or nothing, where
-- none passes.
abbrev pub IsPick : {A : Type 0} → (A → Bool) → (A → A → Bool) → List A → Option A → Type 0
IsPick {A} p lt xs none = any p xs ≡ false
IsPick {A} p lt xs (some x) = IsIn x xs × (p x ≡ true) × (any (λ y. p y && lt y x) xs ≡ false)

module _ {A : Type 0} (p : A → Bool) (lt : A → A → Bool) where
  -- An order in which not to be before is transitive, and nothing is before itself.
  pub record IsOrder : Type 0 where
    pub irrefl : (x : A) → lt x x ≡ false
    pub trans : (x y z : A) → lt x y ≡ false → lt y z ≡ false → lt x z ≡ false
    pub asym : (x y : A) → lt x y ≡ true → lt y x ≡ false

  none_passing : (x : A) (xs : List A) → any p xs ≡ false → any (λ y. p y && lt y x) xs ≡ false
  unfolding any
  none_passing x [] h = refl
  none_passing x (y ∷ xs) h = ground (arith, none_passing x xs)

  none_before :
      IsOrder
      → (x y : A) (xs : List A) → lt y x ≡ false
      → any (λ z. p z && lt z y) xs ≡ false
      → any (λ z. p z && lt z x) xs ≡ false
  unfolding any
  none_before o x y [] h k = refl
  none_before o x y (z ∷ xs) h k = ground (arith, none_before o x y xs h, o.trans z y x)

  better-IsPick :
      IsOrder
      → (x : A) (xs : List A) (o : Option A) → p x ≡ true
      → IsPick p lt xs o
      → IsPick p lt (x ∷ xs) (some (better lt x o))
  unfolding better any
  better-IsPick o x xs none e h = (inl refl, e, ground (arith, o.irrefl x, none_passing x xs h))
  better-IsPick o x xs (some y) e h = elim (Bool-cases (lt y x)) [
    | inl m ↦
        subst (λ b. IsPick p lt (x ∷ xs) (some b)) (rw m refl)
          (inr h.0, h.1, ground (arith, h.2, o.asym y x))
    | inr m ↦
        subst (λ b. IsPick p lt (x ∷ xs) (some b)) (rw m refl)
          (inl refl, e, ground (arith, o.irrefl x, none_before o x y xs m h.2))
  ]

  skip-IsPick :
      (x : A) (xs : List A) (o : Option A) → p x ≡ false → IsPick p lt xs o → IsPick p lt (x ∷ xs) o
  unfolding any
  skip-IsPick x xs none e h = ground (arith, h)
  skip-IsPick x xs (some y) e h = (inr h.0, h.1, ground (arith, e, h.2))

  pub pick-IsPick : IsOrder → (xs : List A) → IsPick p lt xs (pick p lt xs)
  unfolding pick
  pick-IsPick o [] = unfold any in refl
  pick-IsPick o (x ∷ xs) =
      let rest = pick-IsPick o xs in
      elim (Bool-cases (p x)) [
        | inl e ↦ rw e (better-IsPick o x xs (pick p lt xs) e rest)
        | inr e ↦ rw e (skip-IsPick x xs (pick p lt xs) e rest)
      ]
