-- ===== src/Prelude/Lists.antt =====
-- Lists measured by native numbers, and lists that are compared as sets.
use Prim.Native.Nat.{ℕ, zero, suc, ◌+◌}
use mathlib.Core.Path.{◌≡◌, refl}
use mathlib.Core.Bool.{Bool, false, ◌&&◌, ◌||◌}
use mathlib.Core.Option.{Option, none, some}
use mathlib.Core.List.{List, [], ◌∷◌, ◌++◌, map, Memᴰ}
use native.Mathlib.Omega.{arith}
use mathlib.Core.Logic.{inl, inr}
use mathlib.Core.Path.{◌∙◌}
use boox_bridge.Prelude.Tests.{if◌then◌else◌, Bool-cases}

module _ {ℓ} {A : Type ℓ} where
  abbrev pub length : List A → ℕ
  length [] = 0
  length (x ∷ xs) = suc (length xs)

  pub length-append : (xs ys : List A) → length (xs ++ ys) ≡ length xs + length ys
  length-append [] ys = omega arith
  length-append (x ∷ xs) ys = omega (arith, length-append xs ys)

  abbrev pub take : ℕ → List A → List A
  take zero xs = []
  take (suc n) [] = []
  take (suc n) (x ∷ xs) = x ∷ take n xs

  abbrev pub drop : ℕ → List A → List A
  drop zero xs = xs
  drop (suc n) [] = []
  drop (suc n) (x ∷ xs) = drop n xs

  abbrev pub get_elem? : List A → ℕ → Option A
  get_elem? [] i = none
  get_elem? (x ∷ xs) zero = some x
  get_elem? (x ∷ xs) (suc i) = get_elem? xs i

  pub take-append-drop : (n : ℕ) (xs : List A) → take n xs ++ drop n xs ≡ xs
  take-append-drop zero xs = refl
  take-append-drop (suc n) [] = refl
  take-append-drop (suc n) (x ∷ xs) = cc (take-append-drop n xs)

  -- Two lists with the same members, whatever their order and repetitions.
  abbrev pub SameMembers : List A → List A → Type ℓ
  SameMembers xs ys = (a : A) → (Memᴰ a xs → Memᴰ a ys) × (Memᴰ a ys → Memᴰ a xs)

  -- The elements that pass a test, in their order.
  unfoldable pub keep : (A → Bool) → List A → List A
  keep p [] = []
  keep p (x ∷ xs) = let rest = keep p xs in if p x then x ∷ rest else rest

  unfoldable pub any : (A → Bool) → List A → Bool
  any p [] = false
  any p (x ∷ xs) = p x || any p xs

  pub any-append : (p : A → Bool) (xs ys : List A) → any p (xs ++ ys) ≡ any p xs || any p ys
  unfolding any
  any-append p [] ys = refl
  any-append p (x ∷ xs) ys = ground (arith, any-append p xs ys)

  pub any-keep : (p q : A → Bool) (xs : List A) → any p (keep q xs) ≡ any (λ x. q x && p x) xs
  unfolding any keep
  any-keep p q [] = refl
  any-keep p q (x ∷ xs) = ground (arith, any-keep p q xs)

  pub any-keep-false : (p q : A → Bool) (xs : List A) → any p xs ≡ false → any p (keep q xs) ≡ false
  unfolding any keep
  any-keep-false p q [] h = refl
  any-keep-false p q (x ∷ xs) h = ground (arith, any-keep-false p q xs)

  pub any-cong : (p q : A → Bool) (xs : List A) → ((x : A) → p x ≡ q x) → any p xs ≡ any q xs
  unfolding any
  any-cong p q [] same = refl
  any-cong p q (x ∷ xs) same = cc (same x, any-cong p q xs same)

  pub any_none : (xs : List A) → any (λ x. false) xs ≡ false
  unfolding any
  any_none [] = refl
  any_none (x ∷ xs) = any_none xs

pub any-map {ℓ κ} :
    {A : Type ℓ} {B : Type κ} (p : B → Bool) (f : A → B) (xs : List A)
    → any p (map f xs) ≡ any (λ x. p (f x)) xs
unfolding any
any-map p f [] = refl
any-map p f (x ∷ xs) = cc (any-map p f xs)

-- A test on the images that agrees with one on the elements keeps the images of the same.
pub map-keep {ℓ κ} :
    {A : Type ℓ} {B : Type κ} (f : A → B) (p : A → Bool) (q : B → Bool) (xs : List A)
    → ((x : A) → q (f x) ≡ p x)
    → map f (keep p xs) ≡ keep q (map f xs)
unfolding keep
map-keep f p q [] same = refl
map-keep f p q (x ∷ xs) same = elim (Bool-cases (p x)) [
  | inl e ↦ rw (e, same x ∙ e, map-keep f p q xs same) refl
  | inr e ↦ rw (e, same x ∙ e, map-keep f p q xs same) refl
]

pub map-map_change {ℓ κ} :
    {A : Type ℓ} {B : Type κ} (f : A → B) (g : A → A) (h : B → B) (xs : List A)
    → ((x : A) → f (g x) ≡ h (f x))
    → map f (map g xs) ≡ map h (map f xs)
map-map_change f g h [] same = refl
map-map_change f g h (x ∷ xs) same = cc (same x, map-map_change f g h xs same)

pub map-append {ℓ κ} :
    {A : Type ℓ} {B : Type κ} (f : A → B) (xs ys : List A) → map f (xs ++ ys) ≡ map f xs ++ map f ys
map-append f [] ys = refl
map-append f (x ∷ xs) ys = cc (map-append f xs ys)
