-- ===== src/Prelude/Result.antt =====
-- Go's (value, error) results: a value, or the text of an error.
use mathlib.Core.Path.{◌≡◌, refl}
use Prim.Native.String.{String}

pub data Result {ℓ} (Value : Type ℓ) : Type ℓ where
  err : String → Result Value
  ok : Value → Result Value

pub ok-injective {ℓ} : {Value : Type ℓ} {x y : Value} → ok x ≡ ok y → x ≡ y
ok-injective same = cc

module _ {ℓ κ} {V : Type ℓ} {W : Type κ} where
  infixl 5 ◌>>=◌
  -- An error ends the chain, like `if err != nil { return … }`.
  abbrev pub ◌>>=◌ : Result V → (V → Result W) → Result W
  err why >>= next = err why
  ok v >>= next = next v

  pub bind-ok : {r : Result V} (next : V → Result W) {v : V} → r ≡ ok v → (r >>= next) ≡ next v
  bind-ok next found = rw found

  -- A chain that succeeds has a first step that does.
  pub bind-eq-ok :
      (r : Result V) (next : V → Result W) {w : W}
      → (r >>= next) ≡ ok w
      → (v : V) × (r ≡ ok v) × (next v ≡ ok w)
  bind-eq-ok (err why) next ends = cc
  bind-eq-ok (ok v) next ends = (v, refl, ends)
