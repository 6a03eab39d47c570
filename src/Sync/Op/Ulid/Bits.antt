-- ===== src/Sync/Op/Ulid/Bits.antt =====
-- What the masks and shifts of `encodeULID` mean on bytes, checked at every value.
use Prim.Native.Nat.{bit_and, bit_or}
use boox_bridge.Prelude.{ℕ, ◌+◌, ◌*◌, ◌/◌, ◌%◌, ◌<◌, ◌≡◌, refl, Bool, true, arith}
use boox_bridge.Prelude.Below.{holds_below, holds_below-at, eq_below, eq_below_sound}

-- (u << k) | v is a sum where v has no bit above the k lowest.
or_below : ℕ → ℕ → ℕ → Bool
unfolding eq_below
or_below m n w = holds_below (λ u. eq_below n (λ v. bit_or (u * w) v) (λ v. u * w + v)) m

or_below_sound :
    (m n w u v : ℕ) → or_below m n w ≡ true → u < m → v < n → bit_or (u * w) v ≡ u * w + v
unfolding or_below
or_below_sound m n w u v h hu hv =
    eq_below_sound n (λ v. bit_or (u * w) v) (λ v. u * w + v) v
      (holds_below-at (λ u. eq_below n (λ v. bit_or (u * w) v) (λ v. u * w + v)) m u hu h) hv

module _ (x : ℕ) (h : x < 256) where
  pub top3 : bit_and x 224 / 32 ≡ x / 32
  unfolding eq_below holds_below
  top3 = eq_below_sound 256 (λ x. bit_and x 224 / 32) (λ x. x / 32) x refl h

  pub low5 : bit_and x 31 ≡ x % 32
  unfolding eq_below holds_below
  low5 = eq_below_sound 256 (λ x. bit_and x 31) (λ x. x % 32) x refl h

  pub top5 : bit_and x 248 / 8 ≡ x / 8
  unfolding eq_below holds_below
  top5 = eq_below_sound 256 (λ x. bit_and x 248 / 8) (λ x. x / 8) x refl h

  pub low3 : bit_and x 7 ≡ x % 8
  unfolding eq_below holds_below
  low3 = eq_below_sound 256 (λ x. bit_and x 7) (λ x. x % 8) x refl h

  pub top2 : bit_and x 192 / 64 ≡ x / 64
  unfolding eq_below holds_below
  top2 = eq_below_sound 256 (λ x. bit_and x 192 / 64) (λ x. x / 64) x refl h

  pub middle_of_62 : bit_and x 62 / 2 ≡ x / 2 % 32
  unfolding eq_below holds_below
  middle_of_62 = eq_below_sound 256 (λ x. bit_and x 62 / 2) (λ x. x / 2 % 32) x refl h

  pub low1 : bit_and x 1 ≡ x % 2
  unfolding eq_below holds_below
  low1 = eq_below_sound 256 (λ x. bit_and x 1) (λ x. x % 2) x refl h

  pub top4 : bit_and x 240 / 16 ≡ x / 16
  unfolding eq_below holds_below
  top4 = eq_below_sound 256 (λ x. bit_and x 240 / 16) (λ x. x / 16) x refl h

  pub low4 : bit_and x 15 ≡ x % 16
  unfolding eq_below holds_below
  low4 = eq_below_sound 256 (λ x. bit_and x 15) (λ x. x % 16) x refl h

  pub top1 : bit_and x 128 / 128 ≡ x / 128
  unfolding eq_below holds_below
  top1 = eq_below_sound 256 (λ x. bit_and x 128 / 128) (λ x. x / 128) x refl h

  pub middle_of_124 : bit_and x 124 / 4 ≡ x / 4 % 32
  unfolding eq_below holds_below
  middle_of_124 = eq_below_sound 256 (λ x. bit_and x 124 / 4) (λ x. x / 4 % 32) x refl h

  pub low2 : bit_and x 3 ≡ x % 4
  unfolding eq_below holds_below
  low2 = eq_below_sound 256 (λ x. bit_and x 3) (λ x. x % 4) x refl h

-- The four ways in which a digit straddles two bytes.
module _ (x y : ℕ) (hx : x < 256) (hy : y < 256) where
  pub straddle3_2 : bit_or (bit_and x 7 * 4) (bit_and y 192 / 64) ≡ x % 8 * 4 + y / 64
  unfolding or_below eq_below holds_below
  straddle3_2 =
      rw (low3 x hx, top2 y hy)
        (or_below_sound 8 4 4 (x % 8) (y / 64) refl (omega arith) (omega arith))

  pub straddle1_4 : bit_or (bit_and x 1 * 16) (bit_and y 240 / 16) ≡ x % 2 * 16 + y / 16
  unfolding or_below eq_below holds_below
  straddle1_4 =
      rw (low1 x hx, top4 y hy)
        (or_below_sound 2 16 16 (x % 2) (y / 16) refl (omega arith) (omega arith))

  pub straddle4_1 : bit_or (bit_and x 15 * 2) (bit_and y 128 / 128) ≡ x % 16 * 2 + y / 128
  unfolding or_below eq_below holds_below
  straddle4_1 =
      rw (low4 x hx, top1 y hy)
        (or_below_sound 16 2 2 (x % 16) (y / 128) refl (omega arith) (omega arith))

  pub straddle2_3 : bit_or (bit_and x 3 * 8) (bit_and y 224 / 32) ≡ x % 4 * 8 + y / 32
  unfolding or_below eq_below holds_below
  straddle2_3 =
      rw (low2 x hx, top3 y hy)
        (or_below_sound 4 8 8 (x % 4) (y / 32) refl (omega arith) (omega arith))
