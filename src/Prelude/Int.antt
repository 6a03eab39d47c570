-- ===== src/Prelude/Int.antt =====
-- The integers that stand for Go's int64 values, and their comparisons.
use Prim.Native.Nat.{ℕ}
use mathlib.Core.Path.{◌≡◌}
use mathlib.Core.Logic.{◌↔◌}
use mathlib.Core.Bool.{Bool, true, false}
use native.Mathlib.Omega.{arith}
use boox_bridge.Prelude.Tests.{ltb, ◌==◌}

-- `negsuc n` is -(n + 1).
pub data ℤ : Type 0 where
  pos : ℕ → ℤ
  negsuc : ℕ → ℤ

-- a < b
abbrev pub ltb_int : ℤ → ℤ → Bool
ltb_int (pos a) (pos b) = ltb a b
ltb_int (pos a) (negsuc b) = false
ltb_int (negsuc a) (pos b) = true
ltb_int (negsuc a) (negsuc b) = ltb b a

-- a == b
abbrev pub eqb_int : ℤ → ℤ → Bool
eqb_int (pos a) (pos b) = a == b
eqb_int (pos a) (negsuc b) = false
eqb_int (negsuc a) (pos b) = false
eqb_int (negsuc a) (negsuc b) = a == b

pub eqb_int_iff : (a b : ℤ) → (eqb_int a b ≡ true) ↔ (a ≡ b)
eqb_int_iff (pos a) (pos b) = ground arith
eqb_int_iff (pos a) (negsuc b) = ground arith
eqb_int_iff (negsuc a) (pos b) = ground arith
eqb_int_iff (negsuc a) (negsuc b) = ground arith

pub not-lt_trans : (a b c : ℤ) → ltb_int a b ≡ false → ltb_int b c ≡ false → ltb_int a c ≡ false
not-lt_trans (pos a) (pos b) (pos c) h k = ground arith
not-lt_trans (pos a) (negsuc b) (negsuc c) h k = ground arith
not-lt_trans (negsuc a) (negsuc b) (negsuc c) h k = ground arith
not-lt_trans _ _ _ h k = ground arith

pub ltb_int_irrefl : (a : ℤ) → ltb_int a a ≡ false
ltb_int_irrefl (pos a) = ground arith
ltb_int_irrefl (negsuc a) = ground arith

pub ltb_int_asym : (a b : ℤ) → ltb_int a b ≡ true → ltb_int b a ≡ false
ltb_int_asym (pos a) (pos b) h = ground arith
ltb_int_asym (pos a) (negsuc b) h = ground arith
ltb_int_asym (negsuc a) (pos b) h = ground arith
ltb_int_asym (negsuc a) (negsuc b) h = ground arith

pub ltb_int_total : (a b : ℤ) → ltb_int a b ≡ false → ltb_int b a ≡ false → a ≡ b
ltb_int_total (pos a) (pos b) h k = ground arith
ltb_int_total (pos a) (negsuc b) h k = ground arith
ltb_int_total (negsuc a) (pos b) h k = ground arith
ltb_int_total (negsuc a) (negsuc b) h k = ground arith
