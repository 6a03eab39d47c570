-- ===== src/Sync/Op/Ulid.antt =====
-- internal/syncstore/op.go: `ulidAlphabet`, `encodeULID` and `IsULID`. Texts are walked as lists of
-- code points; `[16]byte` is a record, whose fields stay below 256 where a lemma says so.
use Prim.Native.Nat.{bit_and, bit_or}
use Prim.Native.Char.{code}
use Prim.Native.String.{String}
use boox_bridge.Prelude.{
  ℕ, zero, suc, ◌*◌, ◌/◌, ◌%◌, ◌^◌, Bool, true, false, ◌&&◌, ◌||◌, List, [], ◌∷◌, ◌==◌,
}
use boox_bridge.Prelude.Lists.{length}
pub mod Bits
pub mod Laws
pub mod Mint

-- s[i]. A text that is not ASCII has a byte outside the alphabet, and also a code point outside it;
-- for texts in ASCII bytes and code points are the same.
abbrev pub codes : String → List ℕ
codes String.[] = []
codes (String.◌∷◌ c s) = code c ∷ codes s

abbrev pub ulid_alphabet : List ℕ
ulid_alphabet = codes "0123456789ABCDEFGHJKMNPQRSTVWXYZ"

abbrev pub get_or : List ℕ → ℕ → ℕ → ℕ
get_or [] i d = d
get_or (x ∷ xs) zero d = x
get_or (x ∷ xs) (suc i) d = get_or xs i d

-- ulidAlphabet[i]: the callers' indices are below 32, so the default is never read.
unfoldable pub alphabet_at : ℕ → ℕ
alphabet_at i = get_or ulid_alphabet i 0

-- strings.IndexByte(ulidAlphabet, c) ≥ 0
unfoldable pub contains : List ℕ → ℕ → Bool
contains [] c = false
contains (x ∷ xs) c = x == c || contains xs c

unfoldable pub all_in_alphabet : List ℕ → Bool
all_in_alphabet [] = true
all_in_alphabet (c ∷ cs) = contains ulid_alphabet c && all_in_alphabet cs

unfoldable pub is_ulid_codes : List ℕ → Bool
is_ulid_codes cs = length cs == 26 && all_in_alphabet cs

unfoldable pub is_ulid : String → Bool
unfolding is_ulid_codes
is_ulid s = is_ulid_codes (codes s)

pub record Bytes16 : Type 0 where
  pub b0 : ℕ
  pub b1 : ℕ
  pub b2 : ℕ
  pub b3 : ℕ
  pub b4 : ℕ
  pub b5 : ℕ
  pub b6 : ℕ
  pub b7 : ℕ
  pub b8 : ℕ
  pub b9 : ℕ
  pub b10 : ℕ
  pub b11 : ℕ
  pub b12 : ℕ
  pub b13 : ℕ
  pub b14 : ℕ
  pub b15 : ℕ

-- The shifts of bytes: x >> k is a quotient and x << k a product. None of them passes 8 bits here.
unfoldable pub encode_ulid : Bytes16 → List ℕ
encode_ulid b =
    alphabet_at (bit_and b.b0 224 / 32)
    ∷ alphabet_at (bit_and b.b0 31)
    ∷ alphabet_at (bit_and b.b1 248 / 8)
    ∷ alphabet_at (bit_or (bit_and b.b1 7 * 4) (bit_and b.b2 192 / 64))
    ∷ alphabet_at (bit_and b.b2 62 / 2)
    ∷ alphabet_at (bit_or (bit_and b.b2 1 * 16) (bit_and b.b3 240 / 16))
    ∷ alphabet_at (bit_or (bit_and b.b3 15 * 2) (bit_and b.b4 128 / 128))
    ∷ alphabet_at (bit_and b.b4 124 / 4)
    ∷ alphabet_at (bit_or (bit_and b.b4 3 * 8) (bit_and b.b5 224 / 32))
    ∷ alphabet_at (bit_and b.b5 31)
    ∷ alphabet_at (bit_and b.b6 248 / 8)
    ∷ alphabet_at (bit_or (bit_and b.b6 7 * 4) (bit_and b.b7 192 / 64))
    ∷ alphabet_at (bit_and b.b7 62 / 2)
    ∷ alphabet_at (bit_or (bit_and b.b7 1 * 16) (bit_and b.b8 240 / 16))
    ∷ alphabet_at (bit_or (bit_and b.b8 15 * 2) (bit_and b.b9 128 / 128))
    ∷ alphabet_at (bit_and b.b9 124 / 4)
    ∷ alphabet_at (bit_or (bit_and b.b9 3 * 8) (bit_and b.b10 224 / 32))
    ∷ alphabet_at (bit_and b.b10 31)
    ∷ alphabet_at (bit_and b.b11 248 / 8)
    ∷ alphabet_at (bit_or (bit_and b.b11 7 * 4) (bit_and b.b12 192 / 64))
    ∷ alphabet_at (bit_and b.b12 62 / 2)
    ∷ alphabet_at (bit_or (bit_and b.b12 1 * 16) (bit_and b.b13 240 / 16))
    ∷ alphabet_at (bit_or (bit_and b.b13 15 * 2) (bit_and b.b14 128 / 128))
    ∷ alphabet_at (bit_and b.b14 124 / 4)
    ∷ alphabet_at (bit_or (bit_and b.b14 3 * 8) (bit_and b.b15 224 / 32))
    ∷ alphabet_at (bit_and b.b15 31)
    ∷ []

-- newULID before it encodes: `drawn` holds the random bytes in b[6:], and `byte` keeps 8 bits.
unfoldable pub mint : ℕ → Bytes16 → Bytes16
mint ms drawn = record drawn {
  b0 = ms / 2 ^ 40 % 256;
  b1 = ms / 2 ^ 32 % 256;
  b2 = ms / 2 ^ 24 % 256;
  b3 = ms / 2 ^ 16 % 256;
  b4 = ms / 2 ^ 8 % 256;
  b5 = ms % 256;
}
