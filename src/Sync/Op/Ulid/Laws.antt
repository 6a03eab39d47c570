-- ===== src/Sync/Op/Ulid/Laws.antt =====
-- An encoded ULID is the 128-bit number of its bytes in base 32, and is accepted by `IsULID`.
use Prim.Native.Nat.{bit_and, bit_or}
use boox_bridge.Prelude.{
  ℕ, suc, ◌+◌, ◌*◌, ◌/◌, ◌%◌, ◌<◌, ◌≡◌, refl, true, List, [], ◌∷◌, ◌==◌, arith, String,
  if◌then◌else◌, ap, sym, subst, map, ◌++◌, ◌∙◌,
}
use boox_bridge.Sync.Op.Ulid.{
  codes, ulid_alphabet, alphabet_at, contains, all_in_alphabet, is_ulid, Bytes16, encode_ulid,
}
use mathlib.Core.List.{foldl}
use boox_bridge.Prelude.Below.{eq_below, eq_below_sound, holds_below, holds_below-at}
use boox_bridge.Sync.Op.Ulid.Bits.{
  top3, low5, top5, middle_of_62, middle_of_124, straddle3_2, straddle1_4, straddle4_1, straddle2_3,
}

-- The place of a character in a list: the value of a digit.
place_in : ℕ → List ℕ → ℕ
place_in c [] = 0
place_in c (x ∷ xs) = if x == c then 0 else suc (place_in c xs)

pub digit_value : ℕ → ℕ
digit_value c = place_in c ulid_alphabet

-- The number that digits in base 32, or bytes, stand for, the most significant first.
pub base32_from : ℕ → List ℕ → ℕ
base32_from acc [] = acc
base32_from acc (c ∷ cs) = base32_from (acc * 32 + digit_value c) cs

pub base256_from : ℕ → List ℕ → ℕ
base256_from acc [] = acc
base256_from acc (b ∷ bs) = base256_from (acc * 256 + b) bs

abbrev pub bytes : Bytes16 → List ℕ
bytes b =
    b.b0 ∷ b.b1 ∷ b.b2 ∷ b.b3 ∷ b.b4 ∷ b.b5 ∷ b.b6 ∷ b.b7 ∷ b.b8 ∷ b.b9 ∷ b.b10 ∷ b.b11 ∷ b.b12
    ∷ b.b13 ∷ b.b14 ∷ b.b15 ∷ []

abbrev pub AllBelow : ℕ → List ℕ → Type 0
AllBelow n [] = Unit
AllBelow n (x ∷ xs) = (x < n) × AllBelow n xs

digit_value-alphabet_at : (i : ℕ) → i < 32 → digit_value (alphabet_at i) ≡ i
unfolding eq_below digit_value place_in alphabet_at
digit_value-alphabet_at i h = eq_below_sound 32 (λ i. digit_value (alphabet_at i)) (λ i. i) i refl h

contains-alphabet_at : (i : ℕ) → i < 32 → contains ulid_alphabet (alphabet_at i) ≡ true
unfolding holds_below contains alphabet_at
contains-alphabet_at i h = holds_below-at (λ i. contains ulid_alphabet (alphabet_at i)) 32 i h refl

-- The indices of the eight digits that `encodeULID` makes of five bytes.
abbrev five_digits : ℕ → ℕ → ℕ → ℕ → ℕ → List ℕ
five_digits p q r s t =
    bit_and p 248 / 8
    ∷ bit_or (bit_and p 7 * 4) (bit_and q 192 / 64)
    ∷ bit_and q 62 / 2
    ∷ bit_or (bit_and q 1 * 16) (bit_and r 240 / 16)
    ∷ bit_or (bit_and r 15 * 2) (bit_and s 128 / 128)
    ∷ bit_and s 124 / 4
    ∷ bit_or (bit_and s 3 * 8) (bit_and t 224 / 32)
    ∷ bit_and t 31
    ∷ []

abbrev plain_digits : ℕ → ℕ → ℕ → ℕ → ℕ → List ℕ
plain_digits p q r s t =
    p / 8
    ∷ (p % 8 * 4 + q / 64)
    ∷ q / 2 % 32
    ∷ (q % 2 * 16 + r / 16)
    ∷ (r % 16 * 2 + s / 128)
    ∷ s / 4 % 32
    ∷ (s % 4 * 8 + t / 32)
    ∷ t % 32
    ∷ []

base32_from-digits :
    (acc : ℕ) (is : List ℕ) (cs : List ℕ)
    → AllBelow 32 is
    → base32_from acc (map alphabet_at is ++ cs) ≡ base32_from (foldl (λ n i. n * 32 + i) acc is) cs
unfolding base32_from
base32_from-digits acc [] cs h = refl
base32_from-digits acc (i ∷ is) cs h =
    ap (λ n. base32_from (acc * 32 + n) (map alphabet_at is ++ cs)) (digit_value-alphabet_at i h.0)
    ∙ base32_from-digits (acc * 32 + i) is cs h.1

module _ (p q r s t : ℕ) (hs : AllBelow 256 (p ∷ q ∷ r ∷ s ∷ t ∷ [])) where
  five_digits-plain : five_digits p q r s t ≡ plain_digits p q r s t
  five_digits-plain = rw (
    top5 p hs.0,
    straddle3_2 p q hs.0 hs.1.0,
    middle_of_62 q hs.1.0,
    straddle1_4 q r hs.1.0 hs.1.1.0,
    straddle4_1 r s hs.1.1.0 hs.1.1.1.0,
    middle_of_124 s hs.1.1.1.0,
    straddle2_3 s t hs.1.1.1.0 hs.1.1.1.1.0,
    low5 t hs.1.1.1.1.0,
  )

  five_digits-AllBelow : AllBelow 32 (five_digits p q r s t)
  five_digits-AllBelow = subst (AllBelow 32) (sym five_digits-plain) (omega arith)

  -- Five bytes are eight digits, whatever was read before.
  five_bytes :
      (acc : ℕ) (cs : List ℕ)
      → base32_from acc (map alphabet_at (five_digits p q r s t) ++ cs)
        ≡ base32_from (foldl (λ n b. n * 256 + b) acc (p ∷ q ∷ r ∷ s ∷ t ∷ [])) cs
  five_bytes acc cs =
      base32_from-digits acc (five_digits p q r s t) cs five_digits-AllBelow
      ∙ ap (λ is. base32_from (foldl (λ n i. n * 32 + i) acc is) cs) five_digits-plain
      ∙ ap (λ n. base32_from n cs) (omega arith)

first_byte :
    (p : ℕ) (cs : List ℕ)
    → p < 256
    → base32_from 0 (map alphabet_at (bit_and p 224 / 32 ∷ bit_and p 31 ∷ []) ++ cs)
      ≡ base32_from (0 * 256 + p) cs
first_byte p cs h =
    rw (top3 p h, low5 p h)
      (base32_from-digits 0 (p / 32 ∷ p % 32 ∷ []) cs (omega arith)
        ∙ ap (λ n. base32_from n cs) (omega arith))

abbrev high : Bytes16 → List ℕ
high b = five_digits b.b1 b.b2 b.b3 b.b4 b.b5

abbrev middle : Bytes16 → List ℕ
middle b = five_digits b.b6 b.b7 b.b8 b.b9 b.b10

abbrev low : Bytes16 → List ℕ
low b = five_digits b.b11 b.b12 b.b13 b.b14 b.b15

-- The characters of the encoding of sixteen bytes below 256 are, as digits in base 32, the number
-- that the bytes are in base 256.
pub encode_ulid-value :
    (b : Bytes16)
    → AllBelow 256 (bytes b)
    → base32_from 0 (encode_ulid b) ≡ base256_from 0 (bytes b)
unfolding encode_ulid base256_from base32_from
encode_ulid-value b h =
    first_byte b.b0 (map alphabet_at (high b ++ middle b ++ low b)) h.0
    ∙ five_bytes b.b1 b.b2 b.b3 b.b4 b.b5 (omega arith) (0 * 256 + b.b0)
        (map alphabet_at (middle b ++ low b))
    ∙ five_bytes b.b6 b.b7 b.b8 b.b9 b.b10 (omega arith) _ (map alphabet_at (low b))
    ∙ five_bytes b.b11 b.b12 b.b13 b.b14 b.b15 (omega arith) _ []

all_in_alphabet-map : (is : List ℕ) → AllBelow 32 is → all_in_alphabet (map alphabet_at is) ≡ true
unfolding all_in_alphabet
all_in_alphabet-map [] h = refl
all_in_alphabet-map (i ∷ is) h = rw (contains-alphabet_at i h.0) (all_in_alphabet-map is h.1)

AllBelow-append : (n : ℕ) (xs ys : List ℕ) → AllBelow n xs → AllBelow n ys → AllBelow n (xs ++ ys)
AllBelow-append n [] ys h k = k
AllBelow-append n (x ∷ xs) ys h k = (h.0, AllBelow-append n xs ys h.1 k)

-- A text whose code points are the encoding of sixteen bytes below 256 passes IsULID.
pub encode_ulid-is_ulid :
    (b : Bytes16) (s : String) → AllBelow 256 (bytes b) → codes s ≡ encode_ulid b → is_ulid s ≡ true
unfolding is_ulid encode_ulid
encode_ulid-is_ulid b s h e =
    rw e (all_in_alphabet-map (bit_and b.b0 224 / 32 ∷ bit_and b.b0 31 ∷ rest) bounds)
  where
    rest : List ℕ
    rest = high b ++ (middle b ++ low b)

    rest_below : AllBelow 32 rest
    rest_below =
        AllBelow-append 32 (high b) (middle b ++ low b)
          (five_digits-AllBelow _ _ _ _ _ (omega arith))
          (AllBelow-append 32 (middle b) (low b) (five_digits-AllBelow _ _ _ _ _ (omega arith))
            (five_digits-AllBelow _ _ _ _ _ (omega arith)))

    bounds : AllBelow 32 (bit_and b.b0 224 / 32 ∷ bit_and b.b0 31 ∷ rest)
    bounds = (omega (arith, top3 b.b0 h.0), (omega (arith, low5 b.b0 h.0), rest_below))
