-- ===== src/Rag/Blob.antt =====
-- internal/rag/store.go: `float32sToBytes` and `bytesToFloat32s`. A float32 is known by its bits.
use boox_bridge.Prelude.{ℕ, ◌+◌, ◌*◌, ◌/◌, ◌%◌, ◌<◌, ◌≡◌, refl, List, [], ◌∷◌, arith}

-- math.Float32bits and math.Float32frombits.
pub record Float32 (F : Type 0) : Type 0 where
  pub bits : F → ℕ
  pub from_bits : ℕ → F

-- A float32 has 32 bits, and is the float of its bits.
pub record IsFloat32 {F : Type 0} (f : Float32 F) : Type 0 where
  pub word : (x : F) → f.bits x < 4294967296
  pub back : (x : F) → f.from_bits (f.bits x) ≡ x

-- binary.LittleEndian.PutUint32 at the next four bytes, and Uint32.
abbrev pub put_uint32 : ℕ → List ℕ → List ℕ
put_uint32 n rest = n % 256 ∷ n / 256 % 256 ∷ n / 65536 % 256 ∷ n / 16777216 % 256 ∷ rest

abbrev pub uint32 : ℕ → ℕ → ℕ → ℕ → ℕ
uint32 a b c d = a + b * 256 + c * 65536 + d * 16777216

module _ {F : Type 0} (f : Float32 F) where
  unfoldable pub to_bytes : List F → List ℕ
  to_bytes [] = []
  to_bytes (x ∷ xs) = put_uint32 (f.bits x) (to_bytes xs)

  -- Bytes that do not fill a word are left out, as by len(b) / 4.
  unfoldable pub of_bytes : List ℕ → List F
  of_bytes (a ∷ b ∷ c ∷ d ∷ rest) = f.from_bits (uint32 a b c d) ∷ of_bytes rest
  of_bytes _ = []

  uint32_lem :
      (n : ℕ)
      → n < 4294967296
      → uint32 (n % 256) (n / 256 % 256) (n / 65536 % 256) (n / 16777216 % 256) ≡ n
  uint32_lem n h = omega arith

  -- The floats that are read from the bytes of a vector are the vector, where a float is read back
  -- from its bits and these fit a word.
  pub of_bytes-to_bytes : IsFloat32 f → (xs : List F) → of_bytes (to_bytes xs) ≡ xs
  unfolding to_bytes of_bytes
  of_bytes-to_bytes h [] = refl
  of_bytes-to_bytes h (x ∷ xs) =
      rw (uint32_lem (f.bits x) (h.word x), h.back x, of_bytes-to_bytes h xs) refl
