-- ===== src/Rag/Chunk.antt =====
-- internal/rag/chunk.go: `ChunkText`, on the bytes of a text. strings.TrimSpace strips the white runes
-- of Unicode, here by their UTF-8 bytes; the boundaries that a chunk prefers are four ASCII bytes.
use boox_bridge.Prelude.{
  ℕ, zero, suc, ◌+◌, Bool, true, false, ◌&&◌, ◌||◌, Option, none, some, if◌then◌else◌, List, [],
  ◌∷◌, ◌==◌, ltb, leb,
}
use mathlib.Core.List.{reverse}
use boox_bridge.Prelude.Lists.{length, take, drop}
pub mod White
pub mod Spread

abbrev pub chunk_max_chars : ℕ
chunk_max_chars = 1500

unfoldable pub white_byte : ℕ → Bool
white_byte a = (leb 9 a && leb a 13) || a == 32

unfoldable pub white_two : ℕ → ℕ → Bool
white_two a b = a == 194 && (b == 133 || b == 160)

unfoldable pub white_three : ℕ → ℕ → ℕ → Bool
white_three a b c =
    (a == 225 && (b == 154 && c == 128))
    || ((a == 226
          && ((b == 128 && ((leb 128 c && leb c 138) || (c == 168 || (c == 169 || c == 175))))
              || (b == 129 && c == 159)))
        || (a == 227 && (b == 128 && c == 128)))

-- How many bytes the first rune has if it is white, and 0 if it is not.
unfoldable pub leading : List ℕ → ℕ
unfolding white_byte white_two white_three
leading [] = 0
leading (a ∷ []) = if white_byte a then 1 else 0
leading (a ∷ b ∷ []) = if white_byte a then 1 else if white_two a b then 2 else 0
leading (a ∷ b ∷ c ∷ rest) =
    if white_byte a then 1 else if white_two a b then 2 else if white_three a b c then 3 else 0

-- The same of the last rune, on the bytes from the end.
unfoldable pub trailing : List ℕ → ℕ
unfolding white_byte white_two white_three
trailing [] = 0
trailing (c ∷ []) = if white_byte c then 1 else 0
trailing (c ∷ b ∷ []) = if white_byte c then 1 else if white_two b c then 2 else 0
trailing (c ∷ b ∷ a ∷ rest) =
    if white_byte c then 1 else if white_two b c then 2 else if white_three a b c then 3 else 0

-- Strips runes while there are any; the length of the text is fuel enough.
unfoldable pub strip : (List ℕ → ℕ) → ℕ → List ℕ → List ℕ
strip rune zero s = s
strip rune (suc fuel) s = elim (rune s) [ zero ↦ s | suc k ↦ strip rune fuel (drop (suc k) s) ]

unfoldable pub trim_left : List ℕ → List ℕ
unfolding strip leading
trim_left s = strip leading (length s) s

unfoldable pub trim_right : List ℕ → List ℕ
unfolding strip trailing
trim_right s = reverse (strip trailing (length (reverse s)) (reverse s))

unfoldable pub trim_space : List ℕ → List ℕ
unfolding trim_left trim_right
trim_space s = trim_right (trim_left s)

-- The bytes of " \t\n\r".
unfoldable pub is_break : ℕ → Bool
is_break a = a == 32 || (a == 9 || (a == 10 || a == 13))

-- strings.TrimLeft by " \t\n\r".
unfoldable pub trim_breaks : List ℕ → List ℕ
unfolding is_break
trim_breaks [] = []
trim_breaks (a ∷ s) = let rest = trim_breaks s in if is_break a then rest else a ∷ s

-- strings.LastIndexAny by " \t\n\r", where `i` is the index of the first byte.
unfoldable pub last_break : ℕ → List ℕ → Option ℕ → Option ℕ
unfolding is_break
last_break i [] best = best
last_break i (a ∷ s) best = last_break (i + 1) s (if is_break a then some i else best)

-- if cut <= 0 { cut = chunkMaxChars }
unfoldable pub cut_or_max : Option ℕ → ℕ
cut_or_max none = chunk_max_chars
cut_or_max (some zero) = chunk_max_chars
cut_or_max (some (suc k)) = suc k

unfoldable pub cut_of : List ℕ → ℕ
unfolding last_break cut_or_max
cut_of rest = cut_or_max (last_break 0 (take (chunk_max_chars + 1) rest) none)

unfoldable pub add_chunk : List ℕ → List (List ℕ) → List (List ℕ)
add_chunk [] chunks = chunks
add_chunk (a ∷ c) chunks = (a ∷ c) ∷ chunks

-- The loop and what follows it.
unfoldable pub pieces : ℕ → List ℕ → List (List ℕ)
unfolding add_chunk trim_space trim_breaks cut_of
pieces zero rest = []
pieces (suc fuel) rest = elim (ltb chunk_max_chars (length rest)) [
  | true ↦
      add_chunk (trim_space (take (cut_of rest) rest))
        (pieces fuel (trim_breaks (drop (cut_of rest) rest)))
  | false ↦ add_chunk (trim_space rest) []
]

unfoldable pub chunks_of : List ℕ → List (List ℕ)
unfolding pieces
chunks_of [] = []
chunks_of (a ∷ text) =
    if leb (length (a ∷ text)) chunk_max_chars
    then (a ∷ text) ∷ []
    else pieces (suc (length (a ∷ text))) (a ∷ text)

unfoldable pub chunk_text : List ℕ → List (List ℕ)
unfolding chunks_of trim_space
chunk_text text = chunks_of (trim_space text)
