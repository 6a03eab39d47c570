-- ===== src/Rag/Chunk/Spread.antt =====
-- What ChunkText keeps of a text: the chunks in their order, with nothing but white space around them.
use boox_bridge.Prelude.{
  ℕ, zero, suc, ◌+◌, ◌≤◌, ◌<◌, ◌≡◌, sym, ap, subst, ◌∙◌, inl, inr, Option, none, some, List, [],
  ◌∷◌, ◌++◌, ltb, leb, Bool-cases, arith,
}
use mathlib.Core.List.{append_assoc, append-nil}
use boox_bridge.Prelude.Lists.{length, take, drop, length-append, take-append-drop}
use boox_bridge.Rag.Chunk.{
  trim_space, is_break, trim_breaks, last_break, cut_or_max, cut_of, add_chunk, pieces, chunks_of,
  chunk_text,
}
use boox_bridge.Rag.Chunk.White.{
  IsWhite, IsWhite-append, trim_space_lem, length-trim_space, trim_breaks_lem,
}

-- Chunks of a text, each of one to 1500 bytes, in their order, with white runes around them.
pub data Spread : List (List ℕ) → List ℕ → Type 0 where
  blank : (s : List ℕ) → IsWhite s → Spread [] s
  chunk :
      (w c rest s : List ℕ) (chunks : List (List ℕ))
      → IsWhite w
      → 0 < length c
      → length c ≤ 1500
      → s ≡ w ++ (c ++ rest)
      → Spread chunks rest
      → Spread (c ∷ chunks) s

-- White space before and after a text that is spread over chunks.
Spread-before :
    (chunks : List (List ℕ)) (w s : List ℕ) → IsWhite w → Spread chunks s → Spread chunks (w ++ s)
Spread-before _ w _ h (Spread.blank s k) = Spread.blank (w ++ s) (IsWhite-append w s h k)
Spread-before _ w _ h (Spread.chunk u c rest s cs k lo hi e r) =
    Spread.chunk (w ++ u) c rest (w ++ s) cs (IsWhite-append w u h k) lo hi
      (ap (λ t. w ++ t) e ∙ sym (append_assoc w u (c ++ rest))) r

Spread-after :
    (chunks : List (List ℕ)) (s w : List ℕ) → IsWhite w → Spread chunks s → Spread chunks (s ++ w)
Spread-after _ _ w h (Spread.blank s k) = Spread.blank (s ++ w) (IsWhite-append s w k h)
Spread-after _ _ w h (Spread.chunk u c rest s cs k lo hi e r) =
    Spread.chunk u c (rest ++ w) (s ++ w) cs k lo hi
      (ap (λ t. t ++ w) e ∙ append_assoc u (c ++ rest) w ∙ ap (λ t. u ++ t) (append_assoc c rest w))
      (Spread-after cs rest w h r)

add_chunk-Spread :
    (t rest : List ℕ) (chunks : List (List ℕ))
    → length t ≤ 1500
    → Spread chunks rest
    → Spread (add_chunk (trim_space t) chunks) (t ++ rest)
add_chunk-Spread t rest chunks hi r =
    let (u, v, h, k, e) = trim_space_lem t in
    subst (λ l. Spread (add_chunk (trim_space t) chunks) (l ++ rest)) (sym e)
      (go (trim_space t) (omega (arith, hi, length-trim_space t)) u v h k)
  where
    go :
        (c : List ℕ)
        → length c ≤ 1500
        → (u v : List ℕ) → IsWhite u
        → IsWhite v
        → Spread (add_chunk c chunks) ((u ++ (c ++ v)) ++ rest)
    go [] hi u v h k =
        unfold add_chunk in Spread-before chunks (u ++ v) rest (IsWhite-append u v h k) r
    go (a ∷ c) hi u v h k =
        unfold add_chunk in
        Spread.chunk u (a ∷ c) (v ++ rest) ((u ++ ((a ∷ c) ++ v)) ++ rest) chunks h (omega arith) hi
          (append_assoc u ((a ∷ c) ++ v) rest ∙ ap (λ l. u ++ l) (append_assoc (a ∷ c) v rest))
          (Spread-before chunks v rest k r)

cut_or_max-bound : (i : ℕ) → i ≤ 1500 → cut_or_max (some i) ≤ 1500
unfolding cut_or_max
cut_or_max-bound zero h = omega arith
cut_or_max-bound (suc k) h = h

-- The last break of a text lies in it.
last_break-bound :
    (i : ℕ) (s : List ℕ) (best : Option ℕ)
    → cut_or_max best ≤ 1500
    → i + length s ≤ 1501
    → cut_or_max (last_break i s best) ≤ 1500
unfolding last_break
last_break-bound i [] best h k = h
last_break-bound i (a ∷ s) best h k = elim (Bool-cases (is_break a)) [
  | inl e ↦ rw e (
      last_break-bound (i + 1) s (some i) (cut_or_max-bound i (omega (arith, k)))
        (omega (arith, k)))
  | inr e ↦ rw e (last_break-bound (i + 1) s best h (omega (arith, k)))
]

length-take : (n : ℕ) (s : List ℕ) → length (take n s) ≤ n
length-take zero s = omega arith
length-take (suc n) [] = omega arith
length-take (suc n) (a ∷ s) = omega (arith, length-take n s)

cut_of-bound : (s : List ℕ) → cut_of s ≤ 1500
unfolding cut_of
cut_of-bound s =
    last_break-bound 0 (take 1501 s) none (unfold cut_or_max in omega arith)
      (omega (arith, length-take 1501 s))

cut_or_max-positive : (o : Option ℕ) → 0 < cut_or_max o
unfolding cut_or_max
cut_or_max-positive none = omega arith
cut_or_max-positive (some zero) = omega arith
cut_or_max-positive (some (suc k)) = omega arith

cut_of-positive : (s : List ℕ) → 0 < cut_of s
unfolding cut_of
cut_of-positive s = cut_or_max-positive (last_break 0 (take 1501 s) none)

length-drop_le : (n : ℕ) (s : List ℕ) → length (drop n s) ≤ length s
length-drop_le zero s = omega arith
length-drop_le (suc n) [] = omega arith
length-drop_le (suc n) (a ∷ s) = omega (arith, length-drop_le n s)

-- A step of the loop leaves a shorter text.
length-drop : (n : ℕ) (s : List ℕ) → 0 < n → 0 < length s → length (drop n s) < length s
length-drop zero s h k = omega (arith, h)
length-drop (suc n) [] h k = omega (arith, k)
length-drop (suc n) (a ∷ s) h k = omega (arith, length-drop_le n s)

length-trim_breaks : (s : List ℕ) → length (trim_breaks s) ≤ length s
length-trim_breaks s =
    let (w, h, e) = trim_breaks_lem s in omega (arith, ap length e, length-append w (trim_breaks s))

-- What is left after a step, under the white space that the step has stripped from it.
rest-Spread :
    (t : List ℕ) (chunks : List (List ℕ)) → Spread chunks (trim_breaks t) → Spread chunks t
rest-Spread t chunks r =
    let (w, h, e) = trim_breaks_lem t in
    subst (Spread chunks) (sym e) (Spread-before chunks w (trim_breaks t) h r)

pieces-Spread : (fuel : ℕ) (s : List ℕ) → length s < fuel → Spread (pieces fuel s) s
unfolding pieces
pieces-Spread zero s h = ground (arith, h)
pieces-Spread (suc fuel) s h =
    let rest = pieces-Spread fuel in
    elim (Bool-cases (ltb 1500 (length s))) [
      | inl e ↦
          let cut = cut_of s in
          let shorter : length (drop cut s) < length s =
            length-drop cut s (cut_of-positive s) (ground (arith, e)) in
          rw (e, pieces)
            (subst
              (Spread
                (add_chunk (trim_space (take cut s)) (pieces fuel (trim_breaks (drop cut s)))))
              (take-append-drop cut s)
              (add_chunk-Spread (take cut s) (drop cut s) (pieces fuel (trim_breaks (drop cut s)))
                (omega (arith, length-take cut s, cut_of-bound s))
                (rest-Spread (drop cut s) (pieces fuel (trim_breaks (drop cut s))) (
                  rest (trim_breaks (drop cut s))
                    (omega (arith, h, shorter, length-trim_breaks (drop cut s)))))))
      | inr e ↦
          rw (e, pieces)
            (subst (Spread (add_chunk (trim_space s) [])) (append-nil s)
              (add_chunk-Spread s [] [] (ground (arith, e)) (Spread.blank [] IsWhite.empty)))
    ]

chunks_of-Spread : (s : List ℕ) → Spread (chunks_of s) s
unfolding chunks_of
chunks_of-Spread [] = Spread.blank [] IsWhite.empty
chunks_of-Spread (a ∷ s) = elim (Bool-cases (leb (length (a ∷ s)) 1500)) [
  | inl e ↦ rw e (
      Spread.chunk [] (a ∷ s) [] (a ∷ s) [] IsWhite.empty (omega arith) (ground (arith, e))
        (sym (append-nil (a ∷ s))) (Spread.blank [] IsWhite.empty))
  | inr e ↦ rw e (pieces-Spread (suc (length (a ∷ s))) (a ∷ s) (omega arith))
]

-- For every text, ChunkText returns chunks of one to 1500 bytes that stand in the text in this
-- order with nothing but white space before, between and after them, so that a text of which it
-- makes no chunk is white.
pub chunk_text-Spread : (s : List ℕ) → Spread (chunk_text s) s
unfolding chunk_text
chunk_text-Spread s =
    let (u, v, h, k, e) = trim_space_lem s in
    subst (Spread (chunks_of (trim_space s))) (sym e) (
      Spread-before (chunks_of (trim_space s)) u (trim_space s ++ v) h (
        Spread-after (chunks_of (trim_space s)) (trim_space s) v k
          (chunks_of-Spread (trim_space s))))
