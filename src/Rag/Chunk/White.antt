-- ===== src/Rag/Chunk/White.antt =====
-- The white space that strings.TrimSpace and strings.TrimLeft strip in ChunkText.
use boox_bridge.Prelude.{
  ℕ, zero, suc, ◌≤◌, ◌≡◌, ◌⊎◌, refl, sym, ap, subst, ◌∙◌, inl, inr, true, List, [], ◌∷◌, ◌++◌,
  Bool-cases, arith,
}
use mathlib.Core.List.{reverse, reverse-append, reverse-reverse, append_assoc}
use boox_bridge.Prelude.Lists.{length, take, drop, length-append, take-append-drop}
use boox_bridge.Rag.Chunk.{
  white_byte, white_two, white_three, leading, trailing, strip, trim_left, trim_right, trim_space,
  is_break, trim_breaks,
}

-- A text of white runes.
pub data IsWhite : List ℕ → Type 0 where
  empty : IsWhite []
  one_byte : (a : ℕ) (s : List ℕ) → white_byte a ≡ true → IsWhite s → IsWhite (a ∷ s)
  two_bytes : (a b : ℕ) (s : List ℕ) → white_two a b ≡ true → IsWhite s → IsWhite (a ∷ b ∷ s)
  three_bytes :
      (a b c : ℕ) (s : List ℕ) → white_three a b c ≡ true → IsWhite s → IsWhite (a ∷ b ∷ c ∷ s)

pub IsWhite-append : (s t : List ℕ) → IsWhite s → IsWhite t → IsWhite (s ++ t)
IsWhite-append s t IsWhite.empty k = k
IsWhite-append s t (IsWhite.one_byte a r e h) k =
    IsWhite.one_byte a (r ++ t) e (IsWhite-append r t h k)
IsWhite-append s t (IsWhite.two_bytes a b r e h) k =
    IsWhite.two_bytes a b (r ++ t) e (IsWhite-append r t h k)
IsWhite-append s t (IsWhite.three_bytes a b c r e h) k =
    IsWhite.three_bytes a b c (r ++ t) e (IsWhite-append r t h k)

leading-IsWhite : (s : List ℕ) → IsWhite (take (leading s) s)
unfolding leading
leading-IsWhite [] = IsWhite.empty
leading-IsWhite (a ∷ []) = elim (Bool-cases (white_byte a)) [
  | inl e ↦ rw e (IsWhite.one_byte a [] e IsWhite.empty)
  | inr e ↦ rw e IsWhite.empty
]
leading-IsWhite (a ∷ b ∷ []) = elim (Bool-cases (white_byte a)) [
  | inl e ↦ rw e (IsWhite.one_byte a [] e IsWhite.empty)
  | inr e ↦ elim (Bool-cases (white_two a b)) [
    | inl f ↦ rw (e, f) (IsWhite.two_bytes a b [] f IsWhite.empty)
    | inr f ↦ rw (e, f) IsWhite.empty
  ]
]
leading-IsWhite (a ∷ b ∷ c ∷ s) = elim (Bool-cases (white_byte a)) [
  | inl e ↦ rw e (IsWhite.one_byte a [] e IsWhite.empty)
  | inr e ↦ elim (Bool-cases (white_two a b)) [
    | inl f ↦ rw (e, f) (IsWhite.two_bytes a b [] f IsWhite.empty)
    | inr f ↦ elim (Bool-cases (white_three a b c)) [
      | inl g ↦ rw (e, f, g) (IsWhite.three_bytes a b c [] g IsWhite.empty)
      | inr g ↦ rw (e, f, g) IsWhite.empty
    ]
  ]
]

trailing-IsWhite : (s : List ℕ) → IsWhite (reverse (take (trailing s) s))
unfolding trailing
trailing-IsWhite [] = IsWhite.empty
trailing-IsWhite (c ∷ []) = elim (Bool-cases (white_byte c)) [
  | inl e ↦ rw e (IsWhite.one_byte c [] e IsWhite.empty)
  | inr e ↦ rw e IsWhite.empty
]
trailing-IsWhite (c ∷ b ∷ []) = elim (Bool-cases (white_byte c)) [
  | inl e ↦ rw e (IsWhite.one_byte c [] e IsWhite.empty)
  | inr e ↦ elim (Bool-cases (white_two b c)) [
    | inl f ↦ rw (e, f) (IsWhite.two_bytes b c [] f IsWhite.empty)
    | inr f ↦ rw (e, f) IsWhite.empty
  ]
]
trailing-IsWhite (c ∷ b ∷ a ∷ s) = elim (Bool-cases (white_byte c)) [
  | inl e ↦ rw e (IsWhite.one_byte c [] e IsWhite.empty)
  | inr e ↦ elim (Bool-cases (white_two b c)) [
    | inl f ↦ rw (e, f) (IsWhite.two_bytes b c [] f IsWhite.empty)
    | inr f ↦ elim (Bool-cases (white_three a b c)) [
      | inl g ↦ rw (e, f, g) (IsWhite.three_bytes a b c [] g IsWhite.empty)
      | inr g ↦ rw (e, f, g) IsWhite.empty
    ]
  ]
]

zero_or_suc : (n : ℕ) → (n ≡ 0) ⊎ ((k : ℕ) × (n ≡ suc k))
zero_or_suc zero = inl refl
zero_or_suc (suc k) = inr (k, refl)

-- What is stripped, if every rune that is has a property that concatenation keeps.
strip_lem :
    (P : List ℕ → Type 0) (rune : List ℕ → ℕ)
    → P []
    → ((u v : List ℕ) → P u → P v → P (u ++ v))
    → ((s : List ℕ) → P (take (rune s) s))
    → (fuel : ℕ) (s : List ℕ) → (w : List ℕ) × P w × (s ≡ w ++ strip rune fuel s)
unfolding strip
strip_lem P rune none_ join each zero s = ([], none_, refl)
strip_lem P rune none_ join each (suc fuel) s =
    let rest = strip_lem P rune none_ join each fuel in
    elim (zero_or_suc (rune s)) [
      | inl e ↦ ([], none_, rw (e, strip) refl)
      | inr (k, e) ↦
          let (w, h, same) = rest (drop (suc k) s) in
          (
            take (suc k) s ++ w,
            join (take (suc k) s) w (subst (λ n. P (take n s)) e (each s)) h,
            rw (e, strip)
                (sym (take-append-drop (suc k) s)
                  ∙ ap (λ t. take (suc k) s ++ t) same
                  ∙ sym (append_assoc (take (suc k) s) w (strip rune fuel (drop (suc k) s)))),
          )
    ]

trim_left_lem : (s : List ℕ) → (w : List ℕ) × IsWhite w × (s ≡ w ++ trim_left s)
unfolding trim_left
trim_left_lem s =
    strip_lem IsWhite leading IsWhite.empty IsWhite-append leading-IsWhite (length s) s

trim_right_lem : (s : List ℕ) → (w : List ℕ) × IsWhite w × (s ≡ trim_right s ++ w)
unfolding trim_right
trim_right_lem s =
    let (w, h, same) =
      strip_lem (λ t. IsWhite (reverse t)) trailing IsWhite.empty
        (λ u v a b.
          subst IsWhite (sym (reverse-append u v)) (IsWhite-append (reverse v) (reverse u) b a))
        trailing-IsWhite (length (reverse s)) (reverse s) in
    (
      reverse w,
      h,
      sym (reverse-reverse s)
          ∙ ap reverse same
          ∙ reverse-append w (strip trailing (length (reverse s)) (reverse s)),
    )

pub trim_space_lem :
    (s : List ℕ)
    → (u : List ℕ) × (v : List ℕ) × IsWhite u × IsWhite v × (s ≡ u ++ (trim_space s ++ v))
unfolding trim_space
trim_space_lem s =
    let (u, h, e) = trim_left_lem s in
    let (v, k, f) = trim_right_lem (trim_left s) in (u, v, h, k, e ∙ ap (λ t. u ++ t) f)

pub length-trim_space : (s : List ℕ) → length (trim_space s) ≤ length s
length-trim_space s =
    let (u, v, h, k, e) = trim_space_lem s in
    omega (arith, ap length e, length-append u (trim_space s ++ v), length-append (trim_space s) v)

pub trim_breaks_lem : (s : List ℕ) → (w : List ℕ) × IsWhite w × (s ≡ w ++ trim_breaks s)
unfolding trim_breaks
trim_breaks_lem [] = ([], IsWhite.empty, refl)
trim_breaks_lem (a ∷ s) =
    let (w, h, e) = trim_breaks_lem s in
    elim (Bool-cases (is_break a)) [
      | inl m ↦ (a ∷ w, IsWhite.one_byte a w (break_white m) h, rw m (ap (λ t. a ∷ t) e))
      | inr m ↦ ([], IsWhite.empty, rw m refl)
    ]
  where
    break_white : is_break a ≡ true → white_byte a ≡ true
    break_white m = unfold is_break white_byte in ground (arith, m)
