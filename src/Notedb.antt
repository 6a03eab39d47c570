-- ===== src/Notedb.antt =====
-- What the statements on the database of internal/notedb/schema.go share: the statuses of a job, the keys
-- of note_content, and the reads and the update of rows.
use boox_bridge.Prelude.{
  ℕ, String, ◌≡◌, ◌↔◌, refl, sym, ap, ◌∙◌, inl, inr, Bool-cases, Bool, true, false, Option, none,
  some, if◌then◌else◌, List, [], ◌∷◌, map, ◌==◌, arith,
}
use boox_bridge.Prelude.Int.{ℤ, ltb_int}
use boox_bridge.Prelude.Lists.{any}

-- The texts of the column `status`.
pub data JobStatus : Type 0 where
  pending in_progress done failed skipped : JobStatus

-- The key of a row of note_content, whose texts no operation of the store reads.
pub record NoteContent : Type 0 where
  pub note_path : String
  pub page : ℕ

unfoldable pub eqb_status : JobStatus → JobStatus → Bool
eqb_status JobStatus.pending JobStatus.pending = true
eqb_status JobStatus.in_progress JobStatus.in_progress = true
eqb_status JobStatus.done JobStatus.done = true
eqb_status JobStatus.failed JobStatus.failed = true
eqb_status JobStatus.skipped JobStatus.skipped = true
eqb_status _ _ = false

pub status_is : (s t : JobStatus) → eqb_status s t ≡ true → s ≡ t
unfolding eqb_status
status_is JobStatus.pending JobStatus.pending e = refl
status_is JobStatus.in_progress JobStatus.in_progress e = refl
status_is JobStatus.done JobStatus.done e = refl
status_is JobStatus.failed JobStatus.failed e = refl
status_is JobStatus.skipped JobStatus.skipped e = refl
status_is _ _ e = ground arith

pub eqb_status_iff : (s t : JobStatus) → (eqb_status s t ≡ true) ↔ (s ≡ t)
eqb_status_iff s t = (status_is s t, λ e. ap (eqb_status s) (sym e) ∙ same s)
  where
    same : (s : JobStatus) → eqb_status s s ≡ true
    same JobStatus.pending = unfold eqb_status in refl
    same JobStatus.in_progress = unfold eqb_status in refl
    same JobStatus.done = unfold eqb_status in refl
    same JobStatus.failed = unfold eqb_status in refl
    same JobStatus.skipped = unfold eqb_status in refl

-- A delay that a job may have is over.
abbrev pub IsOver : ℤ → Option ℤ → Type 0
IsOver now none = Unit
IsOver now (some t) = ltb_int now t ≡ false

unfoldable pub first_row : {A : Type 0} → (A → Bool) → List A → Option A
first_row p [] = none
first_row p (x ∷ xs) = let rest = first_row p xs in if p x then some x else rest

unfoldable pub if_none : {A : Type 0} → Option A → Option A → Option A
if_none none y = y
if_none (some x) y = some x

-- ORDER BY id DESC LIMIT 1: the last of the rows that pass a test, where they stand in the order of
-- their ids.
unfoldable pub latest : {A : Type 0} → (A → Bool) → List A → Option A
unfolding if_none
latest p [] = none
latest p (x ∷ xs) = if_none (latest p xs) (if p x then some x else none)

-- UPDATE … WHERE.
unfoldable pub change_where : {A : Type 0} → (A → Bool) → (A → A) → List A → List A
change_where p change xs = map (λ x. if p x then change x else x) xs

-- An update that keeps a key keeps the keys of the rows.
pub map-change_where {κ} :
    {A : Type 0} {K : Type κ} (key : A → K) (p : A → Bool) (change : A → A) (xs : List A)
    → ((x : A) → key (change x) ≡ key x)
    → map key (change_where p change xs) ≡ map key xs
unfolding change_where
map-change_where key p change [] same = refl
map-change_where key p change (x ∷ xs) same = elim (Bool-cases (p x)) [
  | inl e ↦ rw (e, same x, map-change_where key p change xs same) refl
  | inr e ↦ rw (e, map-change_where key p change xs same) refl
]

pub first_row-none :
    {A : Type 0} (p : A → Bool) (xs : List A) → first_row p xs ≡ none → any p xs ≡ false
unfolding first_row any
first_row-none p [] e = refl
first_row-none p (x ∷ xs) e = elim (Bool-cases (p x)) [
  | inl m ↦ cc (rw m at e)
  | inr m ↦ rw m (first_row-none p xs (rw m at e))
]

pub first_row-some :
    {A : Type 0} (p : A → Bool) (xs : List A) (x : A) → first_row p xs ≡ some x → any p xs ≡ true
unfolding first_row any
first_row-some p [] x e = cc
first_row-some p (y ∷ xs) x e = elim (Bool-cases (p y)) [
  | inl m ↦ rw m refl
  | inr m ↦ rw m (first_row-some p xs x (rw m at e))
]

-- The change of the row with one id, and what is found under an id after it.
module _ {A : Type 0} (id : A → ℕ) (n : ℕ) (change : A → A)
    (ids : (x : A) → id (change x) ≡ id x) where
  first_row-change_other :
      (i : ℕ) (xs : List A)
      → (i == n) ≡ false
      → first_row (λ x. id x == i) (change_where (λ x. id x == n) change xs)
        ≡ first_row (λ x. id x == i) xs
  unfolding first_row change_where
  first_row-change_other i [] ne = refl
  first_row-change_other i (x ∷ xs) ne = elim (Bool-cases (id x == n)) [
    | inl m ↦ rw (m, ids x, first_row-change_other i xs ne) (ground arith)
    | inr m ↦ rw (m, first_row-change_other i xs ne) refl
  ]

  first_row-change_own :
      (xs : List A) (y : A)
      → first_row (λ x. id x == n) xs ≡ some y
      → first_row (λ x. id x == n) (change_where (λ x. id x == n) change xs) ≡ some (change y)
  unfolding first_row change_where
  first_row-change_own [] y e = cc
  first_row-change_own (x ∷ xs) y e =
      let rest = first_row-change_own xs y in
      elim (Bool-cases (id x == n)) [
        | inl m ↦
            rw (m, ap (λ i. i == n) (ids x) ∙ m)
              (ap (λ o. elim o [ none ↦ none | some b ↦ some (change b) ]) (rw m at e))
        | inr m ↦ rw (m, m) (rest (rw m at e))
      ]

  pub first_row-change_where :
      (i : ℕ) (xs : List A) (y : A)
      → first_row (λ x. id x == n) xs ≡ some y
      → first_row (λ x. id x == i) (change_where (λ x. id x == n) change xs)
        ≡ (if i == n then some (change y) else first_row (λ x. id x == i) xs)
  first_row-change_where i xs y e = elim (Bool-cases (i == n)) [
    | inl m ↦
        let same : i ≡ n = ground (arith, m) in
        rw m (
          ap (λ l. first_row (λ x. id x == l) (change_where (λ x. id x == n) change xs)) same
          ∙ first_row-change_own xs y e)
    | inr m ↦ rw m (first_row-change_other i xs m)
  ]
