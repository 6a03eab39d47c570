-- ===== src/FileIds/Stable.antt =====
-- The numbers are stable: what IDFor gives leads back to the path, and no number that was given before
-- leads elsewhere.
use boox_bridge.Prelude.{
  ℕ, suc, String, ◌≡◌, refl, ap, ◌∙◌, inl, inr, Bool, true, false, some, if◌then◌else◌, List, [],
  ◌∷◌, ◌++◌, ◌==◌, ltb, Bool-cases, Option-cases, arith,
}
use boox_bridge.Prelude.Text.{eq_iff}
use boox_bridge.Prelude.Lists.{any, any-append}
use boox_bridge.Prelude.Result.{Result, ok}
use boox_bridge.Notedb.{first_row, first_row-none, first_row-some}
use boox_bridge.FileIds.{
  FileRow, FileTable, file_is, at_file, new_file, insert_path, id_of, path_of, path_for, id_for,
}

-- No row has a number above the sequence.
abbrev over : ℕ → FileRow → Bool
over n r = ltb n r.id

-- The rows have different numbers.
abbrev Apart : List FileRow → Type 0
Apart [] = Unit
Apart (r ∷ rows) = (any (file_is r.id) rows ≡ false) × Apart rows

pub record IsRegistry (t : FileTable) : Type 0 where
  pub within : any (over t.sequence) t.rows ≡ false
  pub apart : Apart t.rows

first_row-append :
    {A : Type 0} (p : A → Bool) (xs ys : List A)
    → first_row p (xs ++ ys) ≡ (if any p xs then first_row p xs else first_row p ys)
unfolding first_row any
first_row-append p [] ys = refl
first_row-append p (x ∷ xs) ys = elim (Bool-cases (p x)) [
  | inl e ↦ rw e refl
  | inr e ↦ rw e (first_row-append p xs ys)
]

found_id :
    (p : FileRow → Bool) (rows : List FileRow) (r : FileRow)
    → first_row p rows ≡ some r
    → (any (file_is r.id) rows ≡ true) × (p r ≡ true)
unfolding first_row any file_is
found_id p [] r e = cc
found_id p (x ∷ rows) r e = elim (Bool-cases (p x)) [
  | inl m ↦
      let same : x ≡ r = cc (rw m at e) in
      (ground (arith, ap (λ (b : FileRow). b.id) same), cc (m, ap p same))
  | inr m ↦ let rest = found_id p rows r (rw m at e) in (ground (arith, rest.0), rest.1)
]

-- A row that is found by any test is found by its number.
own_row :
    (p : FileRow → Bool) (rows : List FileRow) (r : FileRow)
    → Apart rows
    → first_row p rows ≡ some r
    → first_row (file_is r.id) rows ≡ some r
unfolding first_row file_is
own_row p [] r a e = cc
own_row p (x ∷ rows) r a e = elim (Bool-cases (p x)) [
  | inl m ↦
      let same : x ≡ r = cc (rw m at e) in
      let own : (x.id == r.id) ≡ true = ground (arith, ap (λ (b : FileRow). b.id) same) in
      rw own (ap some same)
  | inr m ↦
      let e' : first_row p rows ≡ some r = rw m at e in
      let other : (x.id == r.id) ≡ false = differs e' in rw other (own_row p rows r a.1 e')
]
  where
    differs : first_row p rows ≡ some r → (x.id == r.id) ≡ false
    differs e' = elim (Bool-cases (x.id == r.id)) [
      | inr n ↦ n
      | inl n ↦
          let same : x.id ≡ r.id = ground (arith, n) in
          cc (a.0, (found_id p rows r e').0, ap (λ i. any (file_is i) rows) same)
    ]

free_id :
    (n : ℕ) (rows : List FileRow) → any (over n) rows ≡ false → any (file_is (suc n)) rows ≡ false
unfolding any file_is
free_id n [] h = refl
free_id n (r ∷ rows) h = ground (arith, h, free_id n rows)

over-suc :
    (n : ℕ) (rows : List FileRow) → any (over n) rows ≡ false → any (over (suc n)) rows ≡ false
unfolding any
over-suc n [] h = refl
over-suc n (r ∷ rows) h = ground (arith, h, over-suc n rows)

Apart-append :
    (rows : List FileRow) (new : FileRow)
    → Apart rows
    → any (file_is new.id) rows ≡ false
    → Apart (rows ++ new ∷ [])
unfolding any file_is
Apart-append [] new a free = (refl, tt)
Apart-append (r ∷ rows) new a free = (
  any-append (file_is r.id) rows (new ∷ []) ∙ ground (arith, a.0, free),
  Apart-append rows new a.1 (ground (arith, free)),
)

-- What assigning a number does.
abbrev pub IsAssigned : String → FileTable → Result ℕ × FileTable → Type 0
IsAssigned path t r =
    IsRegistry r.1
    × ((i : ℕ) × (r.0 ≡ ok i) × (path_for i r.1 ≡ some path))
    × ((j : ℕ) (q : String) → path_for j t ≡ some q → path_for j r.1 ≡ some q)

known_path :
    (path : String) (t : FileTable) (r : FileRow)
    → IsRegistry t
    → first_row (at_file path) t.rows ≡ some r
    → IsAssigned path t
        (id_of (first_row (at_file path) t.rows), record t { sequence = suc t.sequence })
unfolding id_of path_for path_of at_file
known_path path t r h e = (
  record { within = over-suc t.sequence t.rows h.within; apart = h.apart },
  (
    r.id,
    rw e refl,
    rw (own_row (at_file path) t.rows r h.apart e)
        (ap some (at (found_id (at_file path) t.rows r e).1)),
  ),
  λ j q k. k,
)
  where
    at : at_file path r ≡ true → r.path ≡ path
    at m = (eq_iff r.path path).0 m

known_id :
    (path : String) (t : FileTable) (j : ℕ) (q : String)
    → path_for j t ≡ some q
    → path_for j
        (record { rows = t.rows ++ new_file (suc t.sequence) path ∷ []; sequence = suc t.sequence })
      ≡ some q
unfolding path_for path_of
known_id path t j q k = elim (Option-cases (first_row (file_is j) t.rows)) [
  | inl e ↦ cc (rw e at k)
  | inr (r, e) ↦
      rw
        (
          first_row-append (file_is j) t.rows (new_file (suc t.sequence) path ∷ []),
          first_row-some (file_is j) t.rows r e,
        )
        k
]

new_path :
    (path : String) (t : FileTable)
    → IsRegistry t
    → any (at_file path) t.rows ≡ false
    → IsAssigned path t (
      id_of (first_row (at_file path) (t.rows ++ new_file (suc t.sequence) path ∷ [])),
      record { rows = t.rows ++ new_file (suc t.sequence) path ∷ []; sequence = suc t.sequence },
    )
unfolding id_of path_for path_of new_file
new_path path t h free = (
  record {
    within =
        any-append (over (suc t.sequence)) t.rows _
        ∙ unfold any in ground (arith, over-suc t.sequence t.rows h.within);
    apart =
        Apart-append t.rows (new_file (suc t.sequence) path) h.apart
          (free_id t.sequence t.rows h.within);
  },
  (
    suc t.sequence,
    rw (first_row-append (at_file path) t.rows (new_file (suc t.sequence) path ∷ []), free)
        (unfold first_row at_file in ground (arith, eq_iff path path)),
    rw
        (
          first_row-append (file_is (suc t.sequence)) t.rows (new_file (suc t.sequence) path ∷ []),
          free_id t.sequence t.rows h.within,
        )
        (unfold first_row file_is in ground arith),
  ),
  known_id path t,
)

-- Where no number is above the sequence and numbers are given once, IDFor keeps this and answers
-- with a number under which the cleaned path is then found, and every number that led to a path
-- before leads to it still.
pub id_for_lem :
    (clean : String → String) (path : String) (t : FileTable)
    → IsRegistry t
    → IsAssigned (clean path) t (id_for clean path t)
unfolding id_for insert_path
id_for_lem clean path t h = elim (Bool-cases (any (at_file (clean path)) t.rows)) [
  | inr m ↦ rw m (new_path (clean path) t h m)
  | inl m ↦ elim (Option-cases (first_row (at_file (clean path)) t.rows)) [
    | inl e ↦ cc (m, first_row-none (at_file (clean path)) t.rows e)
    | inr (r, e) ↦ rw m (known_path (clean path) t r h e)
  ]
]
