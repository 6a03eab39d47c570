-- ===== src/Task/Purge.antt =====
-- What removes a row of the table, and that no identifier occurs twice.
use boox_bridge.Prelude.{
  ℕ, ◌+◌, ◌&&◌, String, ◌≡◌, refl, sym, ap, ◌∙◌, inl, inr, Bool, false, not, Option, none, some,
  if◌then◌else◌, List, [], ◌∷◌, ◌++◌, arith, Bool-cases, subst,
}
use text.Mathlib.Text.{◌==◌}
use text.Mathlib.TextEquality.{eq_iff}
use boox_bridge.Prelude.Int.{ℤ, ltb_int}
use boox_bridge.Prelude.Lists.{length, any-keep-false, keep, any, any-append}
use boox_bridge.Task.{Task}
use boox_bridge.Task.Store.{
  TaskRow, Reply, is_live, get, has_id, fill_defaults, new_row, create, set_row, update, set_rows,
  tombstone, delete, is_completed, delete_completed, is_purged, hard_delete_older_than,
}
use boox_bridge.Task.Rows.{answer, get-find, find, HasUniqueIds, find-none, change-HasUniqueIds}

keep-HasUniqueIds :
    (q : TaskRow → Bool) (rows : List TaskRow) → HasUniqueIds rows → HasUniqueIds (keep q rows)
unfolding keep
keep-HasUniqueIds q [] h = tt
keep-HasUniqueIds q (r ∷ rows) h =
    let rest = keep-HasUniqueIds q rows h.1 in
    elim (Bool-cases (q r)) [
      | inl e ↦
          rw (ap (λ b. if b then r ∷ keep q rows else keep q rows) e)
            (any-keep-false (has_id r.task_id) q rows h.0, rest)
      | inr e ↦ rw (ap (λ b. if b then r ∷ keep q rows else keep q rows) e) rest
    ]

keep_row : (TaskRow → Bool) → Option TaskRow → Option TaskRow
keep_row q none = none
keep_row q (some r) = if q r then some r else none

find-keep :
    (q : TaskRow → Bool) (id : String) (rows : List TaskRow)
    → HasUniqueIds rows
    → find id (keep q rows) ≡ keep_row q (find id rows)
unfolding find keep keep_row has_id
find-keep q id [] h = refl
find-keep q id (r ∷ rows) h =
    let rest = find-keep q id rows h.1 in
    elim (Bool-cases (q r)) [
      | inl e ↦ elim (Bool-cases (has_id id r)) [
        | inl i ↦ rw (e, i) (rw e refl)
        | inr i ↦ rw (e, i) rest
      ]
      | inr e ↦ elim (Bool-cases (has_id id r)) [
        | inl i ↦
            rw (e, i)
              (rw e (
                find-none id (keep q rows) (
                  any-keep-false (has_id id) q rows
                    (ap (λ j. any (has_id j) rows) (sym ((eq_iff r.task_id id).0 i)) ∙ h.0))))
        | inr i ↦ rw (e, i) rest
      ]
    ]

count-keep :
    (q : TaskRow → Bool) (rows : List TaskRow)
    → length (keep q rows) + length (keep (λ r. not (q r)) rows) ≡ length rows
unfolding keep
count-keep q [] = refl
count-keep q (r ∷ rows) = ground (arith, count-keep q rows)

-- A row that is shown by Get is not one that the purge removes.
live_kept :
    (cutoff : ℤ) (o : Option TaskRow)
    → answer (keep_row (λ r. not (is_purged cutoff r)) o) ≡ answer o
unfolding keep_row is_purged is_live answer
live_kept cutoff none = refl
live_kept cutoff (some r) = elim (Bool-cases (r.is_deleted == "Y")) [
  | inr n ↦ rw n refl
  | inl y ↦ elim (Bool-cases (ltb_int r.last_modified cutoff)) [
    | inr n ↦ rw (y, n) refl
    | inl l ↦
        let gone : is_live r ≡ false = unfold is_live in rw ((eq_iff r.is_deleted "Y").0 y) refl in
        rw (y, l) (sym (hidden r gone))
  ]
]
  where
    hidden : (r : TaskRow) → is_live r ≡ false → answer (some r) ≡ Reply.not_found
    hidden r gone = unfold answer in rw gone refl

-- What the purge leaves: of each row that is no live task, it is the mark and the time that decide.
abbrev pub IsPurge : ℤ → List TaskRow → ℕ × List TaskRow → Type 0
IsPurge cutoff rows r =
    ((id : String) → get id r.1 ≡ get id rows)
    × ((id : String) (s : TaskRow)
        → find id rows ≡ some s
        → find id r.1
          ≡ (if s.is_deleted == "Y" && ltb_int s.last_modified cutoff then none else some s))
    × ((id : String) → find id rows ≡ none → find id r.1 ≡ none)
    × (r.0 + length r.1 ≡ length rows)

-- With unique identifiers, the purge leaves what Get answers as it was for every identifier,
-- removes a row exactly if it has the mark Y and was modified before the cutoff, keeps every other
-- row as it is and adds none, and counts the rows that it removes.
pub purge_lem :
    (cutoff : ℤ) (rows : List TaskRow)
    → HasUniqueIds rows
    → IsPurge cutoff rows (hard_delete_older_than cutoff rows)
unfolding hard_delete_older_than
purge_lem cutoff rows h = (
  λ id.
      get-find id (keep stays rows) (keep-HasUniqueIds stays rows h)
      ∙ ap answer (find-keep stays id rows h)
      ∙ live_kept cutoff (find id rows)
      ∙ sym (get-find id rows h),
  λ id s e. find-keep stays id rows h ∙ rw e (flip s),
  λ id e. find-keep stays id rows h ∙ rw e (unfold keep_row in refl),
  count-keep (is_purged cutoff) rows,
)
  where
    stays : TaskRow → Bool
    stays s = not (is_purged cutoff s)

    flip :
        (s : TaskRow)
        → keep_row stays (some s)
          ≡ (if s.is_deleted == "Y" && ltb_int s.last_modified cutoff then none else some s)
    flip s = unfold keep_row is_purged in ground arith

-- The operations of the store that write, where they succeed.
pub data Step (rows : List TaskRow) : List TaskRow → Type 0 where
  created :
      (generate : String → ℤ → String) (now : ℤ) (t t' : Task) (rows' : List TaskRow)
      → create generate now t rows ≡ Reply.done (t', rows')
      → Step rows rows'
  updated :
      (now : ℤ) (t : Task) (rows' : List TaskRow)
      → update now t rows ≡ Reply.done rows'
      → Step rows rows'
  deleted :
      (now : ℤ) (id : String) (rows' : List TaskRow)
      → delete now id rows ≡ Reply.done rows'
      → Step rows rows'
  cleared : (now : ℤ) → Step rows (delete_completed now rows).1
  purged : (cutoff : ℤ) → Step rows (hard_delete_older_than cutoff rows).1

done-injective {ℓ} : {A : Type ℓ} {a b : A} → Reply.done a ≡ Reply.done b → a ≡ b
done-injective h = cc

append-HasUniqueIds :
    (s : TaskRow) (rows : List TaskRow)
    → any (has_id s.task_id) rows ≡ false
    → HasUniqueIds rows
    → HasUniqueIds (rows ++ s ∷ [])
unfolding any
append-HasUniqueIds s [] fresh h = (refl, tt)
append-HasUniqueIds s (r ∷ rows) fresh h = (
  any-append (has_id r.task_id) rows (s ∷ [])
      ∙ unfold has_id in
        ground (arith, h.0, eq_iff s.task_id r.task_id, eq_iff r.task_id s.task_id),
  append-HasUniqueIds s rows (ground arith) h.1,
)

-- Create, Update, Delete, DeleteCompleted and HardDeleteOlderThan keep the identifiers of the table
-- unique where they succeed.
pub writes-HasUniqueIds :
    (rows rows' : List TaskRow) → Step rows rows' → HasUniqueIds rows → HasUniqueIds rows'
unfolding create update set_rows delete delete_completed hard_delete_older_than
writes-HasUniqueIds rows _ (Step.created generate now t t' rows' e) h =
    let row = new_row now (fill_defaults generate now t) in
    elim (Bool-cases (any (has_id (fill_defaults generate now t).task_id) rows)) [
      | inl k ↦ cc (rw k at e)
      | inr k ↦
          subst (λ (r : Task × List TaskRow). HasUniqueIds r.1) (done-injective (rw k at e))
            (append-HasUniqueIds row rows (unfold new_row in k) h)
    ]
writes-HasUniqueIds rows _ (Step.updated now t rows' e) h =
    elim (Bool-cases (any (has_id t.task_id) rows)) [
      | inl k ↦ written t.status t.completed_time (rw k at e)
      | inr k ↦ cc (rw k at e)
    ]
  where
    written :
        (s : Option String) (c : Option ℤ)
        → set_rows now t s c rows ≡ Reply.done rows'
        → HasUniqueIds rows'
    written none c w = cc
    written (some s) none w = cc
    written (some s) (some c) w =
        subst HasUniqueIds (done-injective w)
          (change-HasUniqueIds _ (set_row now t s c) rows (λ r. unfold set_row in refl) h)
writes-HasUniqueIds rows _ (Step.deleted now id rows' e) h =
    elim (Bool-cases (any (has_id id) rows)) [
      | inl k ↦
          subst HasUniqueIds (done-injective (rw k at e))
            (change-HasUniqueIds _ (tombstone now) rows (λ r. unfold tombstone in refl) h)
      | inr k ↦ cc (rw k at e)
    ]
writes-HasUniqueIds rows _ (Step.cleared now) h =
    change-HasUniqueIds is_completed (tombstone now) rows (λ r. unfold tombstone in refl) h
writes-HasUniqueIds rows _ (Step.purged cutoff) h = keep-HasUniqueIds _ rows h
