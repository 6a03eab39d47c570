-- ===== src/Task/Rows.antt =====
-- What the changes of the table do to the row of a task.
use text.Mathlib.Text.{◌==◌}
use text.Mathlib.TextEquality.{eq_iff}
use boox_bridge.Prelude.{
  String, ◌≡◌, refl, sym, ap, ◌∙◌, inl, inr, Bool, true, false, Option, none, some, if◌then◌else◌,
  List, [], ◌∷◌, arith, Bool-cases,
}
use boox_bridge.Prelude.Lists.{any}
use boox_bridge.Task.{Task}
use boox_bridge.Task.Store.{TaskRow, Reply, scan_task, is_live, has_id, get, change}

-- The row of a task, deleted or not.
unfoldable pub find : String → List TaskRow → Option TaskRow
find id [] = none
find id (r ∷ rows) = if has_id id r then some r else find id rows

abbrev pub HasUniqueIds : List TaskRow → Type 0
HasUniqueIds [] = Unit
HasUniqueIds (r ∷ rows) = (any (has_id r.task_id) rows ≡ false) × HasUniqueIds rows

unfoldable pub answer : Option TaskRow → Reply Task
unfolding is_live
answer none = Reply.not_found
answer (some r) = if is_live r then Reply.done (scan_task r) else Reply.not_found

has_id_refl : (r : TaskRow) → has_id r.task_id r ≡ true
unfolding has_id
has_id_refl r = ground (arith, eq_iff r.task_id r.task_id)

has_id-sym : (id : String) (r : TaskRow) → has_id id r ≡ true → r.task_id ≡ id
unfolding has_id
has_id-sym id r h = ground (arith, eq_iff r.task_id id)

pub find-none :
    (id : String) (rows : List TaskRow) → any (has_id id) rows ≡ false → find id rows ≡ none
unfolding any find
find-none id [] h = refl
find-none id (r ∷ rows) h = ground (arith, find-none id rows)

get-none :
    (id : String) (rows : List TaskRow)
    → any (has_id id) rows ≡ false
    → get id rows ≡ Reply.not_found
unfolding any get
get-none id [] h = refl
get-none id (r ∷ rows) h = elim (Bool-cases (has_id id r)) [
  | inl e ↦ ground arith
  | inr e ↦ rw e (get-none id rows (ground arith))
]

-- With unique keys the row of a task decides what Get answers.
pub get-find :
    (id : String) (rows : List TaskRow) → HasUniqueIds rows → get id rows ≡ answer (find id rows)
unfolding get find answer
get-find id [] h = refl
get-find id (r ∷ rows) h = elim (Bool-cases (has_id id r)) [
  | inr e ↦ rw e (get-find id rows h.1)
  | inl e ↦ elim (Bool-cases (is_live r)) [
    | inl live ↦ rw (e, live) refl
    | inr dead ↦
        rw (e, dead)
          (get-none id rows (ap (λ i. any (has_id i) rows) (sym (has_id-sym id r e)) ∙ h.0))
  ]
]

-- A change that keeps the keys changes the row it is for, and the test on it is made on that row.
pub find-change :
    (p : TaskRow → Bool) (f : TaskRow → TaskRow) (id : String) (rows : List TaskRow)
    → ((r : TaskRow) → (f r).task_id ≡ r.task_id)
    → find id (change p f rows)
      ≡ elim (find id rows) [ none ↦ none | some r ↦ some (if p r then f r else r) ]
unfolding find change has_id
find-change p f id [] same = refl
find-change p f id (r ∷ rows) same =
    let rest = find-change p f id rows same in
    elim (Bool-cases (p r)) [
      | inl q ↦ elim (Bool-cases (r.task_id == id)) [
        | inl e ↦ rw (q, ap (λ i. i == id) (same r) ∙ e, e) (rw q refl)
        | inr e ↦ rw (q, ap (λ i. i == id) (same r) ∙ e, e) rest
      ]
      | inr q ↦ elim (Bool-cases (r.task_id == id)) [
        | inl e ↦ rw (q, e) (rw q refl)
        | inr e ↦ rw (q, e) rest
      ]
    ]

pub any-change :
    (p : TaskRow → Bool) (f : TaskRow → TaskRow) (id : String) (rows : List TaskRow)
    → ((r : TaskRow) → (f r).task_id ≡ r.task_id)
    → any (has_id id) (change p f rows) ≡ any (has_id id) rows
unfolding any change has_id
any-change p f id [] same = refl
any-change p f id (r ∷ rows) same = elim (Bool-cases (p r)) [
  | inl q ↦ rw (q, same r, any-change p f id rows same) refl
  | inr q ↦ rw (q, any-change p f id rows same) refl
]

pub change-HasUniqueIds :
    (p : TaskRow → Bool) (f : TaskRow → TaskRow) (rows : List TaskRow)
    → ((r : TaskRow) → (f r).task_id ≡ r.task_id)
    → HasUniqueIds rows
    → HasUniqueIds (change p f rows)
unfolding change
change-HasUniqueIds p f [] same h = tt
change-HasUniqueIds p f (r ∷ rows) same h =
    let rest = change-HasUniqueIds p f rows same h.1 in
    elim (Bool-cases (p r)) [
      | inl q ↦ rw q (rw (same r) (any-change p f r.task_id rows same ∙ h.0), rest)
      | inr q ↦ rw q (any-change p f r.task_id rows same ∙ h.0, rest)
    ]
