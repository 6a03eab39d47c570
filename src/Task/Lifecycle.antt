-- ===== src/Task/Lifecycle.antt =====
-- The life of a task: created, read, changed, deleted softly, purged.
use text.Mathlib.Text.{◌==◌}
use text.Mathlib.TextEquality.{eq_iff}
use boox_bridge.Prelude.{
  ◌&&◌, sym, Option, String, ◌≡◌, ◌≢◌, refl, ap, ◌∙◌, inl, inr, true, false, none, some,
  if◌then◌else◌, List, [], ◌∷◌, ◌++◌, arith, Bool-cases, Option-cases,
}
use boox_bridge.Prelude.Int.{ℤ, pos}
use boox_bridge.Prelude.Lists.{any}
use boox_bridge.Task.{Task, null_str}
use boox_bridge.Task.Store.{
  TaskRow, Reply, or_else, or_text, scan_task, is_live, has_id, get, fill_defaults, new_row, create,
  set_row, update, set_rows, change, tombstone, delete,
}
use boox_bridge.Task.Rows.{
  find, HasUniqueIds, answer, get-find, find-none, find-change, change-HasUniqueIds,
}

get-append :
    (id : String) (r : TaskRow) (rows : List TaskRow)
    → any (has_id id) rows ≡ false
    → get id (rows ++ r ∷ [])
      ≡ (if has_id id r && is_live r then Reply.done (scan_task r) else Reply.not_found)
unfolding get any
get-append id r [] h = refl
get-append id r (s ∷ rows) h = elim (Bool-cases (has_id id s)) [
  | inl e ↦ ground arith
  | inr e ↦ rw e (get-append id r rows (ground arith))
]

get-append_other :
    (id : String) (r : TaskRow) (rows : List TaskRow)
    → has_id id r ≡ false
    → get id (rows ++ r ∷ []) ≡ get id rows
unfolding get
get-append_other id r [] h = rw h refl
get-append_other id r (s ∷ rows) h = rw (get-append_other id r rows h) refl

-- The identifier of a new task: its own, or one made of its title.
abbrev pub created_id : (String → ℤ → String) → ℤ → Task → String
created_id generate now t =
    if t.task_id == ""
    then generate (elim t.title [ none ↦ "" | some title ↦ title ]) now
    else t.task_id

abbrev given : {A : Type 0} → Option A → A → A
given none a = a
given (some b) a = b

-- A new task as Get shows it.
abbrev pub shown : (String → ℤ → String) → ℤ → Task → Task
shown generate now t = record {
  task_id = created_id generate now t;
  task_list_id = none;
  user_id = pos 0;
  title = t.title;
  detail = t.detail;
  last_modified = some (given t.last_modified now);
  recurrence = t.recurrence;
  is_reminder_on = if t.is_reminder_on == "" then "N" else t.is_reminder_on;
  status = some (given t.status "needsAction");
  importance = t.importance;
  due_time = t.due_time;
  completed_time = some (given t.completed_time now);
  links = t.links;
  is_deleted = "N";
  ical_blob = t.ical_blob;
  created_at = now;
  forestnote_notebook_id = t.forestnote_notebook_id;
  forestnote_page_id = t.forestnote_page_id;
  forestnote_notebook_name = t.forestnote_notebook_name;
  forestnote_source = t.forestnote_source;
}

filled_id :
    (generate : String → ℤ → String) (now : ℤ) (t : Task)
    → (fill_defaults generate now t).task_id ≡ created_id generate now t
unfolding fill_defaults or_text null_str
filled_id generate now t = elim (Option-cases t.title) [
  | inl e ↦ rw e refl
  | inr (title, e) ↦ rw e refl
]

scan-new_row :
    (generate : String → ℤ → String) (now : ℤ) (t : Task)
    → t.is_deleted ≡ ""
    → scan_task (new_row now (fill_defaults generate now t)) ≡ shown generate now t
unfolding scan_task new_row fill_defaults or_text or_else null_str
scan-new_row generate now t d = rw d refl

-- Create of a task without a mark of deletion whose identifier, its own or one generated from its
-- title, is new succeeds, Get of the identifier then answers the task with the status needsAction,
-- the times and the other defaults where it had none, and Get of any other identifier answers as
-- before.
pub create_lem :
    (generate : String → ℤ → String) (now : ℤ) (t : Task) (rows : List TaskRow)
    → any (has_id (created_id generate now t)) rows ≡ false
    → t.is_deleted ≡ ""
    → (t' : Task) × (rows' : List TaskRow) × (create generate now t rows ≡ Reply.done (t', rows'))
      × (get (created_id generate now t) rows' ≡ Reply.done (shown generate now t))
      × ((id : String) → created_id generate now t ≢ id → get id rows' ≡ get id rows)
unfolding create new_row
create_lem generate now t rows fresh live =
    let filled = fill_defaults generate now t in
    let row = new_row now filled in
    (
      filled,
      rows ++ row ∷ [],
      rw (filled_id generate now t, fresh) refl,
      get-append (created_id generate now t) row rows fresh
          ∙ rw (own row (filled_id generate now t), visible)
              (ap Reply.done (scan-new_row generate now t live)),
      λ id other.
          get-append_other id row rows
            (foreign row id (λ e. other (sym (filled_id generate now t) ∙ e))),
    )
  where
    own :
        (r : TaskRow)
        → r.task_id ≡ created_id generate now t
        → has_id (created_id generate now t) r ≡ true
    own r e = unfold has_id in ground (arith, eq_iff r.task_id (created_id generate now t))

    visible : is_live (new_row now (fill_defaults generate now t)) ≡ true
    visible = unfold is_live new_row fill_defaults or_text in rw live refl

    foreign : (r : TaskRow) (id : String) → r.task_id ≢ id → has_id id r ≡ false
    foreign r id ne = unfold has_id in ground (arith, eq_iff r.task_id id)

find-has_id :
    (id : String) (rows : List TaskRow) (r : TaskRow) → find id rows ≡ some r → has_id id r ≡ true
unfolding find
find-has_id id [] r h = cc
find-has_id id (s ∷ rows) r h = elim (Bool-cases (has_id id s)) [
  | inl e ↦ cc (rw e at h)
  | inr e ↦ find-has_id id rows r (rw e at h)
]

any-find :
    (id : String) (rows : List TaskRow) (r : TaskRow)
    → find id rows ≡ some r
    → any (has_id id) rows ≡ true
any-find id rows r h = elim (Bool-cases (any (has_id id) rows)) [
  | inl e ↦ e
  | inr e ↦ cc (find-none id rows e)
]

not-has_id : (id j : String) (r : TaskRow) → id ≢ j → has_id j r ≡ true → has_id id r ≡ false
unfolding has_id
not-has_id id j r ne h = ground (arith, eq_iff r.task_id id, eq_iff r.task_id j)

-- A change of the row of one identifier leaves those of the others.
find-change_other :
    (f : TaskRow → TaskRow) (id j : String) (rows : List TaskRow)
    → ((r : TaskRow) → (f r).task_id ≡ r.task_id)
    → id ≢ j
    → find j (change (has_id id) f rows) ≡ find j rows
find-change_other f id j rows same ne = elim (Option-cases (find j rows)) [
  | inl e ↦ find-change (has_id id) f j rows same ∙ rw e refl
  | inr (r, e) ↦
      find-change (has_id id) f j rows same
      ∙ rw e (rw (not-has_id id j r ne (find-has_id j rows r e)) refl)
]

find-change_own :
    (f : TaskRow → TaskRow) (id : String) (rows : List TaskRow) (r : TaskRow)
    → ((r : TaskRow) → (f r).task_id ≡ r.task_id)
    → find id rows ≡ some r
    → find id (change (has_id id) f rows) ≡ some (f r)
find-change_own f id rows r same e =
    find-change (has_id id) f id rows same ∙ rw e (rw (find-has_id id rows r e) refl)

-- With unique identifiers, Delete of a task that the table has succeeds, leaves its row with the
-- mark of deletion and the time, hides it from Get, and leaves the rows of the others.
pub delete_lem :
    (now : ℤ) (id : String) (rows : List TaskRow) (r : TaskRow)
    → HasUniqueIds rows
    → find id rows ≡ some r
    → (rows' : List TaskRow) × (delete now id rows ≡ Reply.done rows')
      × (find id rows' ≡ some (tombstone now r))
      × (get id rows' ≡ Reply.not_found)
      × ((j : String) → id ≢ j → find j rows' ≡ find j rows)
unfolding delete
delete_lem now id rows r unique e =
    let own = find-change_own (tombstone now) id rows r keeps_id e in
    (
      change (has_id id) (tombstone now) rows,
      rw (any-find id rows r e) refl,
      own,
      get-find id _ (change-HasUniqueIds (has_id id) (tombstone now) rows keeps_id unique)
          ∙ ap answer own
          ∙ hidden,
      λ j ne. find-change_other (tombstone now) id j rows keeps_id ne,
    )
  where
    keeps_id : (r : TaskRow) → (tombstone now r).task_id ≡ r.task_id
    keeps_id r = unfold tombstone in refl

    hidden : answer (some (tombstone now r)) ≡ Reply.not_found
    hidden = unfold answer is_live tombstone in refl

-- Update of a task that the table has, with a status and a completion time, succeeds, writes its
-- columns and the time, keeps the mark of deletion and the time of creation, and leaves the rows of
-- the others.
pub update_lem :
    (now : ℤ) (t : Task) (status : String) (completed : ℤ) (rows : List TaskRow) (r : TaskRow)
    → find t.task_id rows ≡ some r
    → t.status ≡ some status
    → t.completed_time ≡ some completed
    → (rows' : List TaskRow) × (update now t rows ≡ Reply.done rows')
      × (find t.task_id rows' ≡ some (set_row now t status completed r))
      × ((set_row now t status completed r).is_deleted ≡ r.is_deleted)
      × ((set_row now t status completed r).created_at ≡ r.created_at)
      × ((j : String) → t.task_id ≢ j → find j rows' ≡ find j rows)
unfolding update set_rows
update_lem now t status completed rows r e s c = (
  change (has_id t.task_id) (set_row now t status completed) rows,
  rw (any-find t.task_id rows r e) written,
  find-change_own (set_row now t status completed) t.task_id rows r keeps_id e,
  unfold set_row in refl,
  unfold set_row in refl,
  λ j ne. find-change_other (set_row now t status completed) t.task_id j rows keeps_id ne,
)
  where
    keeps_id : (r : TaskRow) → (set_row now t status completed r).task_id ≡ r.task_id
    keeps_id r = unfold set_row in refl

    written :
        set_rows now t t.status t.completed_time rows
        ≡ Reply.done (change (has_id t.task_id) (set_row now t status completed) rows)
    written = cc
