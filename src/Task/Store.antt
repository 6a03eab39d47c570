-- ===== src/Task/Store.antt =====
-- internal/taskdb/store.go: the operations on the table of tasks. The clock is the argument `now`; of
-- SQLite's errors only those of the primary key and of the NOT NULL columns are modelled.
use text.Mathlib.Text.{◌==◌}
use boox_bridge.Prelude.{
  ℕ, String, Bool, true, false, not, ◌&&◌, Option, none, some, if◌then◌else◌, List, [], ◌∷◌, ◌++◌,
  map,
}
use boox_bridge.Prelude.Int.{ℤ, pos, ltb_int}
use boox_bridge.Prelude.Lists.{length, keep, any}
use boox_bridge.Task.{Task, null_str}

-- A row of tasks.
pub record TaskRow : Type 0 where
  pub task_id : String
  pub title : Option String
  pub detail : Option String
  pub status : String
  pub importance : Option String
  pub due_time : ℤ
  pub completed_time : ℤ
  pub last_modified : ℤ
  pub recurrence : Option String
  pub is_reminder_on : String
  pub links : Option String
  pub is_deleted : String
  pub ical_blob : Option String
  pub created_at : ℤ
  pub updated_at : ℤ
  pub forestnote_notebook_id : Option String
  pub forestnote_page_id : Option String
  pub forestnote_notebook_name : Option String
  pub forestnote_source : Option String

-- A value, ErrNotFound, or a failed constraint.
pub data Reply {ℓ} (A : Type ℓ) : Type ℓ where
  done : A → Reply A
  not_found : Reply A
  constraint : String → Reply A

-- The columns that no SELECT reads keep Go's zero values.
unfoldable pub scan_task : TaskRow → Task
scan_task r = record {
  task_id = r.task_id;
  task_list_id = none;
  user_id = pos 0;
  title = r.title;
  detail = r.detail;
  last_modified = some r.last_modified;
  recurrence = r.recurrence;
  is_reminder_on = r.is_reminder_on;
  status = some r.status;
  importance = r.importance;
  due_time = r.due_time;
  completed_time = some r.completed_time;
  links = r.links;
  is_deleted = r.is_deleted;
  ical_blob = r.ical_blob;
  created_at = r.created_at;
  forestnote_notebook_id = r.forestnote_notebook_id;
  forestnote_page_id = r.forestnote_page_id;
  forestnote_notebook_name = r.forestnote_notebook_name;
  forestnote_source = r.forestnote_source;
}

unfoldable pub is_live : TaskRow → Bool
is_live r = r.is_deleted == "N"

unfoldable pub has_id : String → TaskRow → Bool
has_id id r = r.task_id == id

unfoldable pub list : List TaskRow → List Task
unfolding is_live scan_task
list rows = map scan_task (keep is_live rows)

unfoldable pub list_including_deleted : List TaskRow → List Task
unfolding scan_task
list_including_deleted rows = map scan_task rows

unfoldable pub get : String → List TaskRow → Reply Task
unfolding is_live has_id
get id [] = Reply.not_found
get id (r ∷ rows) = if has_id id r && is_live r then Reply.done (scan_task r) else get id rows

unfoldable pub or_else {ℓ} : {A : Type ℓ} → Option A → A → A
or_else none d = d
or_else (some v) d = v

unfoldable pub or_text : String → String → String
or_text s d = if s == "" then d else s

-- The defaults that Create writes into its argument.
unfoldable pub fill_defaults : (String → ℤ → String) → ℤ → Task → Task
unfolding or_else or_text null_str
fill_defaults generate now t = record t {
  task_id = or_text t.task_id (generate (null_str t.title) now);
  completed_time = some (or_else t.completed_time now);
  last_modified = some (or_else t.last_modified now);
  is_deleted = or_text t.is_deleted "N";
  is_reminder_on = or_text t.is_reminder_on "N";
  status = some (or_else t.status "needsAction");
}

-- The row that Create inserts for a task with its defaults.
unfoldable pub new_row : ℤ → Task → TaskRow
unfolding or_else
new_row now t = record {
  task_id = t.task_id;
  title = t.title;
  detail = t.detail;
  status = or_else t.status "needsAction";
  importance = t.importance;
  due_time = t.due_time;
  completed_time = or_else t.completed_time now;
  last_modified = or_else t.last_modified now;
  recurrence = t.recurrence;
  is_reminder_on = t.is_reminder_on;
  links = t.links;
  is_deleted = t.is_deleted;
  ical_blob = t.ical_blob;
  created_at = now;
  updated_at = now;
  forestnote_notebook_id = t.forestnote_notebook_id;
  forestnote_page_id = t.forestnote_page_id;
  forestnote_notebook_name = t.forestnote_notebook_name;
  forestnote_source = t.forestnote_source;
}

-- The filled argument comes back with the table.
unfoldable pub create :
    (String → ℤ → String) → ℤ → Task → List TaskRow → Reply (Task × List TaskRow)
unfolding has_id new_row fill_defaults
create generate now t₀ rows =
    let t = fill_defaults generate now t₀ in
    if any (has_id t.task_id) rows
    then Reply.constraint "create task: UNIQUE constraint failed: tasks.task_id"
    else Reply.done (t, rows ++ new_row now t ∷ [])

-- The SET clause of Update, for values that are not NULL.
unfoldable pub set_row : ℤ → Task → String → ℤ → TaskRow → TaskRow
set_row now t status completed r = record r {
  title = t.title;
  detail = t.detail;
  status = status;
  importance = t.importance;
  due_time = t.due_time;
  completed_time = completed;
  last_modified = now;
  recurrence = t.recurrence;
  is_reminder_on = t.is_reminder_on;
  links = t.links;
  ical_blob = t.ical_blob;
  updated_at = now;
  forestnote_notebook_id = t.forestnote_notebook_id;
  forestnote_page_id = t.forestnote_page_id;
  forestnote_notebook_name = t.forestnote_notebook_name;
  forestnote_source = t.forestnote_source;
}

-- UPDATE … WHERE: the rows that pass are changed.
unfoldable pub change : (TaskRow → Bool) → (TaskRow → TaskRow) → List TaskRow → List TaskRow
change p f [] = []
change p f (r ∷ rows) = (if p r then f r else r) ∷ change p f rows

unfoldable pub set_rows : ℤ → Task → Option String → Option ℤ → List TaskRow → Reply (List TaskRow)
unfolding change set_row has_id
set_rows now t none completed rows =
    Reply.constraint "update task: NOT NULL constraint failed: tasks.status"
set_rows now t (some status) none rows =
    Reply.constraint "update task: NOT NULL constraint failed: tasks.completed_time"
set_rows now t (some status) (some completed) rows =
    Reply.done (change (has_id t.task_id) (set_row now t status completed) rows)

-- Where no row passes, no constraint is checked and no row is affected.
unfoldable pub update : ℤ → Task → List TaskRow → Reply (List TaskRow)
unfolding set_rows has_id
update now t rows =
    if any (has_id t.task_id) rows
    then set_rows now t t.status t.completed_time rows
    else Reply.not_found

unfoldable pub tombstone : ℤ → TaskRow → TaskRow
tombstone now r = record r { is_deleted = "Y"; last_modified = now; updated_at = now }

unfoldable pub delete : ℤ → String → List TaskRow → Reply (List TaskRow)
unfolding change tombstone has_id
delete now id rows =
    if any (has_id id) rows
    then Reply.done (change (has_id id) (tombstone now) rows)
    else Reply.not_found

unfoldable pub is_completed : TaskRow → Bool
is_completed r = r.is_deleted == "N" && r.status == "completed"

unfoldable pub delete_completed : ℤ → List TaskRow → ℕ × List TaskRow
unfolding change tombstone is_completed
delete_completed now rows =
    (length (keep is_completed rows), change is_completed (tombstone now) rows)

unfoldable pub is_purged : ℤ → TaskRow → Bool
is_purged cutoff r = r.is_deleted == "Y" && ltb_int r.last_modified cutoff

unfoldable pub hard_delete_older_than : ℤ → List TaskRow → ℕ × List TaskRow
unfolding is_purged
hard_delete_older_than cutoff rows =
    (length (keep (is_purged cutoff) rows), keep (λ r. not (is_purged cutoff r)) rows)

unfoldable pub is_empty : List TaskRow → Bool
is_empty [] = true
is_empty (_ ∷ _) = false

-- MAX over no rows is NULL.
unfoldable pub max_of : List TaskRow → Option ℤ
max_of [] = none
max_of (r ∷ rows) = elim (max_of rows) [
  | none ↦ some r.last_modified
  | some m ↦ some (if ltb_int m r.last_modified then r.last_modified else m)
]

unfoldable pub max_last_modified : List TaskRow → ℤ
unfolding max_of is_live or_else
max_last_modified rows = or_else (max_of (keep is_live rows)) (pos 0)
