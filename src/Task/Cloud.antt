-- ===== src/Task/Cloud.antt =====
-- internal/taskstore/store.go: the tasks of one user in the table t_schedule_task of a private cloud,
-- whose rows are tasks with the columns of taskColumns; the columns of the SQLite table alone stay at
-- Go's zero values. Database errors are not modelled, and texts are compared as they are.
use text.Mathlib.Text.{◌==◌}
use boox_bridge.Prelude.{
  ℕ, String, Bool, true, false, ◌&&◌, Option, none, some, if◌then◌else◌, List, [], ◌∷◌, ◌++◌,
}
use boox_bridge.Prelude.Int.{ℤ, pos, ltb_int, eqb_int}
use boox_bridge.Prelude.Lists.{length, keep}
use boox_bridge.Task.{Task}
use boox_bridge.Task.Store.{Reply, fill_defaults, or_else}
pub mod Users

unfoldable pub owned : ℤ → Task → Bool
owned user t = eqb_int t.user_id user

unfoldable pub owned_live : ℤ → Task → Bool
unfolding owned
owned_live user t = owned user t && t.is_deleted == "N"

unfoldable pub list_for : ℤ → List Task → List Task
unfolding owned_live
list_for user rows = keep (owned_live user) rows

unfoldable pub get_for : ℤ → String → List Task → Reply Task
unfolding owned_live
get_for user id [] = Reply.not_found
get_for user id (t ∷ rows) =
    if t.task_id == id && owned_live user t then Reply.done t else get_for user id rows

-- The columns that INSERT writes.
unfoldable pub inserted : Task → Task
inserted t = record t {
  ical_blob = none;
  created_at = pos 0;
  forestnote_notebook_id = none;
  forestnote_page_id = none;
  forestnote_notebook_name = none;
  forestnote_source = none;
}

-- The filled argument comes back with the table.
unfoldable pub create_for : ℤ → (String → ℤ → String) → ℤ → Task → List Task → Task × List Task
unfolding inserted fill_defaults
create_for user generate now t₀ rows =
    let t = fill_defaults generate now (record t₀ { user_id = user }) in
    (t, rows ++ inserted t ∷ [])

unfoldable pub set_task : ℤ → Task → Task → Task
set_task now t r = record r {
  title = t.title;
  detail = t.detail;
  status = t.status;
  importance = t.importance;
  due_time = t.due_time;
  last_modified = some now;
  recurrence = t.recurrence;
}

unfoldable pub change_tasks : (Task → Bool) → (Task → Task) → List Task → List Task
change_tasks p f [] = []
change_tasks p f (t ∷ rows) = (if p t then f t else t) ∷ change_tasks p f rows

-- No row that passes is no error here.
unfoldable pub update_for : ℤ → ℤ → Task → List Task → List Task
unfolding change_tasks set_task owned
update_for user now t rows =
    change_tasks (λ r. owned user r && r.task_id == t.task_id) (set_task now t) rows

unfoldable pub mark_deleted : ℤ → Task → Task
mark_deleted now t = record t { is_deleted = "Y"; last_modified = some now }

unfoldable pub delete_for : ℤ → ℤ → String → List Task → List Task
unfolding change_tasks mark_deleted owned
delete_for user now id rows =
    change_tasks (λ r. owned user r && r.task_id == id) (mark_deleted now) rows

unfoldable pub has_status : String → Task → Bool
has_status s t = elim t.status [ none ↦ false | some r ↦ r == s ]

unfoldable pub completed_for : ℤ → Task → Bool
unfolding owned has_status
completed_for user t = owned user t && (t.is_deleted == "N" && has_status "completed" t)

unfoldable pub delete_completed_for : ℤ → ℤ → List Task → ℕ × List Task
unfolding change_tasks mark_deleted completed_for
delete_completed_for user now rows = (
  length (keep (completed_for user) rows),
  change_tasks (completed_for user) (mark_deleted now) rows,
)

-- MAX skips NULL, and is NULL where nothing is left.
unfoldable pub max_modified : List Task → Option ℤ
max_modified [] = none
max_modified (t ∷ rows) = elim t.last_modified [
  | none ↦ max_modified rows
  | some n ↦ elim (max_modified rows) [
    | none ↦ some n
    | some m ↦ some (if ltb_int m n then n else m)
  ]
]

unfoldable pub max_last_modified_for : ℤ → List Task → ℤ
unfolding max_modified owned_live or_else
max_last_modified_for user rows = or_else (max_modified (keep (owned_live user) rows)) (pos 0)
