-- ===== src/Task/Tests.antt =====
-- A table with one task, and the operations on it.
use boox_bridge.Prelude.{String, ◌≡◌, ◌≢◌, refl, false, none, some, List, [], ◌∷◌}
use boox_bridge.Prelude.Int.{ℤ, pos}
use boox_bridge.Prelude.Lists.{any, keep}
use boox_bridge.Task.{Task, compute_ctag, null_str}
use boox_bridge.Task.Store.{
  TaskRow, Reply, scan_task, has_id, get, or_else, or_text, fill_defaults, new_row, create,
  tombstone, delete, hard_delete_older_than,
}
use boox_bridge.Task.Rows.{find, HasUniqueIds}
use boox_bridge.Task.Lifecycle.{shown, create_lem, delete_lem}
use boox_bridge.Task.Cloud.{owned, delete_for}
use boox_bridge.Task.Cloud.Users.{Write, writes_keep_others}
use boox_bridge.Task.Purge.{IsPurge, purge_lem, Step, writes-HasUniqueIds}

-- An identifier generator: the title.
abbrev generate : String → ℤ → String
generate title now = title

abbrev task : Task
task = record {
  task_id = "";
  task_list_id = none;
  user_id = pos 0;
  title = some "milk";
  detail = none;
  last_modified = none;
  recurrence = none;
  is_reminder_on = "";
  status = none;
  importance = none;
  due_time = pos 0;
  completed_time = none;
  links = none;
  is_deleted = "";
  ical_blob = none;
  created_at = pos 0;
  forestnote_notebook_id = none;
  forestnote_page_id = none;
  forestnote_notebook_name = none;
  forestnote_source = none;
}

abbrev filled : Task
filled = record task {
  task_id = "milk";
  completed_time = some (pos 10);
  last_modified = some (pos 10);
  is_deleted = "N";
  is_reminder_on = "N";
  status = some "needsAction";
}

abbrev row : TaskRow
row = record {
  task_id = "milk";
  title = some "milk";
  detail = none;
  status = "needsAction";
  importance = none;
  due_time = pos 0;
  completed_time = pos 10;
  last_modified = pos 10;
  recurrence = none;
  is_reminder_on = "N";
  links = none;
  is_deleted = "N";
  ical_blob = none;
  created_at = pos 10;
  updated_at = pos 10;
  forestnote_notebook_id = none;
  forestnote_page_id = none;
  forestnote_notebook_name = none;
  forestnote_source = none;
}

create_test : create generate (pos 10) task [] ≡ Reply.done (filled, row ∷ [])
unfolding create fill_defaults new_row or_else or_text null_str any
create_test = refl

ctag_test : compute_ctag (λ s. s) (λ n. "10") (scan_task row ∷ []) ≡ "10"
unfolding compute_ctag
ctag_test = refl

found : find "milk" (row ∷ []) ≡ some row
unfolding find has_id
found = refl

row-HasUniqueIds : HasUniqueIds (row ∷ [])
unfolding any
row-HasUniqueIds = (refl, tt)

no_task : any (has_id "milk") [] ≡ false
unfolding any
no_task = refl

create_lem_example :
    (t' : Task) × (rows' : List TaskRow) × (create generate (pos 10) task []
      ≡ Reply.done (t', rows'))
    × (get "milk" rows' ≡ Reply.done (shown generate (pos 10) task))
    × ((id : String) → "milk" ≢ id → get id rows' ≡ get id [])
create_lem_example = create_lem generate (pos 10) task [] no_task refl

delete_lem_example :
    (rows' : List TaskRow) × (delete (pos 20) "milk" (row ∷ []) ≡ Reply.done rows')
    × (find "milk" rows' ≡ some (tombstone (pos 20) row))
    × (get "milk" rows' ≡ Reply.not_found)
    × ((j : String) → "milk" ≢ j → find j rows' ≡ find j (row ∷ []))
delete_lem_example = delete_lem (pos 20) "milk" (row ∷ []) row row-HasUniqueIds found

purge_lem_example :
    IsPurge
      (pos 30)
      (tombstone (pos 20) row ∷ [])
      (hard_delete_older_than (pos 30) (tombstone (pos 20) row ∷ []))
purge_lem_example = purge_lem (pos 30) (tombstone (pos 20) row ∷ []) (unfold any in (refl, tt))

-- The tasks of the users 1 and 2.
abbrev cloud : List Task
cloud = record filled { user_id = pos 1 } ∷ record filled { user_id = pos 2 } ∷ []

writes_keep_others_example :
    keep (owned (pos 2)) (delete_for (pos 1) (pos 20) "milk" cloud) ≡ keep (owned (pos 2)) cloud
writes_keep_others_example =
    writes_keep_others (pos 1) (pos 2) cloud (delete_for (pos 1) (pos 20) "milk" cloud) refl
      (Write.deleted (pos 20) "milk")

writes-HasUniqueIds_example : HasUniqueIds (hard_delete_older_than (pos 30) (row ∷ [])).1
writes-HasUniqueIds_example =
    writes-HasUniqueIds (row ∷ []) (hard_delete_older_than (pos 30) (row ∷ [])).1
      (Step.purged (pos 30)) row-HasUniqueIds
