-- ===== src/Task.antt =====
-- internal/taskstore/model.go, internal/taskstore/mapping.go and internal/taskdb/store.go: a task,
-- its conversions, and the table of tasks as a list of its rows in the order of insertion.
use text.Mathlib.Text.{◌==◌}
use Prim.Native.String.{◌++◌ as str_append}
use boox_bridge.Prelude.{
  String, Bool, true, false, Option, none, some, if◌then◌else◌, List, [], ◌∷◌,
}
use boox_bridge.Prelude.Int.{ℤ, pos, ltb_int}
pub mod Store
pub mod Cloud
pub mod Statuses
pub mod Rows
pub mod Lifecycle
pub mod Purge
pub mod Tests

pub record Task : Type 0 where
  pub task_id : String
  pub task_list_id : Option String
  pub user_id : ℤ
  pub title : Option String
  pub detail : Option String
  pub last_modified : Option ℤ
  pub recurrence : Option String
  pub is_reminder_on : String
  pub status : Option String
  pub importance : Option String
  pub due_time : ℤ
  pub completed_time : Option ℤ
  pub links : Option String
  pub is_deleted : String
  pub ical_blob : Option String
  pub created_at : ℤ
  pub forestnote_notebook_id : Option String
  pub forestnote_page_id : Option String
  pub forestnote_notebook_name : Option String
  pub forestnote_source : Option String

unfoldable pub null_str : Option String → String
null_str none = ""
null_str (some s) = s

unfoldable pub sql_str : String → Option String
sql_str s = if s == "" then none else some s

unfoldable pub caldav_status : String → String
caldav_status s = if s == "completed" then "COMPLETED" else "NEEDS-ACTION"

unfoldable pub supernote_status : String → String
supernote_status s = if s == "COMPLETED" then "completed" else "needsAction"

-- The loop of ComputeCTag, before the number is written out.
unfoldable pub ctag_from : ℤ → List Task → ℤ
ctag_from max [] = max
ctag_from max (t ∷ tasks) = elim t.last_modified [
  | none ↦ ctag_from max tasks
  | some n ↦ ctag_from (if ltb_int max n then n else max) tasks
]

unfoldable pub ctag : List Task → ℤ
ctag tasks = ctag_from (pos 0) tasks

-- CompletionTime, in milliseconds.
unfoldable pub completion_time : Task → Option ℤ
unfolding null_str
completion_time t = if null_str t.status == "completed" then t.last_modified else none

-- `md5` is the hash in hexadecimal digits, and `format_int` is strconv.FormatInt to base 10.
module _ (md5 : String → String) (format_int : ℤ → String) where
  unfoldable pub generate_task_id : String → ℤ → String
  generate_task_id title created = md5 (str_append title (format_int created))

  unfoldable pub null_int_str : Option ℤ → String
  null_int_str none = "0"
  null_int_str (some n) = format_int n

  unfoldable pub compute_etag : Task → String
  unfolding null_str null_int_str
  compute_etag t = md5 (
      str_append t.task_id (
        str_append (null_str t.title) (
          str_append (null_str t.status)
            (str_append (format_int t.due_time) (null_int_str t.last_modified)))))

  unfoldable pub compute_ctag : List Task → String
  unfolding ctag
  compute_ctag tasks = format_int (ctag tasks)
