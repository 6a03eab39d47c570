-- ===== src/Supernote/Rows.antt =====
-- The tables notes, jobs and note_content of internal/notedb/schema.go, as internal/notestore and
-- internal/processor use them. A column that may be NULL is an Option.
use boox_bridge.Prelude.{ℕ, suc, String, Bool, Option, if◌then◌else◌, List, [], ◌∷◌, ◌==◌, ltb}
use boox_bridge.Prelude.Text.{str_eq}
use boox_bridge.Prelude.Int.{ℤ}
pub use boox_bridge.Notedb.{JobStatus, NoteContent}
unfoldable pub use boox_bridge.Notedb.{eqb_status, first_row, change_where}

pub data FileType : Type 0 where
  note pdf epub other : FileType

pub record NoteRow : Type 0 where
  pub path : String
  pub rel_path : String
  pub file_type : FileType
  pub size_bytes : ℕ
  pub mtime : ℤ
  pub sha256 : Option String
  pub backup_path : Option String
  pub backed_up_at : Option ℤ
  pub created_at : ℤ
  pub updated_at : ℤ

pub record Job : Type 0 where
  pub id : ℕ
  pub note_path : String
  pub status : JobStatus
  pub skip_reason : Option String
  pub ocr_source : Option String
  pub api_model : Option String
  pub attempts : ℕ
  pub last_error : Option String
  pub queued_at : Option ℤ
  pub started_at : Option ℤ
  pub finished_at : Option ℤ
  pub requeue_after : Option ℤ

pub record SupernoteDb : Type 0 where
  pub notes : List NoteRow
  pub jobs : List Job
  pub content : List NoteContent

unfoldable pub at_path : String → NoteRow → Bool
at_path path n = str_eq n.path path

unfoldable pub for_path : String → Job → Bool
for_path path j = str_eq j.note_path path

unfoldable pub job_is : ℕ → Job → Bool
job_is id j = j.id == id

-- The id of a new row of a table with an INTEGER PRIMARY KEY: one more than the greatest.
unfoldable pub max_id : List Job → ℕ
max_id [] = 0
max_id (j ∷ jobs) = let m = max_id jobs in if ltb m j.id then j.id else m

unfoldable pub next_id : List Job → ℕ
unfolding max_id
next_id jobs = suc (max_id jobs)
