-- ===== src/Boox/Rows.antt =====
-- The tables boox_notes, boox_jobs and note_content of internal/notedb/schema.go, as
-- internal/booxpipeline/store.go reads them, and what its statements share.
use boox_bridge.Prelude.{ℕ, String, Bool, Option, List, ◌==◌}
use boox_bridge.Prelude.Text.{str_eq}
use boox_bridge.Prelude.Int.{ℤ}
pub use boox_bridge.Notedb.{JobStatus, NoteContent}
unfoldable pub use boox_bridge.Notedb.{eqb_status, first_row, if_none, latest, change_where}

pub record BooxNote : Type 0 where
  pub path : String
  pub note_id : String
  pub title : String
  pub device_model : String
  pub note_type : String
  pub folder : String
  pub page_count : ℤ
  pub file_hash : String
  pub version : ℕ
  pub created_at : ℤ
  pub updated_at : ℤ

pub record BooxJob : Type 0 where
  pub id : ℕ
  pub note_path : String
  pub status : JobStatus
  pub skip_reason : String
  pub ocr_source : String
  pub api_model : String
  pub attempts : ℕ
  pub last_error : String
  pub queued_at : ℤ
  pub started_at : ℤ
  pub finished_at : ℤ
  pub requeue_after : Option ℤ

-- The tables, and the AUTOINCREMENT sequence of boox_jobs.
pub record NoteDb : Type 0 where
  pub notes : List BooxNote
  pub jobs : List BooxJob
  pub sequence : ℕ
  pub content : List NoteContent

unfoldable pub path_is : String → BooxNote → Bool
path_is path n = str_eq n.path path

unfoldable pub of_note : String → BooxJob → Bool
of_note path j = str_eq j.note_path path

unfoldable pub id_is : ℕ → BooxJob → Bool
id_is id j = j.id == id
