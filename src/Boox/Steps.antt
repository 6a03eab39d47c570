-- ===== src/Boox/Steps.antt =====
-- The operations of internal/booxpipeline/store.go that change the tables, as a step relation.
use boox_bridge.Prelude.{ℕ, String, ◌≡◌}
use boox_bridge.Prelude.Int.{ℤ}
use boox_bridge.Prelude.Result.{ok}
use boox_bridge.Boox.Rows.{NoteDb}
use boox_bridge.Boox.Notes.{
  Files, upsert_note, enqueue_job, update_note_path, move_note, delete_note,
}
use boox_bridge.Boox.Dates.{Calendar, reconcile_created_at_from_filename}
use boox_bridge.Boox.Queue.{
  claim_next_job, complete_job, fail_job, skip_note, unskip_note, retry_all_failed,
  reclaim_all_in_progress, reclaim_stuck_jobs,
}

pub data Step : NoteDb → NoteDb → Type 0 where
  upsert :
      (now : ℤ) (path note_id title device_model note_type folder : String) (page_count : ℤ)
      (file_hash : String) (created_at : ℤ) (db : NoteDb)
      → Step db (
          upsert_note now path note_id title device_model note_type folder page_count file_hash
            created_at db)
  enqueue :
      (files : Files) (millis seconds : ℤ) (path : String) (db : NoteDb)
      → Step db (enqueue_job files millis seconds path db)
  claim_next : (now : ℤ) (db : NoteDb) → Step db (claim_next_job now db).1
  complete :
      (now : ℤ) (id : ℕ) (ocr_source api_model : String) (db : NoteDb)
      → Step db (complete_job now id ocr_source api_model db)
  fail : (now : ℤ) (id : ℕ) (message : String) (db : NoteDb) → Step db (fail_job now id message db)
  update_path :
      (old new : String) (db db' : NoteDb) → update_note_path old new db ≡ ok db' → Step db db'
  move :
      (now : ℤ) (old new folder : String) (db db' : NoteDb)
      → move_note now old new folder db ≡ ok db'
      → Step db db'
  skip : (path reason : String) (db : NoteDb) → Step db (skip_note path reason db)
  unskip : (now : ℤ) (path : String) (db : NoteDb) → Step db (unskip_note now path db)
  delete : (path : String) (db : NoteDb) → Step db (delete_note path db)
  retry : (now : ℤ) (db : NoteDb) → Step db (retry_all_failed now db).1
  reclaim_all : (db : NoteDb) → Step db (reclaim_all_in_progress db)
  reclaim_stuck : (cutoff : ℤ) (db : NoteDb) → Step db (reclaim_stuck_jobs cutoff db)
  reconcile :
      (cal : Calendar) (now : ℤ) (db : NoteDb)
      → Step db (reconcile_created_at_from_filename cal now db).1
