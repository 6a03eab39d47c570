-- ===== src/Supernote/Steps.antt =====
-- The operations of internal/notestore and internal/processor that change the tables, as a step
-- relation.
use boox_bridge.Prelude.{ℕ, String, ◌≡◌, Option, List}
use boox_bridge.Prelude.Int.{ℤ}
use boox_bridge.Prelude.Result.{ok}
use boox_bridge.Supernote.Rows.{Job, SupernoteDb}
use boox_bridge.Supernote.Queue.{
  enqueue, skip, unskip, claim_next, Ending, process_job, requeue_job, reclaim_stuck,
}
use boox_bridge.Supernote.Notes.{
  FileInfo, Entry, set_hash, transfer_job, rename_file, upsert_file, scan,
}

pub data Step : SupernoteDb → SupernoteDb → Type 0 where
  enqueues :
      (now : ℤ) (after : Option ℤ) (path : String) (db db' : SupernoteDb)
      → enqueue now after path db ≡ ok db'
      → Step db db'
  skips :
      (now : ℤ) (path reason : String) (db db' : SupernoteDb)
      → skip now path reason db ≡ ok db'
      → Step db db'
  unskips : (path : String) (db : SupernoteDb) → Step db (unskip path db)
  claims : (now : ℤ) (db : SupernoteDb) → Step db (claim_next now db).1
  processes :
      (now : ℤ) (j : Job) (ending : Ending) (db : SupernoteDb)
      → Step db (process_job now j ending db)
  requeues :
      (at_time : ℤ) (id : ℕ) (db db' : SupernoteDb)
      → requeue_job at_time id db ≡ ok db'
      → Step db db'
  reclaims : (cutoff : ℤ) (db : SupernoteDb) → Step db (reclaim_stuck cutoff db)
  hashes : (path hash : String) (db : SupernoteDb) → Step db (set_hash path hash db)
  transfers :
      (old new : String) (db db' : SupernoteDb) → transfer_job old new db ≡ ok db' → Step db db'
  renames :
      (old new : String) (db db' : SupernoteDb) → rename_file old new db ≡ ok db' → Step db db'
  upserts :
      (now : ℤ) (path : String) (info : FileInfo) (db : SupernoteDb)
      → Step db (upsert_file now path info db)
  scans : (now : ℤ) (entries : List Entry) (db : SupernoteDb) → Step db (scan now entries db).1
