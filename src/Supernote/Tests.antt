-- ===== src/Supernote/Tests.antt =====
-- Test data for internal/notestore and internal/processor: two notes with a job each, and the properties
-- on them.
use boox_bridge.Prelude.{ℕ, String, ◌≡◌, refl, Option, none, some, List, [], ◌∷◌}
use boox_bridge.Prelude.Int.{ℤ, pos}
use boox_bridge.Prelude.Lists.{any, keep}
use boox_bridge.Prelude.Keys.{has}
use boox_bridge.Prelude.Result.{Result, ok, err}
use boox_bridge.Supernote.Rows.{JobStatus, eqb_status, FileType, NoteRow, Job, SupernoteDb}
use boox_bridge.Supernote.Queue.{has_status, enqueue, claim_next, Ending, process_job, get_job}
use boox_bridge.Supernote.Notes.{FileInfo, Entry, scan}
use boox_bridge.Supernote.Steps.{Step}
use boox_bridge.Supernote.Integrity.{IsIntact}
use boox_bridge.Supernote.Invariant.{Step-IsIntact}
use boox_bridge.Supernote.Claim.{IsClaimed, claim_next_lem}
use boox_bridge.Supernote.Scan.{IsScanned, scan_lem}

abbrev file_info : ℤ → FileInfo
file_info mtime = record { rel_path = "x.note"; ext = ".note"; size = 10; mtime = mtime }

abbrev note : String → NoteRow
note path = record {
  path = path;
  rel_path = "x.note";
  file_type = FileType.note;
  size_bytes = 10;
  mtime = pos 7;
  sha256 = none;
  backup_path = none;
  backed_up_at = none;
  created_at = pos 7000;
  updated_at = pos 9;
}

abbrev job : ℕ → String → JobStatus → ℤ → Job
job id path status queued_at = record {
  id = id;
  note_path = path;
  status = status;
  skip_reason = none;
  ocr_source = none;
  api_model = none;
  attempts = 0;
  last_error = none;
  queued_at = some queued_at;
  started_at = none;
  finished_at = none;
  requeue_after = none;
}

abbrev two_notes : SupernoteDb
two_notes = record {
  notes = note "/a" ∷ note "/b" ∷ [];
  jobs = job 1 "/a" JobStatus.pending (pos 5) ∷ job 2 "/b" JobStatus.pending (pos 3) ∷ [];
  content = [];
}

two_notes-IsIntact : IsIntact two_notes
unfolding has any
two_notes-IsIntact = record {
  linked = λ p there. there;
  notes_distinct = (refl, (refl, tt));
  jobs_distinct = (refl, (refl, tt));
  ids_distinct = (refl, (refl, tt));
}

-- One file as before, one that cannot be read, and a new one.
abbrev entries : List Entry
entries =
    Entry.directory "/"
    ∷ Entry.file "/a" (some (file_info (pos 7)))
    ∷ Entry.unreadable "/b"
    ∷ Entry.file "/c" (some (file_info (pos 8)))
    ∷ []

Step-IsIntact_example : IsIntact (scan (pos 20) entries two_notes).1
Step-IsIntact_example = Step-IsIntact (Step.scans (pos 20) entries two_notes) two_notes-IsIntact

claim_next_lem_example : IsClaimed (pos 20) two_notes (claim_next (pos 20) two_notes)
claim_next_lem_example =
    claim_next_lem (pos 20) two_notes two_notes-IsIntact (unfold any has_status eqb_status in refl)

scan_lem_example : IsScanned entries two_notes (scan (pos 20) entries two_notes)
scan_lem_example =
    scan_lem (pos 20) entries two_notes two_notes-IsIntact (unfold has any in (refl, (refl, tt)))

-- A job is at work on a note whose file the next scan does not find; the job of a new note gets its id,
-- and the end of the first is written on it.
abbrev rescanned : SupernoteDb
rescanned = (scan (pos 20) entries two_notes).1

abbrev requeued_rows : Result SupernoteDb
requeued_rows = enqueue (pos 30) none "/c" rescanned

abbrev ended : Result SupernoteDb → Option JobStatus
ended (err message) = none
ended (ok db) =
    elim (get_job "/c"
      (process_job (pos 40) (job 2 "/b" JobStatus.in_progress (pos 3)) (Ending.finished none) db)) [
        | none ↦ none
        | some j ↦ some j.status
      ]

reused_id : ended requeued_rows ≡ some JobStatus.done
unfolding enqueue scan process_job get_job any keep
reused_id = refl
