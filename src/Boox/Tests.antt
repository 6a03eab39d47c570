-- ===== src/Boox/Tests.antt =====
-- Test data for internal/booxpipeline/store.go: a note with three jobs, and the properties on it.
use mathlib.Core.Option
use boox_bridge.Prelude.{ℕ, String, ◌≡◌, refl, none, some, List, [], ◌∷◌, arith}
use boox_bridge.Prelude.Int.{ℤ, pos}
use boox_bridge.Prelude.Lists.{any}
use boox_bridge.Prelude.Result.{ok}
use boox_bridge.Boox.Rows.{BooxNote, JobStatus, BooxJob, NoteDb, eqb_status, path_is, change_where}
use boox_bridge.Boox.Notes.{
  Files, enqueue_job, move_note, moved, renamed, rename_notes, rename_jobs, rename_content,
  rename_all, content_clashes,
}
use boox_bridge.Boox.Dates.{date_prefix, read_digits}
use boox_bridge.Boox.Queue.{
  requeue_due, is_eligible, earlier, next_job, start, claim, claim_next_job,
}
use boox_bridge.Boox.Steps.{Step}
use boox_bridge.Boox.Linked.{has_note, dangling}
use boox_bridge.Boox.Integrity.{IsSound, Step-IsSound}
use boox_bridge.Boox.Lifecycle.{Moves, status_of, Step-Moves}
use boox_bridge.Boox.Claim.{IsClaim, claim_next_job_lem}
use boox_bridge.Boox.Rename.{HasMoved, move_note_lem}

abbrev note : String → String → ℤ → BooxNote
note path folder updated_at = record {
  path = path;
  note_id = "n1";
  title = "a";
  device_model = "Palma";
  note_type = "note";
  folder = folder;
  page_count = pos 2;
  file_hash = "h";
  version = 1;
  created_at = pos 1;
  updated_at = updated_at;
}

abbrev job : ℕ → String → JobStatus → ℤ → BooxJob
job id path status queued_at = record {
  id = id;
  note_path = path;
  status = status;
  skip_reason = "";
  ocr_source = "";
  api_model = "";
  attempts = 0;
  last_error = "";
  queued_at = queued_at;
  started_at = pos 0;
  finished_at = pos 0;
  requeue_after = none;
}

abbrev three_jobs : String → List BooxJob
three_jobs path =
    job 1 path JobStatus.failed (pos 3)
    ∷ job 2 path JobStatus.pending (pos 9)
    ∷ job 3 path JobStatus.pending (pos 5)
    ∷ []

abbrev db : NoteDb
db = record {
  notes = note "a.note" "" (pos 1) ∷ [];
  jobs = three_jobs "a.note";
  sequence = 3;
  content = record { note_path = "a.note"; page = 0 } ∷ [];
}

db-IsSound : IsSound db
db-IsSound = record {
  linked = unfold dangling has_note any path_is in refl;
  distinct = (unfold has_note any in refl, tt);
  ascending = (omega arith, (omega arith, (omega arith, omega arith)));
}

-- Of the two pending jobs the one that was queued first is taken.
claimed_test :
    (claim_next_job (pos 10) db).0
    ≡ some (start (pos 10) (job 3 "a.note" JobStatus.pending (pos 5)))
unfolding claim_next_job next_job is_eligible requeue_due eqb_status earlier claim
claimed_test = refl

claim_next_job_lem_example : IsClaim (pos 10) db (claim_next_job (pos 10) db)
claim_next_job_lem_example = claim_next_job_lem (pos 10) db db-IsSound

abbrev files : Files
files = record {
  title_of = λ path. "b";
  trim_space = λ title. title;
  byte_length = λ title. 1;
  first_bytes = λ n title. title;
  parse_date = λ title. none;
  mod_time = λ path. some (pos 7);
}

Step-IsSound_example : IsSound (enqueue_job files (pos 20000) (pos 20) "b.note" db)
Step-IsSound_example = Step-IsSound (Step.enqueue files (pos 20000) (pos 20) "b.note" db) db-IsSound

Step-Moves_example : Moves (status_of 3 db.jobs) (status_of 3 (claim_next_job (pos 10) db).1.jobs)
Step-Moves_example = Step-Moves (Step.claim_next (pos 10) db) db-IsSound 3

abbrev moved_db : NoteDb
moved_db = record {
  notes = note "work/a.note" "work" (pos 30) ∷ [];
  jobs = three_jobs "work/a.note";
  sequence = 3;
  content = record { note_path = "work/a.note"; page = 0 } ∷ [];
}

moved_test : move_note (pos 30) "a.note" "work/a.note" "work" db ≡ ok moved_db
unfolding move_note rename_all rename_notes rename_jobs rename_content content_clashes renamed moved
    change_where path_is any
moved_test = refl

move_note_lem_example :
    HasMoved "a.note" "work/a.note" (moved (pos 30) "work/a.note" "work") db moved_db
move_note_lem_example =
    move_note_lem (pos 30) "a.note" "work/a.note" "work" db moved_db refl db-IsSound
      (unfold has_note any path_is in refl) moved_test

-- The date is read from the name.
prefix_test : date_prefix "20260404 plan.note" ≡ some (2026, 4, 4)
unfolding date_prefix read_digits Option.bind
prefix_test = refl
