-- ===== src/Boox/Queue.antt =====
-- internal/booxpipeline/store.go: the operations on jobs. A clock is an argument, in seconds.
use boox_bridge.Prelude.{
  ℕ, ◌+◌, String, Bool, true, not, ◌&&◌, Option, none, some, if◌then◌else◌, List, [], ◌∷◌,
}
use boox_bridge.Prelude.Text.{str_eq}
use boox_bridge.Prelude.Int.{ℤ, pos, ltb_int}
use boox_bridge.Prelude.Lists.{length, keep, any}
use boox_bridge.Boox.Rows.{
  BooxNote, JobStatus, BooxJob, NoteDb, eqb_status, path_is, of_note, id_is, first_row, latest,
  change_where,
}

-- status = 'pending' AND (requeue_after IS NULL OR requeue_after <= now)
unfoldable pub requeue_due : ℤ → Option ℤ → Bool
requeue_due now none = true
requeue_due now (some t) = not (ltb_int now t)

unfoldable pub is_eligible : ℤ → BooxJob → Bool
unfolding eqb_status requeue_due
is_eligible now j = eqb_status j.status JobStatus.pending && requeue_due now j.requeue_after

-- The earlier of the two by queued_at, the first of equal ones.
unfoldable pub earlier : BooxJob → Option BooxJob → BooxJob
earlier j none = j
earlier j (some k) = if ltb_int k.queued_at j.queued_at then k else j

-- ORDER BY queued_at ASC LIMIT 1; of equal times SQLite finds the row with the least id.
unfoldable pub next_job : ℤ → List BooxJob → Option BooxJob
unfolding is_eligible earlier
next_job now [] = none
next_job now (j ∷ jobs) =
    let rest = next_job now jobs in if is_eligible now j then some (earlier j rest) else rest

unfoldable pub start : ℤ → BooxJob → BooxJob
start now j = record j {
  status = JobStatus.in_progress;
  started_at = now;
  attempts = j.attempts + 1;
}

-- RETURNING: the columns that it does not name keep Go's zero values.
unfoldable pub scan_returned : BooxJob → BooxJob
scan_returned j = record j {
  skip_reason = "";
  ocr_source = "";
  api_model = "";
  finished_at = pos 0;
  requeue_after = none;
}

unfoldable pub claim : ℤ → Option BooxJob → NoteDb → Option BooxJob × NoteDb
unfolding change_where id_is start scan_returned
claim now none db = (none, db)
claim now (some j) db = (
  some (scan_returned (start now j)),
  record db { jobs = change_where (id_is j.id) (start now) db.jobs },
)

unfoldable pub claim_next_job : ℤ → NoteDb → Option BooxJob × NoteDb
unfolding next_job claim
claim_next_job now db = claim now (next_job now db.jobs) db

unfoldable pub finish : ℤ → String → String → BooxJob → BooxJob
finish now ocr_source api_model j = record j {
  status = JobStatus.done;
  ocr_source = ocr_source;
  api_model = api_model;
  finished_at = now;
}

unfoldable pub complete_job : ℤ → ℕ → String → String → NoteDb → NoteDb
unfolding change_where id_is finish
complete_job now id ocr_source api_model db = record db {
  jobs = change_where (id_is id) (finish now ocr_source api_model) db.jobs;
}

unfoldable pub give_up : ℤ → String → BooxJob → BooxJob
give_up now message j = record j {
  status = JobStatus.failed;
  last_error = message;
  finished_at = now;
}

unfoldable pub fail_job : ℤ → ℕ → String → NoteDb → NoteDb
unfolding change_where id_is give_up
fail_job now id message db = record db {
  jobs = change_where (id_is id) (give_up now message) db.jobs;
}

-- The SELECT of GetLatestJob does not read requeue_after.
unfoldable pub scan_latest : Option BooxJob → Option BooxJob
scan_latest none = none
scan_latest (some j) = some (record j { requeue_after = none })

unfoldable pub get_latest_job : String → NoteDb → Option BooxJob
unfolding latest of_note scan_latest
get_latest_job path db = scan_latest (latest (of_note path) db.jobs)

unfoldable pub has_done_job_with_hash : String → String → NoteDb → Bool
unfolding path_is of_note eqb_status
has_done_job_with_hash path file_hash db =
    not (str_eq file_hash "")
    && (any (λ (n : BooxNote). path_is path n && str_eq n.file_hash file_hash) db.notes
        && any (λ (j : BooxJob). of_note path j && eqb_status j.status JobStatus.done) db.jobs)

unfoldable pub skip_job : String → BooxJob → BooxJob
skip_job reason j = record j { status = JobStatus.skipped; skip_reason = reason }

unfoldable pub change_found :
    Option BooxJob → String → (BooxJob → Bool) → (BooxJob → BooxJob) → NoteDb → NoteDb
unfolding change_where of_note id_is
change_found none path p change db = db
change_found (some l) path p change db = record db {
  jobs = change_where (λ (j : BooxJob). of_note path j && (p j && id_is l.id j)) change db.jobs;
}

-- An UPDATE of the latest job of a note, where it passes a test.
unfoldable pub change_latest : String → (BooxJob → Bool) → (BooxJob → BooxJob) → NoteDb → NoteDb
unfolding latest of_note change_found
change_latest path p change db = change_found (latest (of_note path) db.jobs) path p change db

unfoldable pub skip_note : String → String → NoteDb → NoteDb
unfolding change_latest skip_job
skip_note path reason db = change_latest path (λ j. true) (skip_job reason) db

unfoldable pub unskip_job : ℤ → BooxJob → BooxJob
unskip_job now j = record j { status = JobStatus.pending; skip_reason = ""; queued_at = now }

unfoldable pub unskip_note : ℤ → String → NoteDb → NoteDb
unfolding change_latest unskip_job eqb_status
unskip_note now path db =
    change_latest path (λ (j : BooxJob). eqb_status j.status JobStatus.skipped) (unskip_job now) db

unfoldable pub count : JobStatus → List BooxJob → ℕ
unfolding eqb_status
count s jobs = length (keep (λ (j : BooxJob). eqb_status j.status s) jobs)

pub record QueueStatus : Type 0 where
  pub active_title : String
  pub active_pages : ℤ
  pub pending : ℕ
  pub in_progress : ℕ
  pub done : ℕ
  pub failed : ℕ

-- The note of the first job in progress that has one.
unfoldable pub active_note : List BooxNote → List BooxJob → Option BooxNote
unfolding eqb_status first_row path_is
active_note notes [] = none
active_note notes (j ∷ jobs) =
    let rest = active_note notes jobs in
    if eqb_status j.status JobStatus.in_progress
    then (elim (first_row (path_is j.note_path) notes) [ some n ↦ some n | none ↦ rest ])
    else rest

unfoldable pub get_queue_status : NoteDb → QueueStatus
unfolding count active_note
get_queue_status db =
    let active = active_note db.notes db.jobs in
    record {
      active_title = elim active [ some n ↦ n.title | none ↦ "" ];
      active_pages = elim active [ some n ↦ n.page_count | none ↦ pos 0 ];
      pending = count JobStatus.pending db.jobs;
      in_progress = count JobStatus.in_progress db.jobs;
      done = count JobStatus.done db.jobs;
      failed = count JobStatus.failed db.jobs;
    }

unfoldable pub retry_job : ℤ → BooxJob → BooxJob
retry_job now j = record j { status = JobStatus.pending; last_error = ""; queued_at = now }

-- With the number of jobs changed.
unfoldable pub retry_all_failed : ℤ → NoteDb → ℕ × NoteDb
unfolding count change_where eqb_status retry_job
retry_all_failed now db = (
  count JobStatus.failed db.jobs,
  record db {
    jobs =
        change_where (λ (j : BooxJob). eqb_status j.status JobStatus.failed) (retry_job now)
          db.jobs;
  },
)

unfoldable pub reclaim : BooxJob → BooxJob
reclaim j = record j { status = JobStatus.pending; attempts = j.attempts + 1 }

unfoldable pub reclaim_all_in_progress : NoteDb → NoteDb
unfolding change_where eqb_status reclaim
reclaim_all_in_progress db = record db {
  jobs = change_where (λ (j : BooxJob). eqb_status j.status JobStatus.in_progress) reclaim db.jobs;
}

-- `cutoff` is the clock less the timeout.
unfoldable pub reclaim_stuck_jobs : ℤ → NoteDb → NoteDb
unfolding change_where eqb_status reclaim
reclaim_stuck_jobs cutoff db = record db {
  jobs =
      change_where
        (λ (j : BooxJob). eqb_status j.status JobStatus.in_progress && ltb_int j.started_at cutoff)
        reclaim db.jobs;
}
