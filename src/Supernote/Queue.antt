-- ===== src/Supernote/Queue.antt =====
-- internal/processor: the queue of jobs. A clock is an argument, in seconds; of SQLite's errors those of
-- the constraints are modelled.
use Prim.Native.String.{◌++◌ as str_append}
use boox_bridge.Prelude.{
  ℕ, ◌+◌, String, Bool, true, false, not, ◌&&◌, ◌||◌, Option, none, some, if◌then◌else◌, List, [],
  ◌∷◌, ◌++◌,
}
use boox_bridge.Prelude.Text.{str_eq}
use boox_bridge.Prelude.Int.{ℤ, ltb_int}
use boox_bridge.Prelude.Lists.{length, keep, any}
use boox_bridge.Prelude.Result.{Result, ok, err}
use boox_bridge.Prelude.Picks.{pick}
use boox_bridge.Supernote.Rows.{
  JobStatus, eqb_status, first_row, change_where, NoteRow, Job, SupernoteDb, at_path, for_path,
  job_is, next_id,
}

unfoldable pub has_status : JobStatus → Job → Bool
unfolding eqb_status
has_status s j = eqb_status j.status s

unfoldable pub is_finished : Job → Bool
unfolding has_status
is_finished j =
    has_status JobStatus.done j || (has_status JobStatus.failed j || has_status JobStatus.skipped j)

unfoldable pub blank_job : ℕ → String → JobStatus → ℤ → Job
blank_job id path status now = record {
  id = id;
  note_path = path;
  status = status;
  skip_reason = none;
  ocr_source = none;
  api_model = none;
  attempts = 0;
  last_error = none;
  queued_at = some now;
  started_at = none;
  finished_at = none;
  requeue_after = none;
}

-- INSERT of a job, whose note must be there.
unfoldable pub insert_job : Job → SupernoteDb → Result SupernoteDb
unfolding at_path
insert_job j db =
    if any (at_path j.note_path) db.notes
    then ok (record db { jobs = db.jobs ++ j ∷ [] })
    else err (str_append "enqueue " (str_append j.note_path ": FOREIGN KEY constraint failed"))

unfoldable pub requeued : ℤ → Option ℤ → Job → Job
requeued now after j = record j {
  status = JobStatus.pending;
  queued_at = some now;
  requeue_after = after;
}

-- `after` is the time from which the job may be claimed, where there is a delay.
unfoldable pub enqueue : ℤ → Option ℤ → String → SupernoteDb → Result SupernoteDb
unfolding for_path is_finished requeued change_where insert_job blank_job next_id
enqueue now after path db =
    if any (for_path path) db.jobs
    then ok (record db {
      jobs = change_where (λ j. for_path path j && is_finished j) (requeued now after) db.jobs;
    })
    else insert_job
        (record (blank_job (next_id db.jobs) path JobStatus.pending now) { requeue_after = after })
        db

unfoldable pub set_skipped : String → Job → Job
set_skipped reason j = record j { status = JobStatus.skipped; skip_reason = some reason }

unfoldable pub skip : ℤ → String → String → SupernoteDb → Result SupernoteDb
unfolding for_path set_skipped change_where insert_job blank_job next_id
skip now path reason db =
    if any (for_path path) db.jobs
    then ok (record db { jobs = change_where (for_path path) (set_skipped reason) db.jobs })
    else insert_job (set_skipped reason (blank_job (next_id db.jobs) path JobStatus.skipped now)) db

unfoldable pub set_pending : Job → Job
set_pending j = record j { status = JobStatus.pending; skip_reason = none }

unfoldable pub unskip : String → SupernoteDb → SupernoteDb
unfolding for_path has_status set_pending change_where
unskip path db = record db {
  jobs = change_where (λ j. for_path path j && has_status JobStatus.skipped j) set_pending db.jobs;
}

unfoldable pub get_job : String → SupernoteDb → Option Job
unfolding first_row for_path
get_job path db = first_row (for_path path) db.jobs

-- The order of SQLite on a column that may be NULL, which comes first.
unfoldable pub null_lt : Option ℤ → Option ℤ → Bool
null_lt none none = false
null_lt none (some b) = true
null_lt (some a) none = false
null_lt (some a) (some b) = ltb_int a b

unfoldable pub delay_over : ℤ → Option ℤ → Bool
delay_over now none = true
delay_over now (some t) = not (ltb_int now t)

unfoldable pub is_claimable : ℤ → Job → Bool
unfolding has_status delay_over
is_claimable now j = has_status JobStatus.pending j && delay_over now j.requeue_after

-- ORDER BY queued_at ASC; of equal times SQLite finds the row with the least id.
unfoldable pub queued_before : Job → Job → Bool
unfolding null_lt
queued_before j k = null_lt j.queued_at k.queued_at

-- ORDER BY started_at DESC
unfoldable pub started_after : Job → Job → Bool
unfolding null_lt
started_after j k = null_lt k.started_at j.started_at

unfoldable pub set_started : ℤ → Job → Job
set_started now j = record j { status = JobStatus.in_progress; started_at = some now }

-- The UPDATE of claimNext, where it has found a job.
unfoldable pub mark_started : ℤ → Option Job → List Job → List Job
unfolding change_where job_is set_started
mark_started now none jobs = jobs
mark_started now (some j) jobs = change_where (job_is j.id) (set_started now) jobs

-- The columns that the SELECT does not name are not read.
unfoldable pub scan_claimed : Job → Job
scan_claimed j = record {
  id = j.id;
  note_path = j.note_path;
  status = j.status;
  skip_reason = none;
  ocr_source = none;
  api_model = none;
  attempts = j.attempts;
  last_error = none;
  queued_at = none;
  started_at = none;
  finished_at = none;
  requeue_after = none;
}

-- Its second statement, which looks the job up again.
unfoldable pub look_up_started : Option Job → List Job → Result (Option Job)
unfolding pick has_status started_after scan_claimed
look_up_started none jobs = ok none
look_up_started (some j) jobs = elim (pick (has_status JobStatus.in_progress) started_after jobs) [
  | none ↦ err "claimNext lookup: sql: no rows in result set"
  | some k ↦ ok (some (scan_claimed k))
]

unfoldable pub claim_next : ℤ → SupernoteDb → Result (Option Job) × SupernoteDb
unfolding pick is_claimable queued_before mark_started look_up_started
claim_next now db =
    let found = pick (is_claimable now) queued_before db.jobs in
    let jobs = mark_started now found db.jobs in
    (look_up_started found jobs, record db { jobs = jobs })

unfoldable pub set_done : ℤ → String → Job → Job
set_done now message j = record j {
  status = if str_eq message "" then JobStatus.done else JobStatus.failed;
  last_error = some message;
  finished_at = some now;
  attempts = j.attempts + 1;
}

unfoldable pub mark_done : ℤ → ℕ → String → SupernoteDb → SupernoteDb
unfolding change_where job_is set_done
mark_done now id message db = record db {
  jobs = change_where (job_is id) (set_done now message) db.jobs;
}

unfoldable pub set_requeued : ℤ → Job → Job
set_requeued at_time j = record j {
  status = JobStatus.pending;
  requeue_after = some at_time;
  attempts = j.attempts + 1;
}

unfoldable pub is_running : ℕ → Job → Bool
unfolding job_is has_status
is_running id j = job_is id j && has_status JobStatus.in_progress j

unfoldable pub requeue_job : ℤ → ℕ → SupernoteDb → Result SupernoteDb
unfolding is_running change_where set_requeued
requeue_job at_time id db =
    if any (is_running id) db.jobs
    then ok (record db { jobs = change_where (is_running id) (set_requeued at_time) db.jobs })
    else err "requeue job: job not in in_progress status"

-- A comparison with NULL is not true.
unfoldable pub older_than : ℤ → Option ℤ → Bool
older_than cutoff none = false
older_than cutoff (some t) = ltb_int t cutoff

unfoldable pub set_reclaimed : Job → Job
set_reclaimed j = record j {
  status = JobStatus.pending;
  started_at = none;
  attempts = j.attempts + 1;
}

unfoldable pub reclaim_stuck : ℤ → SupernoteDb → SupernoteDb
unfolding has_status older_than change_where set_reclaimed
reclaim_stuck cutoff db = record db {
  jobs =
      change_where
        (λ (j : Job). has_status JobStatus.in_progress j && older_than cutoff j.started_at)
        set_reclaimed db.jobs;
}

-- How executeJob has ended.
pub data Ending : Type 0 where
  skipped : (reason : String) → Ending
  failed : (message : String) → Ending
  finished : (hash : Option String) → Ending

unfoldable pub set_sha256 : String → NoteRow → NoteRow
set_sha256 hash n = record n { sha256 = some hash }

unfoldable pub store_hash : String → Option String → SupernoteDb → SupernoteDb
unfolding at_path change_where set_sha256
store_hash path none db = db
store_hash path (some hash) db = record db {
  notes = change_where (at_path path) (set_sha256 hash) db.notes;
}

-- What processJob writes after executeJob.
unfoldable pub process_job : ℤ → Job → Ending → SupernoteDb → SupernoteDb
unfolding change_where job_is set_skipped mark_done store_hash
process_job now j (Ending.skipped reason) db = record db {
  jobs = change_where (job_is j.id) (set_skipped reason) db.jobs;
}
process_job now j (Ending.failed message) db = mark_done now j.id message db
process_job now j (Ending.finished hash) db = mark_done now j.id "" (store_hash j.note_path hash db)

pub record ProcessorStatus : Type 0 where
  pub running : Bool
  pub pending : ℕ
  pub in_flight : ℕ
  pub done : ℕ
  pub failed : ℕ

unfoldable pub count_status : JobStatus → SupernoteDb → ℕ
unfolding has_status
count_status s db = length (keep (has_status s) db.jobs)

unfoldable pub processor_status : Bool → SupernoteDb → ProcessorStatus
unfolding count_status
processor_status running db = record {
  running = running;
  pending = count_status JobStatus.pending db;
  in_flight = count_status JobStatus.in_progress db;
  done = count_status JobStatus.done db;
  failed = count_status JobStatus.failed db;
}
