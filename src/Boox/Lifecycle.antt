-- ===== src/Boox/Lifecycle.antt =====
-- The life of a job: which changes of its status the operations of the store can make.
use boox_bridge.Prelude.{
  ℕ, ◌≤◌, String, ◌≡◌, refl, sym, ap, subst, ◌∙◌, inl, inr, Bool, true, Option, none, some,
  if◌then◌else◌, List, [], ◌∷◌, ◌++◌, ◌==◌, Bool-cases, arith,
}
use boox_bridge.Prelude.Int.{ℤ}
use boox_bridge.Prelude.Lists.{keep}
use boox_bridge.Prelude.Result.{ok, ok-injective, bind-eq-ok}
use boox_bridge.Boox.Rows.{
  latest, of_note, BooxNote, BooxJob, JobStatus, NoteDb, id_is, first_row, change_where, eqb_status,
}
use boox_bridge.Notedb.{status_is}
use boox_bridge.Boox.Notes.{
  upsert_note, new_job, enqueue_job, rename_notes, rename_jobs, rename_content, rename_all,
  with_path, update_note_path, moved, move_note, delete_note,
}
use boox_bridge.Boox.Dates.{reconcile_created_at_from_filename}
use boox_bridge.Boox.Queue.{
  is_eligible, start, claim, next_job, claim_next_job, finish, complete_job, give_up, fail_job,
  skip_job, change_found, change_latest, skip_note, unskip_job, unskip_note, retry_job,
  retry_all_failed, reclaim, reclaim_all_in_progress, reclaim_stuck_jobs,
}
use boox_bridge.Boox.Steps.{Step}
use boox_bridge.Boox.Linked.{Ascending}
use boox_bridge.Boox.Integrity.{IsSound}
use boox_bridge.Boox.Claim.{first_row-id_is, IsNext, next_job-IsNext}

-- The abstract machine of one job; `none` where there is no job.
pub data Moves : Option JobStatus → Option JobStatus → Type 0 where
  stays : (s : Option JobStatus) → Moves s s
  enqueued : Moves none (some JobStatus.pending)
  started : Moves (some JobStatus.pending) (some JobStatus.in_progress)
  completed : (s : JobStatus) → Moves (some s) (some JobStatus.done)
  gave_up : (s : JobStatus) → Moves (some s) (some JobStatus.failed)
  skipped : (s : JobStatus) → Moves (some s) (some JobStatus.skipped)
  unskipped : Moves (some JobStatus.skipped) (some JobStatus.pending)
  retried : Moves (some JobStatus.failed) (some JobStatus.pending)
  reclaimed : Moves (some JobStatus.in_progress) (some JobStatus.pending)
  removed : (s : JobStatus) → Moves (some s) none

unfoldable pub status_of : ℕ → List BooxJob → Option JobStatus
unfolding id_is
status_of i [] = none
status_of i (j ∷ jobs) = let rest = status_of i jobs in if id_is i j then some j.status else rest

-- A change that is a move of each job it may reach under the id.
change_where-Moves :
    (i : ℕ) (p : BooxJob → Bool) (change : BooxJob → BooxJob) (jobs : List BooxJob)
    → ((j : BooxJob) → (change j).id ≡ j.id)
    → ((j : BooxJob)
        → first_row (id_is i) jobs ≡ some j
        → p j ≡ true
        → Moves (some j.status) (some (change j).status))
    → Moves (status_of i jobs) (status_of i (change_where p change jobs))
unfolding status_of first_row change_where id_is
change_where-Moves i p change [] ids legal = Moves.stays none
change_where-Moves i p change (j ∷ jobs) ids legal =
    let rest = change_where-Moves i p change jobs ids in
    elim (Bool-cases (j.id == i)) [
      | inl m ↦ elim (Bool-cases (p j)) [
        | inl e ↦ rw (m, e, ap (λ n. n == i) (ids j) ∙ m) (legal j (rw m refl) e)
        | inr e ↦ rw (m, e, m) (Moves.stays (some j.status))
      ]
      | inr m ↦ elim (Bool-cases (p j)) [
        | inl e ↦ rw (m, e, ap (λ n. n == i) (ids j) ∙ m) (rest (λ k f. legal k (rw m f)))
        | inr e ↦ rw (m, e, m) (rest (λ k f. legal k (rw m f)))
      ]
    ]

append-Moves :
    (i : ℕ) (new : BooxJob) (jobs : List BooxJob)
    → new.status ≡ JobStatus.pending
    → Moves (status_of i jobs) (status_of i (jobs ++ new ∷ []))
unfolding status_of id_is
append-Moves i new [] e = elim (Bool-cases (new.id == i)) [
  | inl m ↦ rw (m, e) Moves.enqueued
  | inr m ↦ rw m (Moves.stays none)
]
append-Moves i new (j ∷ jobs) e =
    let rest = append-Moves i new jobs e in
    elim (Bool-cases (j.id == i)) [ inl m ↦ rw m (Moves.stays (some j.status)) | inr m ↦ rw m rest ]

status_of-above :
    (i low sequence : ℕ) (jobs : List BooxJob)
    → i ≤ low
    → Ascending low jobs sequence
    → (p : BooxJob → Bool) → status_of i (keep p jobs) ≡ none
unfolding status_of keep id_is
status_of-above i low sequence [] h a p = refl
status_of-above i low sequence (j ∷ jobs) h a p =
    ground (arith, status_of-above i j.id sequence jobs (omega (arith, h, a.0)) a.1 p, h, a.0)

keep-Moves :
    (i low sequence : ℕ) (p : BooxJob → Bool) (jobs : List BooxJob)
    → Ascending low jobs sequence
    → Moves (status_of i jobs) (status_of i (keep p jobs))
unfolding status_of keep id_is
keep-Moves i low sequence p [] a = Moves.stays none
keep-Moves i low sequence p (j ∷ jobs) a =
    let rest = keep-Moves i j.id sequence p jobs a.1 in
    elim (Bool-cases (j.id == i)) [
      | inl m ↦ elim (Bool-cases (p j)) [
        | inl e ↦ rw (m, e, m) (Moves.stays (some j.status))
        | inr e ↦
            rw (m, e, status_of-above i j.id sequence jobs (ground (arith, m)) a.1 p)
              (Moves.removed j.status)
      ]
      | inr m ↦ elim (Bool-cases (p j)) [ inl e ↦ rw (m, e, m) rest | inr e ↦ rw (m, e) rest ]
    ]

status_of-rename_jobs :
    (i : ℕ) (old new : String) (jobs : List BooxJob)
    → status_of i (rename_jobs old new jobs) ≡ status_of i jobs
unfolding status_of rename_jobs id_is
status_of-rename_jobs i old new [] = refl
status_of-rename_jobs i old new (j ∷ jobs) = rw (status_of-rename_jobs i old new jobs) refl

rename_all-Moves :
    (i : ℕ) (old new : String) (change : BooxNote → BooxNote) (db db' : NoteDb)
    → rename_all old new change db ≡ ok db'
    → Moves (status_of i db.jobs) (status_of i db'.jobs)
unfolding rename_all
rename_all-Moves i old new change db db' e =
    let (notes, t, g) = bind-eq-ok (rename_notes old new change db.notes) _ e in
    let (content, u, k) = bind-eq-ok (rename_content old new db.content) _ g in
    subst (Moves (status_of i db.jobs))
      (sym (status_of-rename_jobs i old new db.jobs)
        ∙ ap (λ (d : NoteDb). status_of i d.jobs) (ok-injective k))
      (Moves.stays (status_of i db.jobs))

from :
    (s t : JobStatus) (to : Option JobStatus)
    → eqb_status s t ≡ true
    → Moves (some t) to
    → Moves (some s) to
from s t to e m = rw (status_is s t e) m

-- A job that a claim reaches is the one that it has found, which is pending.
claimed_pending :
    (now : ℤ) (i : ℕ) (l j : BooxJob) (db : NoteDb)
    → next_job now db.jobs ≡ some l
    → IsSound db
    → first_row (id_is i) db.jobs ≡ some j
    → id_is l.id j ≡ true
    → eqb_status j.status JobStatus.pending ≡ true
claimed_pending now i l j db e h f m =
    let next : IsNext now db.jobs (some l) =
      subst (IsNext now db.jobs) e (next_job-IsNext now 0 db.sequence db.jobs h.ascending) in
    let found = first_row-id_is i 0 db.sequence db.jobs j h.ascending f in
    let place : i ≡ l.id = sym (found.0) ∙ (unfold id_is in ground (arith, m)) in
    let same : l ≡ j = cc (next.0, ap (λ n. first_row (id_is n) db.jobs) place, f) in
    let eligible : is_eligible now j ≡ true = ap (is_eligible now) (sym same) ∙ next.1 in
    pending eligible
  where
    pending : is_eligible now j ≡ true → eqb_status j.status JobStatus.pending ≡ true
    pending eligible = unfold is_eligible in ground (arith, eligible)

claim-Moves :
    (now : ℤ) (i : ℕ) (o : Option BooxJob) (db : NoteDb)
    → next_job now db.jobs ≡ o
    → IsSound db
    → Moves (status_of i db.jobs) (status_of i (claim now o db).1.jobs)
unfolding claim
claim-Moves now i none db e h = Moves.stays _
claim-Moves now i (some l) db e h =
    change_where-Moves i (id_is l.id) (start now) db.jobs (λ j. unfold start in refl)
      (λ j f m.
        unfold start in
        from j.status JobStatus.pending _ (claimed_pending now i l j db e h f m) Moves.started)

change_found-Moves :
    (i : ℕ) (o : Option BooxJob) (path : String) (p : BooxJob → Bool) (change : BooxJob → BooxJob)
    (db : NoteDb)
    → ((j : BooxJob) → (change j).id ≡ j.id)
    → ((j : BooxJob) → p j ≡ true → Moves (some j.status) (some (change j).status))
    → Moves (status_of i db.jobs) (status_of i (change_found o path p change db).jobs)
unfolding change_found
change_found-Moves i none path p change db ids legal = Moves.stays _
change_found-Moves i (some l) path p change db ids legal =
    change_where-Moves i _ change db.jobs ids (λ j f m. legal j (ground (arith, m)))

-- On sound tables every operation takes the status of each job along a move of the abstract machine
-- or leaves it: a job is started only when pending, and goes back to pending only from skipped,
-- failed or in progress.
pub Step-Moves :
    {db db' : NoteDb}
    → Step db db'
    → IsSound db
    → (i : ℕ) → Moves (status_of i db.jobs) (status_of i db'.jobs)
unfolding reconcile_created_at_from_filename upsert_note enqueue_job new_job claim_next_job
    complete_job finish fail_job give_up update_note_path move_note delete_note skip_note skip_job
    unskip_note unskip_job change_latest retry_all_failed retry_job reclaim_all_in_progress
    reclaim_stuck_jobs reclaim
Step-Moves
      (Step.upsert now path note_id title device_model note_type folder page_count file_hash
        created_at db)
      h i =
    Moves.stays _
Step-Moves (Step.enqueue files millis seconds path db) h i = append-Moves i _ db.jobs refl
Step-Moves (Step.claim_next now db) h i = claim-Moves now i (next_job now db.jobs) db refl h
Step-Moves (Step.complete now id ocr_source api_model db) h i =
    change_where-Moves i _ _ db.jobs (λ j. refl) (λ j f m. Moves.completed j.status)
Step-Moves (Step.fail now id message db) h i =
    change_where-Moves i _ _ db.jobs (λ j. refl) (λ j f m. Moves.gave_up j.status)
Step-Moves (Step.update_path old new db db' e) h i =
    rename_all-Moves i old new (with_path new) db db' e
Step-Moves (Step.move now old new folder db db' e) h i =
    rename_all-Moves i old new (moved now new folder) db db' e
Step-Moves (Step.skip path reason db) h i =
    change_found-Moves i (latest (of_note path) db.jobs) path _ _ db (λ j. refl)
      (λ j m. Moves.skipped j.status)
Step-Moves (Step.unskip now path db) h i =
    change_found-Moves i (latest (of_note path) db.jobs) path _ _ db (λ j. refl)
      (λ j m. from j.status JobStatus.skipped _ m Moves.unskipped)
Step-Moves (Step.delete path db) h i = keep-Moves i 0 db.sequence _ db.jobs h.ascending
Step-Moves (Step.retry now db) h i =
    change_where-Moves i _ _ db.jobs (λ j. refl)
      (λ j f m. from j.status JobStatus.failed _ m Moves.retried)
Step-Moves (Step.reclaim_all db) h i =
    change_where-Moves i _ _ db.jobs (λ j. refl)
      (λ j f m. from j.status JobStatus.in_progress _ m Moves.reclaimed)
Step-Moves (Step.reclaim_stuck cutoff db) h i =
    change_where-Moves i _ _ db.jobs (λ j. refl)
      (λ j f m. from j.status JobStatus.in_progress _ (ground (arith, m)) Moves.reclaimed)
Step-Moves (Step.reconcile cal now db) h i = Moves.stays _
