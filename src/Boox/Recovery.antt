-- ===== src/Boox/Recovery.antt =====
-- After a restart: the jobs that were being processed, and those that have failed, wait again.
use boox_bridge.Prelude.{
  suc, ◌+◌, ◌≡◌, refl, ◌∙◌, inl, inr, Bool-cases, false, if◌then◌else◌, List, [], ◌∷◌, arith,
}
use boox_bridge.Prelude.Int.{ℤ}
use boox_bridge.Prelude.Lists.{keep}
use boox_bridge.Boox.Rows.{BooxJob, JobStatus, NoteDb, eqb_status, change_where}
use boox_bridge.Notedb.{eqb_status_iff}
use boox_bridge.Boox.Queue.{
  count, get_queue_status, retry_job, retry_all_failed, reclaim, reclaim_all_in_progress,
}

count-cons :
    (s : JobStatus) (j : BooxJob) (jobs : List BooxJob)
    → count s (j ∷ jobs) ≡ (if eqb_status j.status s then suc (count s jobs) else count s jobs)
unfolding count keep
count-cons s j jobs = ground arith

-- How many jobs of a status there are when those of one status have got another.
count-change_where :
    (from to s : JobStatus) (change : BooxJob → BooxJob) (jobs : List BooxJob)
    → ((j : BooxJob) → (change j).status ≡ to)
    → eqb_status from to ≡ false
    → count s (change_where (λ (j : BooxJob). eqb_status j.status from) change jobs) ≡ (
        if eqb_status s from
        then 0
        else if eqb_status s to
        then count s jobs + count from jobs
        else count s jobs)
unfolding change_where
count-change_where from to s change [] moves ne = unfold count keep in ground arith
count-change_where from to s change (j ∷ jobs) moves ne =
    let rest = count-change_where from to s change jobs moves ne in
    elim (Bool-cases (eqb_status j.status from)) [
      | inl e ↦
          rw
            (
              e,
              count-cons s (change j)
                  (change_where (λ (j : BooxJob). eqb_status j.status from) change jobs),
              moves j,
              rest,
              count-cons s j jobs,
              count-cons from j jobs,
              e,
            )
            (ground (
              arith,
              e,
              ne,
              eqb_status_iff j.status from,
              eqb_status_iff s from,
              eqb_status_iff s to,
              eqb_status_iff to s,
              eqb_status_iff from to,
              eqb_status_iff j.status s,
            ))
      | inr e ↦
          rw
            (
              e,
              count-cons s j (change_where (λ (j : BooxJob). eqb_status j.status from) change jobs),
              rest,
              count-cons s j jobs,
              count-cons from j jobs,
              e,
            )
            (ground (
              arith,
              e,
              eqb_status_iff j.status from,
              eqb_status_iff s from,
              eqb_status_iff j.status s,
            ))
    ]

-- What Start does and then a retry of the failed jobs.
unfoldable pub recover : ℤ → NoteDb → NoteDb
unfolding retry_all_failed reclaim_all_in_progress
recover now db = (retry_all_failed now (reclaim_all_in_progress db)).1

-- After ReclaimAllInProgress and RetryAllFailed no job is in progress or failed: the pending ones
-- are those that were pending, in progress or failed, the done ones are as many as before, and the
-- retry reports the failed ones.
pub recover_lem :
    (now : ℤ) (db : NoteDb)
    → ((get_queue_status (recover now db)).pending
        ≡ (get_queue_status db).pending
          + (get_queue_status db).in_progress
          + (get_queue_status db).failed)
      × ((get_queue_status (recover now db)).in_progress ≡ 0)
      × ((get_queue_status (recover now db)).failed ≡ 0)
      × ((get_queue_status (recover now db)).done ≡ (get_queue_status db).done)
      × ((retry_all_failed now (reclaim_all_in_progress db)).0 ≡ (get_queue_status db).failed)
unfolding recover get_queue_status retry_all_failed reclaim_all_in_progress eqb_status
recover_lem now db = (
  second_change JobStatus.pending
      ∙ rw (first_change JobStatus.pending, first_change JobStatus.failed) refl,
  second_change JobStatus.in_progress ∙ first_change JobStatus.in_progress,
  second_change JobStatus.failed,
  second_change JobStatus.done ∙ first_change JobStatus.done,
  first_change JobStatus.failed,
)
  where
    reclaimed : List BooxJob
    reclaimed =
        change_where (λ (j : BooxJob). eqb_status j.status JobStatus.in_progress) reclaim db.jobs

    first_change :
        (s : JobStatus)
        → count s reclaimed ≡ (
            if eqb_status s JobStatus.in_progress
            then 0
            else if eqb_status s JobStatus.pending
            then count s db.jobs + count JobStatus.in_progress db.jobs
            else count s db.jobs)
    first_change s =
        count-change_where JobStatus.in_progress JobStatus.pending s reclaim db.jobs
          (λ j. unfold reclaim in refl) refl

    second_change :
        (s : JobStatus)
        → count s (
            change_where
              (λ (j : BooxJob). eqb_status j.status JobStatus.failed)
              (retry_job now)
              reclaimed)
          ≡ (if eqb_status s JobStatus.failed
              then 0
              else if eqb_status s JobStatus.pending
              then count s reclaimed + count JobStatus.failed reclaimed
              else count s reclaimed)
    second_change s =
        count-change_where JobStatus.failed JobStatus.pending s (retry_job now) reclaimed
          (λ j. unfold retry_job in refl) refl
