-- ===== src/Boox/Claim.antt =====
-- Which job ClaimNextJob takes, and what it does to the jobs.
use boox_bridge.Prelude.{
  ℕ, ◌+◌, ◌<◌, ◌≡◌, ◌⊎◌, refl, sym, ap, ◌∙◌, inl, inr, true, false, ◌&&◌, Option, none, some,
  if◌then◌else◌, List, [], ◌∷◌, ◌==◌, Bool-cases, arith,
}
use boox_bridge.Prelude.Int.{ℤ, pos, ltb_int, not-lt_trans, ltb_int_irrefl, ltb_int_asym}
use boox_bridge.Prelude.Lists.{any}
use boox_bridge.Prelude.Picks.{IsIn, none-IsIn}
use boox_bridge.Notedb.{status_is, eqb_status_iff, IsOver, first_row-change_where}
use boox_bridge.Boox.Rows.{BooxJob, JobStatus, NoteDb, first_row, id_is}
use boox_bridge.Boox.Queue.{
  requeue_due, scan_returned, is_eligible, earlier, next_job, start, claim, claim_next_job,
}
use boox_bridge.Boox.Linked.{Ascending}
use boox_bridge.Boox.Integrity.{IsSound}

pub first_row-id_is :
    (i low sequence : ℕ) (jobs : List BooxJob) (j : BooxJob)
    → Ascending low jobs sequence
    → first_row (id_is i) jobs ≡ some j
    → (j.id ≡ i) × (low < i)
unfolding first_row id_is
first_row-id_is i low sequence [] j h e = cc
first_row-id_is i low sequence (k ∷ jobs) j h e = elim (Bool-cases (k.id == i)) [
  | inl m ↦
      let same : k ≡ j = cc (rw m at e) in
      (ap (λ (b : BooxJob). b.id) (sym same) ∙ ground (arith, m), ground (arith, h.0, m))
  | inr m ↦
      let (same, above) = first_row-id_is i k.id sequence jobs j h.1 (rw m at e) in
      (same, omega (arith, above, h.0))
]

-- What next_job finds: a job that is in the list under its id, may be started, and is not later than
-- another such one; or nothing, where no job may be started.
abbrev pub IsNext : ℤ → List BooxJob → Option BooxJob → Type 0
IsNext now jobs none = any (is_eligible now) jobs ≡ false
IsNext now jobs (some j) =
    (first_row (id_is j.id) jobs ≡ some j)
    × (is_eligible now j ≡ true)
    × (any (λ (k : BooxJob). is_eligible now k && ltb_int k.queued_at j.queued_at) jobs ≡ false)

-- No one of a list is earlier than a time that is not after a time with that property.
none_earlier :
    (now s t : ℤ) (jobs : List BooxJob)
    → ltb_int t s ≡ false
    → any (λ (k : BooxJob). is_eligible now k && ltb_int k.queued_at t) jobs ≡ false
    → any (λ (k : BooxJob). is_eligible now k && ltb_int k.queued_at s) jobs ≡ false
unfolding any
none_earlier now s t [] h e = refl
none_earlier now s t (k ∷ jobs) h e =
    ground (arith, none_earlier now s t jobs h, not-lt_trans k.queued_at t s)

none_eligible :
    (now s : ℤ) (jobs : List BooxJob)
    → any (is_eligible now) jobs ≡ false
    → any (λ (k : BooxJob). is_eligible now k && ltb_int k.queued_at s) jobs ≡ false
unfolding any
none_eligible now s [] e = refl
none_eligible now s (k ∷ jobs) e = ground (arith, none_eligible now s jobs)

-- The job at the head is next to what is next of the rest.
earlier-IsNext :
    (now : ℤ) (low sequence : ℕ) (i : BooxJob) (jobs : List BooxJob) (o : Option BooxJob)
    → Ascending low (i ∷ jobs) sequence
    → is_eligible now i ≡ true
    → IsNext now jobs o
    → IsNext now (i ∷ jobs) (some (earlier i o))
unfolding earlier
earlier-IsNext now low sequence i jobs none a e h = (
  unfold first_row id_is in ground arith,
  e,
  unfold any in ground (arith, ltb_int_irrefl i.queued_at, none_eligible now i.queued_at jobs h),
)
earlier-IsNext now low sequence i jobs (some j) a e h =
    elim (Bool-cases (ltb_int j.queued_at i.queued_at)) [
      | inl m ↦
          let (same, above) = first_row-id_is j.id i.id sequence jobs j a.1 h.0 in
          rw m (
            unfold first_row id_is in ground (arith, above, h.0),
            h.1,
            unfold any in ground (arith, h.2, ltb_int_asym j.queued_at i.queued_at),
          )
      | inr m ↦ rw m (
        unfold first_row id_is in ground arith,
        e,
        unfold any in
            ground (
              arith,
              ltb_int_irrefl i.queued_at,
              none_earlier now i.queued_at j.queued_at jobs m h.2,
            ),
      )
    ]

skip-IsNext :
    (now : ℤ) (low sequence : ℕ) (i : BooxJob) (jobs : List BooxJob) (o : Option BooxJob)
    → Ascending low (i ∷ jobs) sequence
    → is_eligible now i ≡ false
    → IsNext now jobs o
    → IsNext now (i ∷ jobs) o
skip-IsNext now low sequence i jobs none a e h = unfold any in ground (arith, h)
skip-IsNext now low sequence i jobs (some j) a e h =
    let (same, above) = first_row-id_is j.id i.id sequence jobs j a.1 h.0 in
    (unfold first_row id_is in ground (arith, above, h.0), h.1, unfold any in ground (arith, h.2))

pub next_job-IsNext :
    (now : ℤ) (low sequence : ℕ) (jobs : List BooxJob)
    → Ascending low jobs sequence
    → IsNext now jobs (next_job now jobs)
unfolding next_job
next_job-IsNext now low sequence [] a = unfold any in refl
next_job-IsNext now low sequence (i ∷ jobs) a =
    let rest = next_job-IsNext now i.id sequence jobs a.1 in
    elim (Bool-cases (is_eligible now i)) [
      | inl e ↦ rw e (earlier-IsNext now low sequence i jobs (next_job now jobs) a e rest)
      | inr e ↦ rw e (skip-IsNext now low sequence i jobs (next_job now jobs) a e rest)
    ]

-- The job is pending, and its delay is over.
abbrev pub IsDue : ℤ → BooxJob → Type 0
IsDue now j = (j.status ≡ JobStatus.pending) × IsOver now j.requeue_after

is_eligible-IsDue : (now : ℤ) (j : BooxJob) → is_eligible now j ≡ true → IsDue now j
unfolding is_eligible
is_eligible-IsDue now j e = (
  status_is j.status JobStatus.pending (ground (arith, e)),
  over j.requeue_after (ground (arith, e)),
)
  where
    over : (o : Option ℤ) → requeue_due now o ≡ true → IsOver now o
    over none h = tt
    over (some t) h = unfold requeue_due in ground (arith, h)

IsDue-is_eligible : (now : ℤ) (j : BooxJob) → IsDue now j → is_eligible now j ≡ true
unfolding is_eligible
IsDue-is_eligible now j d =
    ground (arith, (eqb_status_iff j.status JobStatus.pending).1 d.0, over j.requeue_after d.1)
  where
    over : (o : Option ℤ) → IsOver now o → requeue_due now o ≡ true
    over none h = unfold requeue_due in refl
    over (some t) h = unfold requeue_due in ground (arith, h)

-- What a claim is: nothing, where no job is due; else the job that has waited longest, of which seven
-- columns come back.
abbrev pub IsClaim : ℤ → NoteDb → Option BooxJob × NoteDb → Type 0
IsClaim now db r =
    ((r ≡ (none, db)) × ((k : BooxJob) → IsIn k db.jobs → IsDue now k → ⊥))
    ⊎ ((j : BooxJob) × (first_row (id_is j.id) db.jobs ≡ some j)
        × IsDue now j
        × ((k : BooxJob) → IsIn k db.jobs → IsDue now k → ltb_int k.queued_at j.queued_at ≡ false)
        × (r.0
            ≡ some (record {
              id = j.id;
              note_path = j.note_path;
              status = JobStatus.in_progress;
              skip_reason = "";
              ocr_source = "";
              api_model = "";
              attempts = j.attempts + 1;
              last_error = j.last_error;
              queued_at = j.queued_at;
              started_at = now;
              finished_at = pos 0;
              requeue_after = none;
            }))
        × (r.1.notes ≡ db.notes)
        × ((i : ℕ)
            → first_row (id_is i) r.1.jobs ≡ (
                if i == j.id
                then some (record j {
                  status = JobStatus.in_progress;
                  started_at = now;
                  attempts = j.attempts + 1;
                })
                else first_row (id_is i) db.jobs)))

claim-IsClaim :
    (now : ℤ) (o : Option BooxJob) (db : NoteDb)
    → IsNext now db.jobs o
    → IsClaim now db (claim now o db)
unfolding claim id_is scan_returned start
claim-IsClaim now none db h =
    inl (refl, λ k m d. cc (none-IsIn (is_eligible now) k db.jobs h m, IsDue-is_eligible now k d))
claim-IsClaim now (some j) db h = inr (
  j,
  h.0,
  is_eligible-IsDue now j h.1,
  λ k m d. ground (
    arith,
    IsDue-is_eligible now k d,
    none-IsIn (λ (b : BooxJob). is_eligible now b && ltb_int b.queued_at j.queued_at) k db.jobs h.2
        m,
  ),
  refl,
  refl,
  λ i. first_row-change_where (λ (b : BooxJob). b.id) j.id (start now) (λ k. refl) i db.jobs j h.0,
)

-- On sound tables ClaimNextJob returns nothing and changes nothing exactly where no job is pending
-- with its delay over; else it takes such a job, none of which was queued earlier, writes the
-- status in progress, the start and one more attempt under its id, returns the seven columns of
-- RETURNING, and leaves the jobs of other ids and the notes.
pub claim_next_job_lem :
    (now : ℤ) (db : NoteDb) → IsSound db → IsClaim now db (claim_next_job now db)
unfolding claim_next_job
claim_next_job_lem now db h =
    claim-IsClaim now (next_job now db.jobs) db
      (next_job-IsNext now 0 db.sequence db.jobs h.ascending)
