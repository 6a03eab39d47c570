-- ===== src/Supernote/Claim.antt =====
-- Which job claimNext hands out: its second statement finds the job that its first one has started, as
-- long as the other jobs in progress were started earlier.
use boox_bridge.Prelude.{
  ℕ, ◌≡◌, ◌⊎◌, refl, sym, ap, subst, ◌∙◌, inl, inr, Bool, true, false, not, ◌&&◌, Option, none,
  some, if◌then◌else◌, List, [], ◌∷◌, ◌==◌, Bool-cases, arith,
}
use boox_bridge.Prelude.Int.{ℤ, ltb_int, not-lt_trans, ltb_int_irrefl, ltb_int_asym}
use boox_bridge.Prelude.Lists.{any}
use boox_bridge.Prelude.Keys.{has, IsDistinct}
use boox_bridge.Prelude.Picks.{pick, IsIn, any-IsIn, none-IsIn, IsPick, IsOrder, pick-IsPick}
use boox_bridge.Prelude.Result.{Result, ok, err}
use boox_bridge.Notedb.{status_is, eqb_status_iff, IsOver, first_row-change_where}
use boox_bridge.Supernote.Rows.{
  JobStatus, eqb_status, Job, SupernoteDb, first_row, change_where, job_is,
}
use boox_bridge.Supernote.Queue.{
  has_status, null_lt, delay_over, scan_claimed, is_claimable, queued_before, started_after,
  set_started, mark_started, look_up_started, claim_next,
}
use boox_bridge.Supernote.Integrity.{IsIntact, job_ids, nat_iff}

null_lt_irrefl : (a : Option ℤ) → null_lt a a ≡ false
unfolding null_lt
null_lt_irrefl none = refl
null_lt_irrefl (some a) = ltb_int_irrefl a

null_lt_trans : (a b c : Option ℤ) → null_lt a b ≡ false → null_lt b c ≡ false → null_lt a c ≡ false
unfolding null_lt
null_lt_trans none none c h k = k
null_lt_trans none (some b) c h k = ground (arith, h)
null_lt_trans (some a) none none h k = refl
null_lt_trans (some a) none (some c) h k = ground (arith, k)
null_lt_trans (some a) (some b) none h k = refl
null_lt_trans (some a) (some b) (some c) h k = not-lt_trans a b c h k

null_lt_asym : (a b : Option ℤ) → null_lt a b ≡ true → null_lt b a ≡ false
unfolding null_lt
null_lt_asym none none h = refl
null_lt_asym none (some b) h = refl
null_lt_asym (some a) none h = ground (arith, h)
null_lt_asym (some a) (some b) h = ltb_int_asym a b h

queued_before-IsOrder : (p : Job → Bool) → IsOrder p queued_before
unfolding queued_before
queued_before-IsOrder p = record {
  irrefl = λ j. null_lt_irrefl j.queued_at;
  trans = λ i j k. null_lt_trans i.queued_at j.queued_at k.queued_at;
  asym = λ i j. null_lt_asym i.queued_at j.queued_at;
}

started_after-IsOrder : (p : Job → Bool) → IsOrder p started_after
unfolding started_after
started_after-IsOrder p = record {
  irrefl = λ j. null_lt_irrefl j.started_at;
  trans = λ i j k h m. null_lt_trans k.started_at j.started_at i.started_at m h;
  asym = λ i j. null_lt_asym j.started_at i.started_at;
}

has-IsIn : (j : Job) (jobs : List Job) → IsIn j jobs → has ◌==◌ nat_iff (job_ids jobs) j.id ≡ true
unfolding has any
has-IsIn j [] m = elim m [ ]
has-IsIn j (k ∷ jobs) (inl e) = ground (arith, ap (λ (b : Job). b.id) e)
has-IsIn j (k ∷ jobs) (inr m) = ground (arith, has-IsIn j jobs m)

-- Of jobs with different ids, one is found under its own.
first_row-IsIn :
    (j : Job) (jobs : List Job)
    → IsDistinct ◌==◌ nat_iff (job_ids jobs)
    → IsIn j jobs
    → first_row (job_is j.id) jobs ≡ some j
unfolding first_row job_is
first_row-IsIn j [] d m = elim m [ ]
first_row-IsIn j (k ∷ jobs) d (inl e) =
    let own : (k.id == j.id) ≡ true = ground (arith, ap (λ (b : Job). b.id) e) in rw own (ap some e)
first_row-IsIn j (k ∷ jobs) d (inr m) =
    let differs : (k.id == j.id) ≡ false = apart in rw differs (first_row-IsIn j jobs d.1 m)
  where
    apart : (k.id == j.id) ≡ false
    apart = elim (Bool-cases (k.id == j.id)) [
      | inr e ↦ e
      | inl e ↦
          let same : k.id ≡ j.id = ground (arith, e) in
          cc (d.0, ap (has ◌==◌ nat_iff (job_ids jobs)) same, has-IsIn j jobs m)
    ]

-- Two jobs of such a list with one id are the same.
same_id :
    (j k : Job) (jobs : List Job)
    → IsDistinct ◌==◌ nat_iff (job_ids jobs)
    → IsIn j jobs
    → IsIn k jobs
    → job_is j.id k ≡ true
    → k ≡ j
same_id j k jobs d m n e =
    let same : k.id ≡ j.id = unfold job_is in ground (arith, e) in
    cc (
      first_row-IsIn j jobs d m,
      first_row-IsIn k jobs d n,
      ap (λ i. first_row (job_is i) jobs) same,
    )

-- The jobs after an update.
changed : (Job → Bool) → (Job → Job) → Job → Job
changed p change j = if p j then change j else j

change_where-IsIn :
    (p : Job → Bool) (change : Job → Job) (j : Job) (jobs : List Job)
    → IsIn j jobs
    → IsIn (changed p change j) (change_where p change jobs)
unfolding change_where changed
change_where-IsIn p change j [] m = elim m [ ]
change_where-IsIn p change j (k ∷ jobs) (inl e) = inl (ap (λ b. if p b then change b else b) e)
change_where-IsIn p change j (k ∷ jobs) (inr m) = inr (change_where-IsIn p change j jobs m)

IsIn-change_where :
    (p : Job → Bool) (change : Job → Job) (j : Job) (jobs : List Job)
    → IsIn j (change_where p change jobs)
    → (k : Job) × IsIn k jobs × (changed p change k ≡ j)
unfolding change_where changed
IsIn-change_where p change j [] m = elim m [ ]
IsIn-change_where p change j (k ∷ jobs) (inl e) = (k, inl refl, e)
IsIn-change_where p change j (k ∷ jobs) (inr m) =
    let (l, n, e) = IsIn-change_where p change j jobs m in (l, inr n, e)

-- Every other job in progress was started earlier.
abbrev pub late : ℤ → List Job → Bool
late now jobs =
    any (λ (k : Job). has_status JobStatus.in_progress k && not (null_lt k.started_at (some now)))
      jobs

module _ (now : ℤ) (j : Job) (jobs : List Job) where
  abbrev after : List Job
  after = change_where (job_is j.id) (set_started now) jobs

  started_there : IsIn j jobs → IsIn (set_started now j) after
  started_there m =
      subst (λ k. IsIn k after) own (change_where-IsIn (job_is j.id) (set_started now) j jobs m)
    where
      mine : job_is j.id j ≡ true
      mine = unfold job_is in ground arith

      own : changed (job_is j.id) (set_started now) j ≡ set_started now j
      own = unfold changed in rw mine refl

  -- A job in progress after which none was started is the one just started.
  latest_started :
      IsDistinct ◌==◌ nat_iff (job_ids jobs)
      → IsIn j jobs
      → late now jobs ≡ false
      → (k : Job) → IsIn k after
      → has_status JobStatus.in_progress k ≡ true
      → any (λ (z : Job). has_status JobStatus.in_progress z && started_after z k) after ≡ false
      → k ≡ set_started now j
  unfolding changed
  latest_started d m quiet k there running last =
      let (l, n, e) = IsIn-change_where (job_is j.id) (set_started now) k jobs there in
      elim (Bool-cases (job_is j.id l)) [
        | inl own ↦ sym (rw own at e) ∙ ap (set_started now) (same_id j l jobs d m n own)
        | inr other ↦
            let same : l ≡ k = rw other at e in
            let early : has_status JobStatus.in_progress l && not (null_lt l.started_at (some now))
                ≡ false =
              none_late l n in
            let mine : has_status JobStatus.in_progress (set_started now j)
                  && started_after (set_started now j) k
                ≡ false =
              none_last (set_started now j) (started_there m) in
            let running_l : has_status JobStatus.in_progress l ≡ true =
              ap (has_status JobStatus.in_progress) same ∙ running in
            let starts : null_lt l.started_at (some now) ≡ true =
              ground (arith, early, running_l) in
            let not_starts : null_lt k.started_at (some now) ≡ false =
              unfold has_status set_started eqb_status started_after in mine in
            cc (starts, not_starts, ap (λ (b : Job). null_lt b.started_at (some now)) same)
      ]
    where
      none_late :
          (z : Job)
          → IsIn z jobs
          → has_status JobStatus.in_progress z && not (null_lt z.started_at (some now)) ≡ false
      none_late z n =
          elim (Bool-cases
            (has_status JobStatus.in_progress z && not (null_lt z.started_at (some now)))) [
              | inr e ↦ e
              | inl e ↦ cc (
                quiet,
                any-IsIn
                    (λ (b : Job).
                      has_status JobStatus.in_progress b && not (null_lt b.started_at (some now)))
                    z jobs n e,
              )
            ]

      none_last :
          (z : Job) → IsIn z after → has_status JobStatus.in_progress z && started_after z k ≡ false
      none_last z n = elim (Bool-cases (has_status JobStatus.in_progress z && started_after z k)) [
        | inr e ↦ e
        | inl e ↦ cc (
          last,
          any-IsIn (λ (b : Job). has_status JobStatus.in_progress b && started_after b k) z after n
              e,
        )
      ]

  -- The second statement finds the job that the first one has started.
  look_up_started_lem :
      IsDistinct ◌==◌ nat_iff (job_ids jobs)
      → IsIn j jobs
      → late now jobs ≡ false
      → look_up_started (some j) after ≡ ok (some (scan_claimed (set_started now j)))
  unfolding look_up_started
  look_up_started_lem d m quiet =
      answer (pick running started_after after)
        (pick-IsPick running started_after (started_after-IsOrder running) after)
    where
      running : Job → Bool
      running = has_status JobStatus.in_progress

      answer :
          (o : Option Job)
          → IsPick running started_after after o
          → (elim o as (λ _. Result (Option Job)) [
            | none ↦ err "claimNext lookup: sql: no rows in result set"
            | some k ↦ ok (some (scan_claimed k))
          ])
            ≡ ok (some (scan_claimed (set_started now j)))
      answer none h = cc (
        h,
        any-IsIn running (set_started now j) after (started_there m)
            (unfold has_status set_started eqb_status in refl),
      )
      answer (some k) h =
          ap (λ b. ok (some (scan_claimed b))) (latest_started d m quiet k h.0 h.1 h.2)

-- The job is pending, and its delay is over.
abbrev pub IsDue : ℤ → Job → Type 0
IsDue now j = (j.status ≡ JobStatus.pending) × IsOver now j.requeue_after

-- A time that is not after the other, where NULL is before all.
abbrev pub NotAfter : Option ℤ → Option ℤ → Type 0
NotAfter none b = Unit
NotAfter (some a) none = ⊥
NotAfter (some a) (some b) = ltb_int b a ≡ false

null_lt-NotAfter : (a b : Option ℤ) → null_lt b a ≡ false → NotAfter a b
unfolding null_lt
null_lt-NotAfter none b h = tt
null_lt-NotAfter (some a) none h = cc h
null_lt-NotAfter (some a) (some b) h = h

is_claimable-IsDue : (now : ℤ) (j : Job) → is_claimable now j ≡ true → IsDue now j
unfolding is_claimable has_status
is_claimable-IsDue now j e = (
  status_is j.status JobStatus.pending (ground (arith, e)),
  over j.requeue_after (ground (arith, e)),
)
  where
    over : (o : Option ℤ) → delay_over now o ≡ true → IsOver now o
    over none h = tt
    over (some t) h = unfold delay_over in ground (arith, h)

IsDue-is_claimable : (now : ℤ) (j : Job) → IsDue now j → is_claimable now j ≡ true
unfolding is_claimable has_status
IsDue-is_claimable now j d =
    ground (arith, (eqb_status_iff j.status JobStatus.pending).1 d.0, over j.requeue_after d.1)
  where
    over : (o : Option ℤ) → IsOver now o → delay_over now o ≡ true
    over none h = unfold delay_over in refl
    over (some t) h = unfold delay_over in ground (arith, h)

-- What a claim is: nothing, where no job is due; else a job that has waited longest, of which four
-- columns come back.
abbrev pub IsClaimed : ℤ → SupernoteDb → Result (Option Job) × SupernoteDb → Type 0
IsClaimed now db r =
    ((r ≡ (ok none, db)) × ((k : Job) → IsIn k db.jobs → IsDue now k → ⊥))
    ⊎ ((j : Job) × (first_row (job_is j.id) db.jobs ≡ some j)
        × IsDue now j
        × ((k : Job) → IsIn k db.jobs → IsDue now k → NotAfter j.queued_at k.queued_at)
        × (r.0
            ≡ ok (
                some (record {
                  id = j.id;
                  note_path = j.note_path;
                  status = JobStatus.in_progress;
                  skip_reason = none;
                  ocr_source = none;
                  api_model = none;
                  attempts = j.attempts;
                  last_error = none;
                  queued_at = none;
                  started_at = none;
                  finished_at = none;
                  requeue_after = none;
                })))
        × (r.1.notes ≡ db.notes)
        × ((i : ℕ)
            → first_row (job_is i) r.1.jobs ≡ (
                if i == j.id
                then some (record j { status = JobStatus.in_progress; started_at = some now })
                else first_row (job_is i) db.jobs)))

picked-IsClaimed :
    (now : ℤ) (o : Option Job) (db : SupernoteDb)
    → IsIntact db
    → late now db.jobs ≡ false
    → IsPick (is_claimable now) queued_before db.jobs o
    → IsClaimed now db (
      look_up_started o (mark_started now o db.jobs),
      record db { jobs = mark_started now o db.jobs },
    )
unfolding mark_started job_is set_started scan_claimed
picked-IsClaimed now none db h quiet p = inl (
  unfold look_up_started in refl,
  λ k m d. cc (none-IsIn (is_claimable now) k db.jobs p m, IsDue-is_claimable now k d),
)
picked-IsClaimed now (some j) db h quiet p =
    let found : first_row (λ (b : Job). b.id == j.id) db.jobs ≡ some j =
      unfold job_is in first_row-IsIn j db.jobs h.ids_distinct p.0 in
    inr (
      j,
      found,
      is_claimable-IsDue now j p.1,
      λ k m d. null_lt-NotAfter j.queued_at k.queued_at (
          unfold queued_before in
          ground (
            arith,
            IsDue-is_claimable now k d,
            none-IsIn (λ (b : Job). is_claimable now b && queued_before b j) k db.jobs p.2 m,
          )),
      look_up_started_lem now j db.jobs h.ids_distinct p.0 quiet,
      refl,
      λ i.
          first_row-change_where (λ (b : Job). b.id) j.id (set_started now) (λ k. refl) i db.jobs j
            found,
    )

-- On intact tables where no job in progress was started at or after the time, claimNext returns
-- nothing and changes nothing exactly where no job is pending with its delay over; else it takes
-- such a job, none of which was queued earlier, writes the status in progress and the start under
-- its id, returns its id, path, status and attempts, although it looks it up again, and leaves the
-- jobs of other ids and the notes.
pub claim_next_lem :
    (now : ℤ) (db : SupernoteDb)
    → IsIntact db
    → late now db.jobs ≡ false
    → IsClaimed now db (claim_next now db)
unfolding claim_next
claim_next_lem now db h quiet =
    picked-IsClaimed now (pick (is_claimable now) queued_before db.jobs) db h quiet (
      pick-IsPick (is_claimable now) queued_before (queued_before-IsOrder (is_claimable now))
        db.jobs)
