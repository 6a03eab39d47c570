-- ===== src/Retry/Budget.antt =====
-- How many attempts a note gets: the count of a record, and what is left of it after a requeue.
use text.Mathlib.Text.{◌==◌}
use boox_bridge.Prelude.{
  ap, ◌∙◌, Bool, true, ℕ, ◌+◌, ◌≤◌, String, ◌≡◌, refl, inl, inr, false, ◌&&◌, if◌then◌else◌, Option,
  none, some, [], ◌∷◌, ◌++◌, ltb, arith, Bool-cases,
}
use boox_bridge.Prelude.Int.{ℤ}
use mathlib.Core.List.{append-nil}
use boox_bridge.Retry.Due.{stays, visit-left}
use boox_bridge.Retry.{
  RetryRecord, Sidecars, Spool, Config, Place, Scheduled, Scan, known_record, sidecar, schedule,
  visit, visit_all, process_due, into_retry, delay_or, put_sidecar,
}

sidecar-snoc :
    (base name : String) (o : Option RetryRecord) (cars : Sidecars)
    → sidecar base cars ≡ none
    → (if name == base then o else none) ≡ none
    → sidecar base (cars ++ (name, o) ∷ []) ≡ none
unfolding sidecar
sidecar-snoc base name o [] h k = k
sidecar-snoc base name o ((n, r) ∷ cars) h k = elim (Bool-cases (n == base)) [
  | inl e ↦ rw e (rw e at h)
  | inr e ↦ rw e (sidecar-snoc base name o cars (rw e at h) k)
]

-- No record of the name has its time to come.
abbrev pub AllDue : String → ℕ → Sidecars → Type 0
AllDue base now [] = Unit
AllDue base now ((name, none) ∷ rest) = AllDue base now rest
AllDue base now ((name, some r) ∷ rest) =
    ((name == base) && ltb now r.next_attempt_at ≡ false) × AllDue base now rest

visit-sidecar :
    (base : String) (now : ℕ) (name : String) (o : Option RetryRecord) (st : Scan)
    → sidecar base st.left ≡ none
    → (if stays now o && name == base then o else none) ≡ none
    → sidecar base (visit now name o st).left ≡ none
visit-sidecar base now name o st h k =
    ap (sidecar base) (visit-left now name o st) ∙ stayed (stays now o) k
  where
    stayed :
        (b : Bool)
        → (if b && name == base then o else none) ≡ none
        → sidecar base (st.left ++ (if b then (name, o) ∷ [] else [])) ≡ none
    stayed true m = sidecar-snoc base name o st.left h m
    stayed false m = ap (sidecar base) (append-nil st.left) ∙ h

visit_all-sidecar :
    (base : String) (now : ℕ) (cars : Sidecars) (st : Scan)
    → sidecar base st.left ≡ none
    → AllDue base now cars
    → sidecar base (visit_all now cars st).left ≡ none
unfolding visit_all
visit_all-sidecar base now [] st h d = h
visit_all-sidecar base now ((name, none) ∷ rest) st h d =
    visit_all-sidecar base now rest (visit now name none st)
      (visit-sidecar base now name none st h (ground arith)) d
visit_all-sidecar base now ((name, some r) ∷ rest) st h d =
    visit_all-sidecar base now rest (visit now name (some r) st)
      (visit-sidecar base now name (some r) st h (ground (arith, d.0))) d.1

-- A note without a record is queued with a first attempt.
schedule_fresh :
    (cfg : Config) (place : Place) (base : String) (delay : ℤ) (why : String) (later : ℕ)
    (sp : Spool)
    → 1 ≤ cfg.max_retries
    → sidecar base sp.sidecars ≡ none
    → (sp' : Spool) × (schedule cfg place base delay why later sp ≡ Scheduled.scheduled 1 sp')
unfolding schedule known_record
schedule_fresh cfg place base delay why later sp most gone =
    let moved = into_retry place base sp in
    let first : RetryRecord = record {
      base_name = base;
      attempt_count = 1;
      next_attempt_at = later + delay_or cfg.default_retry_after delay;
      last_error = why;
      first_queued_at = later;
    } in
    let allowed : ltb cfg.max_retries 1 ≡ false = ground arith in
    (record moved { sidecars = put_sidecar base first moved.sidecars }, rw gone (rw allowed refl))

-- A note whose records are due and that is scheduled again after a scan is queued with a first
-- attempt, whatever its record counted before, where at least one attempt is allowed.
pub requeue_restarts :
    (cfg : Config) (place : Place) (base : String) (delay : ℤ) (why : String) (now later : ℕ)
    (sp : Spool)
    → 1 ≤ cfg.max_retries
    → AllDue base now sp.sidecars
    → (sp' : Spool) × (schedule cfg place base delay why later (process_due now sp).1
        ≡ Scheduled.scheduled 1 sp')
unfolding process_due
requeue_restarts cfg place base delay why now later sp most d =
    let start : Scan = record {
      next_wake = now + 30000;
      inbox = sp.inbox;
      waiting = sp.waiting;
      left = [];
    } in
    schedule_fresh cfg place base delay why later (process_due now sp).1 most
      (visit_all-sidecar base now sp.sidecars start (unfold sidecar in refl) d)
