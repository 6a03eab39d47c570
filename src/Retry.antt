-- ===== src/Retry.antt =====
-- cmd/boox-bridge/retry.go: the spool of notes that wait for another attempt. A directory is a list of
-- the names of its notes with their contents, and `sidecars` the files of the retry directory that keep
-- records, by the name of their note; `none` is a text that is no JSON. Times are milliseconds; errors of
-- the file system are not modelled.
use text.Mathlib.Text.{◌==◌}
use boox_bridge.Prelude.{
  ℕ, zero, suc, ◌+◌, String, Bool, true, false, not, Option, none, some, if◌then◌else◌, List, [],
  ◌∷◌, ◌++◌, ltb,
}
use boox_bridge.Prelude.Int.{ℤ, pos, negsuc}
use boox_bridge.Prelude.Lists.{keep}
pub mod Due
pub mod Budget
pub mod Tests

pub record RetryRecord : Type 0 where
  pub base_name : String
  pub attempt_count : ℕ
  pub next_attempt_at : ℕ
  pub last_error : String
  pub first_queued_at : ℕ

-- The files of a directory, by name.
abbrev pub Folder : Type 0
Folder = List (String × String)

abbrev pub Sidecars : Type 0
Sidecars = List (String × Option RetryRecord)

pub record Spool : Type 0 where
  pub inbox : Folder
  pub waiting : Folder
  pub sidecars : Sidecars

pub record Config : Type 0 where
  pub default_retry_after : ℕ
  pub max_retries : ℕ

-- Where the note of schedule lies.
pub data Place : Type 0 where
  in_inbox in_retry : Place

pub data Scheduled : Type 0 where
  scheduled exhausted : ℕ → Spool → Scheduled

unfoldable pub delay_or : ℕ → ℤ → ℕ
delay_or d (pos zero) = d
delay_or d (pos (suc n)) = suc n
delay_or d (negsuc n) = d

-- os.ReadFile and json.Unmarshal of the sidecar.
unfoldable pub sidecar : String → Sidecars → Option RetryRecord
sidecar base [] = none
sidecar base ((name, r) ∷ rest) = if name == base then r else sidecar base rest

-- os.WriteFile of the sidecar.
unfoldable pub put_sidecar : String → RetryRecord → Sidecars → Sidecars
put_sidecar base r [] = (base, some r) ∷ []
put_sidecar base r ((name, s) ∷ rest) =
    if name == base then (name, some r) ∷ rest else (name, s) ∷ put_sidecar base r rest

unfoldable pub file_at : String → Folder → Option String
file_at name [] = none
file_at name ((n, text) ∷ files) = if n == name then some text else file_at name files

unfoldable pub remove : String → Folder → Folder
remove name files = keep (λ (f : String × String). not (f.0 == name)) files

-- os.Rename into a directory replaces a file of that name there.
unfoldable pub move_to : String → Option String → Folder → Folder
unfolding remove
move_to name none files = files
move_to name (some text) files = (name, text) ∷ remove name files

unfoldable pub into_retry : Place → String → Spool → Spool
unfolding move_to remove file_at
into_retry Place.in_retry base sp = sp
into_retry Place.in_inbox base sp = record sp {
  inbox = remove base sp.inbox;
  waiting = move_to base (file_at base sp.inbox) sp.waiting;
}

unfoldable pub known_record : ℕ → String → Option RetryRecord → RetryRecord
known_record now base (some r) = r
known_record now base none = record {
  base_name = base;
  attempt_count = 0;
  next_attempt_at = 0;
  last_error = "";
  first_queued_at = now;
}

unfoldable pub schedule : Config → Place → String → ℤ → String → ℕ → Spool → Scheduled
unfolding known_record into_retry delay_or
schedule cfg place base delay last_err now sp =
    let old = known_record now base (sidecar base sp.sidecars) in
    let rec_ = record old {
      attempt_count = old.attempt_count + 1;
      next_attempt_at = now + delay_or cfg.default_retry_after delay;
      last_error = last_err;
    } in
    if ltb cfg.max_retries rec_.attempt_count
    then Scheduled.exhausted rec_.attempt_count sp
    else (let moved = into_retry place base sp in
        Scheduled.scheduled rec_.attempt_count
          (record moved { sidecars = put_sidecar base rec_ moved.sidecars }))

-- The variables of the loop of processDue; `left` are the sidecars that stay.
pub record Scan : Type 0 where
  pub next_wake : ℕ
  pub inbox : Folder
  pub waiting : Folder
  pub left : Sidecars

-- A record whose window has opened; without its note only the sidecar goes.
unfoldable pub requeue : RetryRecord → Scan → Scan
unfolding remove move_to file_at
requeue r st = record st {
  inbox = move_to r.base_name (file_at r.base_name st.waiting) st.inbox;
  waiting = remove r.base_name st.waiting;
}

unfoldable pub stay : String → Option RetryRecord → Scan → Scan
stay name r st = record st { left = st.left ++ (name, r) ∷ [] }

unfoldable pub wake_at : ℕ → Scan → Scan
wake_at t st = record st { next_wake = (if ltb t st.next_wake then t else st.next_wake) }

unfoldable pub visit : ℕ → String → Option RetryRecord → Scan → Scan
unfolding requeue stay wake_at
visit now name none st = stay name none st
visit now name (some r) st =
    if ltb now r.next_attempt_at
    then stay name (some r) (wake_at r.next_attempt_at st)
    else requeue r st

unfoldable pub visit_all : ℕ → Sidecars → Scan → Scan
unfolding visit
visit_all now [] st = st
visit_all now ((name, r) ∷ rest) st = visit_all now rest (visit now name r st)

unfoldable pub process_due : ℕ → Spool → ℕ × Spool
unfolding visit_all
process_due now sp =
    let st =
      visit_all now sp.sidecars
        (record { next_wake = now + 30000; inbox = sp.inbox; waiting = sp.waiting; left = [] }) in
    (st.next_wake, record { inbox = st.inbox; waiting = st.waiting; sidecars = st.left })
