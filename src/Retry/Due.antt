-- ===== src/Retry/Due.antt =====
-- What processDue leaves: the records that wait, the time of the next wake-up, and the notes.
use text.Mathlib.Text.{◌==◌}
use text.Mathlib.TextEquality.{eq_iff}
use mathlib.Core.List.{append-nil, append_assoc}
use boox_bridge.Prelude.{
  ℕ, ◌+◌, ◌≤◌, ◌<◌, String, ◌≡◌, refl, sym, ap, ◌∙◌, inl, inr, Bool, true, false, not, ◌&&◌, Option,
  none, some, if◌then◌else◌, [], ◌∷◌, ◌++◌, ltb, arith, Bool-cases,
}
use boox_bridge.Prelude.Lists.{keep, any}
use boox_bridge.Retry.{
  RetryRecord, Folder, Sidecars, Spool, Scan, file_at, remove, move_to, requeue, stay, wake_at,
  visit, visit_all, process_due,
}

-- The sidecars that a scan leaves: those that cannot be read, and those whose time is to come.
abbrev pub stays : ℕ → Option RetryRecord → Bool
stays now none = true
stays now (some r) = ltb now r.next_attempt_at

-- Every record waits for a time that is not before the wake-up.
abbrev pub AllWait : ℕ → ℕ → Sidecars → Type 0
AllWait now wake [] = Unit
AllWait now wake ((name, none) ∷ rest) = AllWait now wake rest
AllWait now wake ((name, some r) ∷ rest) =
    (now < r.next_attempt_at) × (wake ≤ r.next_attempt_at) × AllWait now wake rest

AllWait-earlier : (now w v : ℕ) (left : Sidecars) → v ≤ w → AllWait now w left → AllWait now v left
AllWait-earlier now w v [] h a = tt
AllWait-earlier now w v ((name, none) ∷ rest) h a = AllWait-earlier now w v rest h a
AllWait-earlier now w v ((name, some r) ∷ rest) h a =
    (a.0, omega (arith, a.1), AllWait-earlier now w v rest h a.2)

AllWait-snoc :
    (now w : ℕ) (left : Sidecars) (name : String) (r : RetryRecord)
    → AllWait now w left
    → now < r.next_attempt_at
    → w ≤ r.next_attempt_at
    → AllWait now w (left ++ (name, some r) ∷ [])
AllWait-snoc now w [] name r a h k = (h, k, tt)
AllWait-snoc now w ((n, none) ∷ left) name r a h k = AllWait-snoc now w left name r a h k
AllWait-snoc now w ((n, some s) ∷ left) name r a h k =
    (a.0, a.1, AllWait-snoc now w left name r a.2 h k)

AllWait-unread :
    (now w : ℕ) (left : Sidecars) (name : String)
    → AllWait now w left
    → AllWait now w (left ++ (name, none) ∷ [])
AllWait-unread now w [] name a = a
AllWait-unread now w ((n, none) ∷ left) name a = AllWait-unread now w left name a
AllWait-unread now w ((n, some s) ∷ left) name a = (a.0, a.1, AllWait-unread now w left name a.2)

-- A state of the loop.
record Scanned (now : ℕ) (st : Scan) : Type 0 where
  waits : AllWait now st.next_wake st.left
  soon : st.next_wake ≤ now + 30000

visit-Scanned :
    (now : ℕ) (name : String) (o : Option RetryRecord) (st : Scan)
    → Scanned now st
    → Scanned now (visit now name o st)
unfolding visit requeue stay wake_at
visit-Scanned now name none st h = record {
  waits = AllWait-unread now st.next_wake st.left name h.waits;
  soon = h.soon;
}
visit-Scanned now name (some r) st h = elim (Bool-cases (ltb now r.next_attempt_at)) [
  | inr e ↦ rw e (record { waits = h.waits; soon = h.soon })
  | inl e ↦ elim (Bool-cases (ltb r.next_attempt_at st.next_wake)) [
    | inl first ↦
        rw (e, first)
          (record {
            waits =
                AllWait-snoc now r.next_attempt_at st.left name r
                  (AllWait-earlier now st.next_wake _ st.left (ground arith) h.waits) (ground arith)
                  (omega arith);
            soon = ground (arith, h.soon);
          })
    | inr later ↦
        rw (e, later)
          (record {
            waits =
                AllWait-snoc now st.next_wake st.left name r h.waits (ground arith) (ground arith);
            soon = h.soon;
          })
  ]
]

visit_all-Scanned :
    (now : ℕ) (cars : Sidecars) (st : Scan) → Scanned now st → Scanned now (visit_all now cars st)
unfolding visit_all
visit_all-Scanned now [] st h = h
visit_all-Scanned now ((name, r) ∷ rest) st h =
    visit_all-Scanned now rest (visit now name r st) (visit-Scanned now name r st h)

-- The sidecars that stay, in their order.
pub visit-left :
    (now : ℕ) (name : String) (o : Option RetryRecord) (st : Scan)
    → (visit now name o st).left ≡ st.left ++ (if stays now o then (name, o) ∷ [] else [])
unfolding visit requeue stay wake_at
visit-left now name none st = refl
visit-left now name (some r) st = elim (Bool-cases (ltb now r.next_attempt_at)) [
  | inl e ↦ rw e refl
  | inr e ↦ rw e (sym (append-nil st.left))
]

first_if :
    (b : Bool) (c : String × Option RetryRecord) (cars : Sidecars)
    → (if b then c ∷ [] else []) ++ cars ≡ (if b then c ∷ cars else cars)
first_if true c cars = refl
first_if false c cars = refl

visit_all-left :
    (now : ℕ) (cars : Sidecars) (st : Scan)
    → (visit_all now cars st).left
      ≡ st.left ++ keep (λ (c : String × Option RetryRecord). stays now c.1) cars
unfolding visit_all keep
visit_all-left now [] st = sym (append-nil st.left)
visit_all-left now ((name, o) ∷ rest) st =
    let later = keep (λ (c : String × Option RetryRecord). stays now c.1) rest in
    visit_all-left now rest (visit now name o st)
    ∙ ap (λ l. l ++ later) (visit-left now name o st)
    ∙ append_assoc st.left (if stays now o then (name, o) ∷ [] else []) later
    ∙ ap (λ l. st.left ++ l) (first_if (stays now o) (name, o) later)

-- A record is due whose note has the name.
abbrev pub is_due : String → ℕ → Option RetryRecord → Bool
is_due a now none = false
is_due a now (some r) = not (ltb now r.next_attempt_at) && r.base_name == a

abbrev pub or_else : Option String → Option String → Option String
or_else none y = y
or_else (some x) y = some x

file_at-remove :
    (a b : String) (files : Folder)
    → file_at a (remove b files) ≡ (if b == a then none else file_at a files)
unfolding file_at remove keep
file_at-remove a b [] = ground arith
file_at-remove a b ((n, text) ∷ files) =
    ground (arith, file_at-remove a b files, eq_iff n b, eq_iff b a, eq_iff n a)

file_at-move_to :
    (a b : String) (o : Option String) (files : Folder)
    → file_at a (move_to b o files)
      ≡ (if b == a then or_else o (file_at a files) else file_at a files)
unfolding file_at move_to
file_at-move_to a b none files = ground arith
file_at-move_to a b (some text) files = ground (arith, file_at-remove a b files)

-- Where the note of a name lies after one sidecar, and after all.
visit-files :
    (a : String) (now : ℕ) (name : String) (o : Option RetryRecord) (st : Scan)
    → (file_at a (visit now name o st).inbox ≡ (
        if is_due a now o
        then or_else (file_at a st.waiting) (file_at a st.inbox)
        else file_at a st.inbox))
      × (file_at a (visit now name o st).waiting
          ≡ (if is_due a now o then none else file_at a st.waiting))
unfolding visit requeue stay wake_at
visit-files a now name none st = (refl, refl)
visit-files a now name (some r) st = elim (Bool-cases (ltb now r.next_attempt_at)) [
  | inl e ↦ rw e (refl, refl)
  | inr e ↦ rw e (
    file_at-move_to a r.base_name (file_at r.base_name st.waiting) st.inbox ∙ moved,
    file_at-remove a r.base_name st.waiting,
  )
]
  where
    moved :
        (if r.base_name == a
          then or_else (file_at r.base_name st.waiting) (file_at a st.inbox)
          else file_at a st.inbox)
        ≡ (if r.base_name == a
            then or_else (file_at a st.waiting) (file_at a st.inbox)
            else file_at a st.inbox)
    moved = elim (Bool-cases (r.base_name == a)) [
      | inr n ↦ rw n refl
      | inl n ↦ rw n (
          ap (λ b. or_else (file_at b st.waiting) (file_at a st.inbox))
            ((eq_iff r.base_name a).0 n))
    ]

visit_all-files :
    (a : String) (now : ℕ) (cars : Sidecars) (st : Scan)
    → (file_at a (visit_all now cars st).inbox ≡ (
        if any (λ (c : String × Option RetryRecord). is_due a now c.1) cars
        then or_else (file_at a st.waiting) (file_at a st.inbox)
        else file_at a st.inbox))
      × (file_at a (visit_all now cars st).waiting ≡ (
          if any (λ (c : String × Option RetryRecord). is_due a now c.1) cars
          then none
          else file_at a st.waiting))
unfolding visit_all any
visit_all-files a now [] st = (refl, refl)
visit_all-files a now ((name, o) ∷ rest) st =
    let one = visit-files a now name o st in
    let more = visit_all-files a now rest (visit now name o st) in
    elim (Bool-cases (is_due a now o)) [
      | inr e ↦ rw e (more.0 ∙ rw (one.0, one.1) (rw e refl), more.1 ∙ rw one.1 (rw e refl))
      | inl e ↦ rw e (
        more.0 ∙ rw (one.0, one.1) (rw e (ground arith)),
        more.1 ∙ rw one.1 (rw e (ground arith)),
      )
    ]

-- What a scan leaves, and when the next one is.
abbrev pub IsScan : ℕ → Spool → ℕ × Spool → Type 0
IsScan now sp r =
    (r.1.sidecars ≡ keep (λ (c : String × Option RetryRecord). stays now c.1) sp.sidecars)
    × AllWait now r.0 r.1.sidecars
    × (r.0 ≤ now + 30000)
    × ((a : String)
        → (file_at a r.1.inbox ≡ (
            if any (λ (c : String × Option RetryRecord). is_due a now c.1) sp.sidecars
            then or_else (file_at a sp.waiting) (file_at a sp.inbox)
            else file_at a sp.inbox))
          × (file_at a r.1.waiting ≡ (
              if any (λ (c : String × Option RetryRecord). is_due a now c.1) sp.sidecars
              then none
              else file_at a sp.waiting)))

-- processDue leaves the sidecars that are no JSON or whose time is still to come, in their order,
-- and no others, and wakes up not after any of their times and within thirty seconds. The note of a
-- name of which a record is due is moved with its content from the retry directory to the inbox,
-- where it replaces a note of that name; a note of any other name stays where it is.
pub process_due_lem : (now : ℕ) (sp : Spool) → IsScan now sp (process_due now sp)
unfolding process_due
process_due_lem now sp =
    let start : Scan = record {
      next_wake = now + 30000;
      inbox = sp.inbox;
      waiting = sp.waiting;
      left = [];
    } in
    let all = visit_all-Scanned now sp.sidecars start (record { waits = tt; soon = omega arith }) in
    (
      visit_all-left now sp.sidecars start,
      all.waits,
      all.soon,
      λ a. visit_all-files a now sp.sidecars start,
    )
