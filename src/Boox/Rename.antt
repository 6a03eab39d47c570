-- ===== src/Boox/Rename.antt =====
-- The transaction of UpdateNotePath and MoveNote: a note, its jobs and their order under another path.
use boox_bridge.Prelude.{
  Bool, String, ◌≡◌, refl, sym, ap, subst, ◌∙◌, inl, inr, true, false, Option, none, some,
  if◌then◌else◌, List, [], ◌∷◌, Bool-cases, arith,
}
use mathlib.Core.Option
use boox_bridge.Prelude.Text.{str_eq, eq_iff}
use boox_bridge.Prelude.Int.{ℤ}
use boox_bridge.Prelude.Lists.{any}
use boox_bridge.Prelude.Result.{ok, ok-injective, bind-eq-ok}
use boox_bridge.Boox.Rows.{
  BooxNote, BooxJob, NoteDb, path_is, of_note, first_row, latest, if_none, change_where,
}
use boox_bridge.Boox.Notes.{
  renamed, rename_notes, rename_jobs, rename_content, rename_all, moved, move_note, get_note,
}
use boox_bridge.Boox.Queue.{scan_latest, get_latest_job}
use boox_bridge.Boox.Linked.{has_note, dangling}
use boox_bridge.Boox.Integrity.{IsSound}

-- A job under another path.
abbrev pub job_under : String → BooxJob → BooxJob
job_under path j = record j { note_path = path }

module _ (old new : String) (ne : str_eq old new ≡ false) where
  map-if_none :
      (g : BooxJob → BooxJob) (a b : Option BooxJob)
      → Option.map g (if_none a b) ≡ if_none (Option.map g a) (Option.map g b)
  unfolding if_none
  map-if_none g none b = refl
  map-if_none g (some x) b = refl

  latest-new :
      (jobs : List BooxJob)
      → any (of_note new) jobs ≡ false
      → latest (of_note new) (rename_jobs old new jobs)
        ≡ Option.map (job_under new) (latest (of_note old) jobs)
  unfolding latest rename_jobs renamed of_note any
  latest-new [] free = refl
  latest-new (j ∷ jobs) free =
      let rest = latest-new jobs (ground (arith, free)) in
      elim (Bool-cases (str_eq j.note_path old)) [
        | inl e ↦
            rw
              (
                e,
                rest,
                map-if_none (job_under new) (latest (of_note old) jobs) (some j),
                (eq_iff new new).1 refl,
              )
              refl
        | inr e ↦
            let differs : str_eq j.note_path new ≡ false = ground (arith, free) in
            rw (e, rest, map-if_none (job_under new) (latest (of_note old) jobs) none, differs) refl
      ]

  latest-old : (jobs : List BooxJob) → latest (of_note old) (rename_jobs old new jobs) ≡ none
  unfolding latest rename_jobs renamed of_note if_none
  latest-old [] = refl
  latest-old (j ∷ jobs) =
      let rest = latest-old jobs in
      let differs : str_eq new old ≡ false = ground (arith, ne, eq_iff new old, eq_iff old new) in
      elim (Bool-cases (str_eq j.note_path old)) [
        | inl e ↦ rw (e, rest, differs) refl
        | inr e ↦ rw (e, rest, e) refl
      ]

  latest-other :
      (p : String) (jobs : List BooxJob)
      → str_eq p old ≡ false
      → str_eq p new ≡ false
      → latest (of_note p) (rename_jobs old new jobs) ≡ latest (of_note p) jobs
  unfolding latest rename_jobs renamed of_note if_none
  latest-other p [] n m = refl
  latest-other p (j ∷ jobs) n m =
      let rest = latest-other p jobs n m in
      elim (Bool-cases (str_eq j.note_path old)) [
        | inl e ↦
            let gone : str_eq new p ≡ false = ground (arith, m, eq_iff new p, eq_iff p new) in
            let away : str_eq j.note_path p ≡ false =
              ground (arith, n, e, eq_iff j.note_path p, eq_iff j.note_path old, eq_iff p old) in
            rw (e, rest, gone, away) refl
        | inr e ↦ rw (e, rest) refl
      ]

  module _ (change : BooxNote → BooxNote) (to_new : (n : BooxNote) → (change n).path ≡ new) where
    first_row-new :
        (notes : List BooxNote)
        → has_note notes new ≡ false
        → first_row (path_is new) (change_where (path_is old) change notes)
          ≡ Option.map change (first_row (path_is old) notes)
    unfolding first_row path_is change_where has_note any
    first_row-new [] free = refl
    first_row-new (n ∷ notes) free =
        let rest = first_row-new notes (ground (arith, free)) in
        elim (Bool-cases (str_eq n.path old)) [
          | inl e ↦ rw (e, ap (λ q. str_eq q new) (to_new n) ∙ (eq_iff new new).1 refl) refl
          | inr e ↦
              let differs : str_eq n.path new ≡ false = ground (arith, free) in
              rw (e, differs, rest) refl
        ]

    first_row-other :
        (p : String) (notes : List BooxNote)
        → str_eq p new ≡ false
        → first_row (path_is p) (change_where (path_is old) change notes)
          ≡ (if str_eq p old then none else first_row (path_is p) notes)
    unfolding first_row path_is change_where
    first_row-other p [] m = ground arith
    first_row-other p (n ∷ notes) m =
        let rest = first_row-other p notes m in
        elim (Bool-cases (str_eq n.path old)) [
          | inl e ↦
              let gone : str_eq (change n).path p ≡ false =
                ap (λ q. str_eq q p) (to_new n) ∙ ground (arith, m, eq_iff new p, eq_iff p new) in
              rw (e, gone, rest)
                (ground (arith, e, eq_iff n.path p, eq_iff n.path old, eq_iff p old))
          | inr e ↦
              rw (e, rest) (ground (arith, e, eq_iff n.path p, eq_iff n.path old, eq_iff p old))
        ]

-- A path without a note has no job.
no_jobs :
    (notes : List BooxNote) (jobs : List BooxJob) (p : String)
    → has_note notes p ≡ false
    → dangling notes jobs ≡ false
    → any (of_note p) jobs ≡ false
unfolding dangling any of_note
no_jobs notes [] p h d = refl
no_jobs notes (j ∷ jobs) p h d = elim (Bool-cases (str_eq j.note_path p)) [
  | inl e ↦
      let same : has_note notes j.note_path ≡ has_note notes p =
        ap (has_note notes) ((eq_iff j.note_path p).0 e) in
      ground (arith, same, h, d)
  | inr e ↦ rw e (no_jobs notes jobs p h (ground (arith, d)))
]

-- The note and its latest job under the new path, nothing under the old one, and the others as before.
abbrev pub HasMoved : String → String → (BooxNote → BooxNote) → NoteDb → NoteDb → Type 0
HasMoved old new change db db' =
    ((p : String)
      → get_note p db' ≡ (
          if str_eq p new
          then Option.map change (get_note old db)
          else if str_eq p old
          then none
          else get_note p db))
    × ((p : String)
        → get_latest_job p db' ≡ (
            if str_eq p new
            then Option.map (job_under new) (get_latest_job old db)
            else if str_eq p old
            then none
            else get_latest_job p db))

rename_notes-ok :
    (old new : String) (change : BooxNote → BooxNote) (notes notes' : List BooxNote)
    → str_eq old new ≡ false
    → has_note notes old ≡ true
    → rename_notes old new change notes ≡ ok notes'
    → (has_note notes new ≡ false) × (change_where (path_is old) change notes ≡ notes')
unfolding rename_notes has_note
rename_notes-ok old new change notes notes' ne there e =
    elim (Bool-cases (any (path_is new) notes)) [
      | inl k ↦ cc (rw (ne, there, k) at e)
      | inr k ↦ (k, ok-injective (rw (ne, there, k) at e))
    ]

-- The columns that are read move with the job.
scan_latest_if :
    (new : String) (b c : Bool) (o p : Option BooxJob)
    → scan_latest (if b then Option.map (job_under new) o else if c then none else p) ≡ (
        if b then Option.map (job_under new) (scan_latest o) else if c then none else scan_latest p)
unfolding scan_latest
scan_latest_if new true c none p = refl
scan_latest_if new true c (some j) p = refl
scan_latest_if new false true o p = refl
scan_latest_if new false false o p = refl

rename_all_lem :
    (old new : String) (change : BooxNote → BooxNote) (db db' : NoteDb)
    → ((n : BooxNote) → (change n).path ≡ new)
    → str_eq old new ≡ false
    → IsSound db
    → has_note db.notes old ≡ true
    → rename_all old new change db ≡ ok db'
    → HasMoved old new change db db'
unfolding rename_all get_note get_latest_job
rename_all_lem old new change db db' to_new ne h there e =
    let (notes, t, g) = bind-eq-ok (rename_notes old new change db.notes) _ e in
    let (content, u, k) = bind-eq-ok (rename_content old new db.content) _ g in
    let (free, as_changed) = rename_notes-ok old new change db.notes notes ne there t in
    subst (HasMoved old new change db) (ok-injective k) (
      λ p. ap (first_row (path_is p)) (sym as_changed) ∙ notes_lem p db.notes free,
      λ p.
          ap scan_latest (jobs_lem p db.jobs (no_jobs db.notes db.jobs new free h.linked))
          ∙ scan_latest_if new (str_eq p new) (str_eq p old) (latest (of_note old) db.jobs)
              (latest (of_note p) db.jobs),
    )
  where
    notes_lem :
        (p : String) (notes : List BooxNote)
        → has_note notes new ≡ false
        → first_row (path_is p) (change_where (path_is old) change notes) ≡ (
            if str_eq p new
            then Option.map change (first_row (path_is old) notes)
            else if str_eq p old
            then none
            else first_row (path_is p) notes)
    notes_lem p notes free = elim (Bool-cases (str_eq p new)) [
      | inl m ↦ rw m (
          ap (λ q. first_row (path_is q) (change_where (path_is old) change notes))
            ((eq_iff p new).0 m)
          ∙ first_row-new old new ne change to_new notes free)
      | inr m ↦ rw m (first_row-other old new ne change to_new p notes m)
    ]

    jobs_lem :
        (p : String) (jobs : List BooxJob)
        → any (of_note new) jobs ≡ false
        → latest (of_note p) (rename_jobs old new jobs) ≡ (
            if str_eq p new
            then Option.map (job_under new) (latest (of_note old) jobs)
            else if str_eq p old
            then none
            else latest (of_note p) jobs)
    jobs_lem p jobs free = elim (Bool-cases (str_eq p new)) [
      | inl m ↦ rw m (
          ap (λ q. latest (of_note q) (rename_jobs old new jobs)) ((eq_iff p new).0 m)
          ∙ latest-new old new ne jobs free)
      | inr m ↦ elim (Bool-cases (str_eq p old)) [
        | inl n ↦
            rw (m, n)
              (ap (λ q. latest (of_note q) (rename_jobs old new jobs)) ((eq_iff p old).0 n)
                ∙ latest-old old new ne jobs)
        | inr n ↦ rw (m, n) (latest-other old new ne p jobs n m)
      ]
    ]

-- On sound tables a move of a note to another path that succeeds shows under the new path the note
-- with its folder and time and its latest job, nothing under the old one, and the same as before
-- under any other.
pub move_note_lem :
    (now : ℤ) (old new folder : String) (db db' : NoteDb)
    → str_eq old new ≡ false
    → IsSound db
    → has_note db.notes old ≡ true
    → move_note now old new folder db ≡ ok db'
    → HasMoved old new (moved now new folder) db db'
unfolding move_note
move_note_lem now old new folder db db' ne h there e =
    rename_all_lem old new (moved now new folder) db db' (λ n. unfold moved in refl) ne h there e
