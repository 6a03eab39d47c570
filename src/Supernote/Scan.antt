-- ===== src/Supernote/Scan.antt =====
-- What Scan does to the inventory: which notes and jobs are there after it, and what it returns.
use boox_bridge.Prelude.{
  String, ◌≡◌, refl, ◌∙◌, inl, inr, true, false, not, ◌&&◌, ◌||◌, none, some, if◌then◌else◌, List,
  [], ◌∷◌, Option-cases, arith,
}
use boox_bridge.Prelude.Text.{str_eq, eq_iff}
use boox_bridge.Prelude.Int.{ℤ}
use boox_bridge.Prelude.Lists.{keep, any, map-keep}
use boox_bridge.Prelude.Keys.{has, IsDistinct, has-eqb, has-keep}
use boox_bridge.Notedb.{first_row-some}
use boox_bridge.Supernote.Rows.{NoteRow, Job, SupernoteDb, first_row, at_path, for_path}
use boox_bridge.Supernote.Queue.{get_job}
use boox_bridge.Supernote.Notes.{
  Entry, Walk, visit_file, mark_seen, visit_entry, visit_entries, prune_path, prune_paths, orphans,
  prune_orphans, scan,
}
use boox_bridge.Supernote.Integrity.{IsIntact, note_paths, has_path, any-job_paths}
use boox_bridge.Supernote.Invariant.{note_paths-keep}
use boox_bridge.Supernote.Visits.{
  read_paths, is_changed, visit_file-seen, visit_file-jobs, visit_file-changed, visit_file-notes,
  visit_file-other,
}

module _ (now : ℤ) where
  visit_entries-seen :
      (es : List Entry) (w : Walk) (p : String)
      → has_path (visit_entries now es w).seen p ≡ has_path w.seen p || has_path (read_paths es) p
  unfolding visit_entries visit_entry mark_seen
  visit_entries-seen [] w p = unfold has any in ground arith
  visit_entries-seen (Entry.unreadable path ∷ es) w p = visit_entries-seen es w p
  visit_entries-seen (Entry.directory path ∷ es) w p = visit_entries-seen es w p
  visit_entries-seen (Entry.file path none ∷ es) w p = visit_entries-seen es w p
  visit_entries-seen (Entry.file path (some info) ∷ es) w p =
      visit_entries-seen es _ p
      ∙ rw (visit_file-seen now path info w (first_row (at_path path) w.db.notes))
          (unfold has any in ground arith)

  visit_entries-jobs : (es : List Entry) (w : Walk) → (visit_entries now es w).db.jobs ≡ w.db.jobs
  unfolding visit_entries visit_entry mark_seen
  visit_entries-jobs [] w = refl
  visit_entries-jobs (Entry.unreadable path ∷ es) w = visit_entries-jobs es w
  visit_entries-jobs (Entry.directory path ∷ es) w = visit_entries-jobs es w
  visit_entries-jobs (Entry.file path none ∷ es) w = visit_entries-jobs es w
  visit_entries-jobs (Entry.file path (some info) ∷ es) w =
      visit_entries-jobs es _
      ∙ visit_file-jobs now path info w (first_row (at_path path) w.db.notes)

  visit_entries-notes :
      (es : List Entry) (w : Walk) (p : String)
      → has_path (note_paths (visit_entries now es w).db.notes) p
        ≡ has_path (note_paths w.db.notes) p || has_path (read_paths es) p
  unfolding visit_entries visit_entry mark_seen
  visit_entries-notes [] w p = unfold has any in ground arith
  visit_entries-notes (Entry.unreadable path ∷ es) w p = visit_entries-notes es w p
  visit_entries-notes (Entry.directory path ∷ es) w p = visit_entries-notes es w p
  visit_entries-notes (Entry.file path none ∷ es) w p = visit_entries-notes es w p
  visit_entries-notes (Entry.file path (some info) ∷ es) w p =
      visit_entries-notes es _ p
      ∙ rw (visit_file-notes now path info w (first_row (at_path path) w.db.notes) p refl)
          (unfold has any in ground arith)

  -- A visit at one path leaves what is to be said of the files at others.
  is_changed_cong :
      (es : List Entry) (notes notes' : List NoteRow) (p : String)
      → ((q : String)
          → has_path (read_paths es) q ≡ true
          → first_row (at_path q) notes' ≡ first_row (at_path q) notes)
      → is_changed notes' es p ≡ is_changed notes es p
  unfolding has any
  is_changed_cong [] notes notes' p same = refl
  is_changed_cong (Entry.unreadable path ∷ es) notes notes' p same =
      is_changed_cong es notes notes' p same
  is_changed_cong (Entry.directory path ∷ es) notes notes' p same =
      is_changed_cong es notes notes' p same
  is_changed_cong (Entry.file path none ∷ es) notes notes' p same =
      is_changed_cong es notes notes' p same
  is_changed_cong (Entry.file path (some info) ∷ es) notes notes' p same =
      rw
        (
          same path (ground (arith, eq_iff path path)),
          is_changed_cong es notes notes' p (λ q m. same q (ground (arith, m))),
        )
        refl

  visit_entries-changed :
      (es : List Entry) (w : Walk) (p : String)
      → IsDistinct str_eq eq_iff (read_paths es)
      → has_path (visit_entries now es w).changed p
        ≡ has_path w.changed p || is_changed w.db.notes es p
  unfolding visit_entries visit_entry mark_seen
  visit_entries-changed [] w p d = ground arith
  visit_entries-changed (Entry.unreadable path ∷ es) w p d = visit_entries-changed es w p d
  visit_entries-changed (Entry.directory path ∷ es) w p d = visit_entries-changed es w p d
  visit_entries-changed (Entry.file path none ∷ es) w p d = visit_entries-changed es w p d
  visit_entries-changed (Entry.file path (some info) ∷ es) w p d =
      let found = first_row (at_path path) w.db.notes in
      visit_entries-changed es _ p d.1
      ∙ rw
          (
            visit_file-changed now path info w found p,
            is_changed_cong es w.db.notes (visit_file now path info found w).db.notes p apart,
          )
          (ground arith)
    where
      apart :
          (q : String)
          → has_path (read_paths es) q ≡ true
          → first_row
              (at_path q)
              (visit_file now path info (first_row (at_path path) w.db.notes) w).db.notes
            ≡ first_row (at_path q) w.db.notes
      apart q m =
          visit_file-other now path info w (first_row (at_path path) w.db.notes) q
            (ground (arith, m, d.0, eq_iff path q, has-eqb str_eq eq_iff (read_paths es) path q))

-- What is left after pruning.
prune_paths-notes :
    (paths : List String) (db : SupernoteDb) (p : String)
    → has_path (note_paths (prune_paths paths db).notes) p
      ≡ has_path (note_paths db.notes) p && not (has_path paths p)
unfolding prune_paths prune_path
prune_paths-notes [] db p = unfold has any in ground arith
prune_paths-notes (path ∷ paths) db p =
    prune_paths-notes paths (prune_path path db) p
    ∙ rw
        (
          note_paths-keep path db.notes,
          has-keep str_eq eq_iff (λ q. not (str_eq q path)) (note_paths db.notes) p,
        )
        (unfold has any in ground (arith, eq_iff path p, eq_iff p path))

first_row-keep :
    (path p : String) (jobs : List Job)
    → first_row (for_path p) (keep (λ j. not (for_path path j)) jobs)
      ≡ (if str_eq path p then none else first_row (for_path p) jobs)
unfolding first_row keep for_path
first_row-keep path p [] = ground arith
first_row-keep path p (j ∷ jobs) = ground (
  arith,
  first_row-keep path p jobs,
  eq_iff j.note_path path,
  eq_iff path p,
  eq_iff j.note_path p,
)

prune_paths-jobs :
    (paths : List String) (db : SupernoteDb) (p : String)
    → get_job p (prune_paths paths db) ≡ (if has_path paths p then none else get_job p db)
unfolding prune_paths prune_path get_job has any
prune_paths-jobs [] db p = refl
prune_paths-jobs (path ∷ paths) db p =
    prune_paths-jobs paths (prune_path path db) p
    ∙ rw (first_row-keep path p db.jobs) (ground arith)

has_path-orphans :
    (seen : List String) (notes : List NoteRow) (p : String)
    → has_path (orphans seen notes) p ≡ has_path (note_paths notes) p && not (has_path seen p)
unfolding orphans has any
has_path-orphans seen notes p =
    rw
      (map-keep (λ (n : NoteRow). n.path) (λ (n : NoteRow). not (has_path seen n.path))
        (λ q. not (has_path seen q)) notes (λ n. refl))
      (has-keep str_eq eq_iff (λ q. not (has_path seen q)) (note_paths notes) p)

-- What a walk leaves: the notes of the files that it could read, with the jobs that they had.
abbrev pub IsScanned : List Entry → SupernoteDb → List String × SupernoteDb → Type 0
IsScanned es db r =
    ((p : String) → has_path (note_paths r.1.notes) p ≡ has_path (read_paths es) p)
    × ((p : String) → get_job p r.1 ≡ (if has_path (read_paths es) p then get_job p db else none))
    × ((p : String) → has_path r.0 p ≡ is_changed db.notes es p)

no_job :
    (p : String) (db : SupernoteDb)
    → IsIntact db
    → has_path (note_paths db.notes) p ≡ false
    → get_job p db ≡ none
unfolding get_job
no_job p db h free = elim (Option-cases (first_row (for_path p) db.jobs)) [
  | inl e ↦ e
  | inr (j, e) ↦
      cc (free, h.linked p (any-job_paths p db.jobs ∙ first_row-some (for_path p) db.jobs j e))
]

-- The walk of a scan.
abbrev walked : ℤ → List Entry → SupernoteDb → Walk
walked now es db = visit_entries now es (record { db = db; changed = []; seen = [] })

module _ (now : ℤ) (es : List Entry) (db : SupernoteDb) where
  walked-seen : (p : String) → has_path (walked now es db).seen p ≡ has_path (read_paths es) p
  unfolding has any
  walked-seen p = visit_entries-seen now es (record { db = db; changed = []; seen = [] }) p

  walked-orphans :
      (p : String)
      → has_path (orphans (walked now es db).seen (walked now es db).db.notes) p
        ≡ has_path (note_paths db.notes) p && not (has_path (read_paths es) p)
  walked-orphans p =
      has_path-orphans (walked now es db).seen (walked now es db).db.notes p
      ∙ rw
          (
            walked-seen p,
            visit_entries-notes now es (record { db = db; changed = []; seen = [] }) p,
          )
          (ground arith)

  left_notes :
      (p : String)
      → has_path (note_paths (prune_orphans (walked now es db).seen (walked now es db).db).notes) p
        ≡ has_path (read_paths es) p
  unfolding prune_orphans
  left_notes p =
      prune_paths-notes (orphans (walked now es db).seen (walked now es db).db.notes)
        (walked now es db).db p
      ∙ rw
          (
            walked-orphans p,
            visit_entries-notes now es (record { db = db; changed = []; seen = [] }) p,
          )
          (ground arith)

  left_jobs :
      IsIntact db
      → (p : String)
      → get_job p (prune_orphans (walked now es db).seen (walked now es db).db)
        ≡ (if has_path (read_paths es) p then get_job p db else none)
  unfolding prune_orphans get_job
  left_jobs h p =
      prune_paths-jobs (orphans (walked now es db).seen (walked now es db).db.notes)
        (walked now es db).db p
      ∙ rw
          (
            walked-orphans p,
            visit_entries-jobs now es (record { db = db; changed = []; seen = [] }),
          )
          (ground (arith, no_job p db h))

-- On intact tables, where the walk of a Scan meets no path twice, the notes after it are of exactly
-- the files whose state the walk could read, each such path has the job it had and every other path
-- has none, and the result names exactly those files that had no note or one with another time of
-- change.
pub scan_lem :
    (now : ℤ) (es : List Entry) (db : SupernoteDb)
    → IsIntact db
    → IsDistinct str_eq eq_iff (read_paths es)
    → IsScanned es db (scan now es db)
unfolding scan has any
scan_lem now es db h d = (
  left_notes now es db,
  left_jobs now es db h,
  λ p. visit_entries-changed now es (record { db = db; changed = []; seen = [] }) p d,
)
