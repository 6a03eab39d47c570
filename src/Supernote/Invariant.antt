-- ===== src/Supernote/Invariant.antt =====
-- The scan and every other operation keep the tables intact.
use boox_bridge.Prelude.{
  String, ◌≡◌, refl, ◌∙◌, inl, inr, Bool, true, false, not, Option, none, some, List, [], ◌∷◌, ◌++◌,
  ◌==◌, Bool-cases, arith,
}
use boox_bridge.Prelude.Text.{str_eq, eq_iff}
use boox_bridge.Prelude.Int.{ℤ, eqb_int}
use boox_bridge.Prelude.Lists.{keep, any, map-keep, map-append}
use boox_bridge.Prelude.Keys.{
  has-append, append-IsDistinct, has-keep, keep-IsDistinct, keep_rows-IsDistinct,
}
use boox_bridge.Notedb.{first_row-none}
use boox_bridge.Prelude.Picks.{pick}
use boox_bridge.Supernote.Rows.{NoteRow, Job, SupernoteDb, first_row, at_path, for_path}
use boox_bridge.Supernote.Queue.{
  unskip, set_pending, is_claimable, queued_before, claim_next, reclaim_stuck, set_reclaimed,
  set_sha256,
}
use boox_bridge.Supernote.Notes.{
  FileInfo, Entry, Walk, set_hash, new_note, refreshed_note, upsert_file, visit_known, visit_file,
  mark_seen, visit_entry, visit_entries, prune_path, prune_paths, orphans, prune_orphans, scan,
}
use boox_bridge.Supernote.Steps.{Step}
use boox_bridge.Supernote.Moves.{rename_file-IsIntact, transfer_job-IsIntact}
use boox_bridge.Supernote.Integrity.{
  IsIntact, note_paths, job_paths, has_path, nat_iff, changed-IsIntact, changed_notes-IsIntact,
  any-note_paths, enqueue-IsIntact, skip-IsIntact, mark_started-IsIntact, process_job-IsIntact,
  requeue_job-IsIntact,
}

new_note-IsIntact :
    (now : ℤ) (path : String) (info : FileInfo) (db : SupernoteDb)
    → any (at_path path) db.notes ≡ false
    → IsIntact db
    → IsIntact (record db { notes = db.notes ++ new_note now path info ∷ [] })
unfolding new_note
new_note-IsIntact now path info db free h = record {
  linked = λ p there.
      rw (map-append (λ (n : NoteRow). n.path) db.notes (new_note now path info ∷ []))
        (has-append str_eq eq_iff (note_paths db.notes) path p ∙ rw (h.linked p there) refl);
  notes_distinct =
      rw (map-append (λ (n : NoteRow). n.path) db.notes (new_note now path info ∷ [])) (
        append-IsDistinct str_eq eq_iff (note_paths db.notes) path
          (any-note_paths path db.notes ∙ free) h.notes_distinct);
  jobs_distinct = h.jobs_distinct;
  ids_distinct = h.ids_distinct;
}

upsert_file-IsIntact :
    (now : ℤ) (path : String) (info : FileInfo) (db : SupernoteDb)
    → IsIntact db
    → IsIntact (upsert_file now path info db)
unfolding upsert_file
upsert_file-IsIntact now path info db h = elim (Bool-cases (any (at_path path) db.notes)) [
  | inl m ↦ rw m (
      changed_notes-IsIntact (at_path path) (refreshed_note now info) db
        (λ n. unfold refreshed_note in refl) h)
  | inr m ↦ rw m (new_note-IsIntact now path info db m h)
]

visit_known-IsIntact :
    (now : ℤ) (path : String) (info : FileInfo) (n : NoteRow) (w : Walk)
    → IsIntact w.db
    → IsIntact (visit_known now path info n w).db
unfolding visit_known
visit_known-IsIntact now path info n w h = elim (Bool-cases (eqb_int n.mtime info.mtime)) [
  | inl m ↦ rw m h
  | inr m ↦ rw m (
      changed_notes-IsIntact (at_path path) (refreshed_note now info) w.db
        (λ k. unfold refreshed_note in refl) h)
]

visit_file-IsIntact :
    (now : ℤ) (path : String) (info : FileInfo) (o : Option NoteRow) (w : Walk)
    → first_row (at_path path) w.db.notes ≡ o
    → IsIntact w.db
    → IsIntact (visit_file now path info o w).db
unfolding visit_file
visit_file-IsIntact now path info none w e h =
    new_note-IsIntact now path info w.db (first_row-none (at_path path) w.db.notes e) h
visit_file-IsIntact now path info (some n) w e h = visit_known-IsIntact now path info n w h

visit_entry-IsIntact :
    (now : ℤ) (e : Entry) (w : Walk) → IsIntact w.db → IsIntact (visit_entry now e w).db
unfolding visit_entry mark_seen
visit_entry-IsIntact now (Entry.unreadable path) w h = h
visit_entry-IsIntact now (Entry.directory path) w h = h
visit_entry-IsIntact now (Entry.file path none) w h = h
visit_entry-IsIntact now (Entry.file path (some info)) w h =
    visit_file-IsIntact now path info (first_row (at_path path) w.db.notes) w refl h

visit_entries-IsIntact :
    (now : ℤ) (es : List Entry) (w : Walk) → IsIntact w.db → IsIntact (visit_entries now es w).db
unfolding visit_entries
visit_entries-IsIntact now [] w h = h
visit_entries-IsIntact now (e ∷ es) w h =
    visit_entries-IsIntact now es (visit_entry now e w) (visit_entry-IsIntact now e w h)

-- The keys that a pruned path leaves.
pub note_paths-keep :
    (path : String) (notes : List NoteRow)
    → note_paths (keep (λ n. not (at_path path n)) notes)
      ≡ keep (λ p. not (str_eq p path)) (note_paths notes)
unfolding at_path
note_paths-keep path notes = map-keep _ _ _ notes (λ n. refl)

pub job_paths-keep :
    (path : String) (jobs : List Job)
    → job_paths (keep (λ j. not (for_path path j)) jobs)
      ≡ keep (λ p. not (str_eq p path)) (job_paths jobs)
unfolding for_path
job_paths-keep path jobs = map-keep _ _ _ jobs (λ j. refl)

prune_path-IsIntact :
    (path : String) (db : SupernoteDb) → IsIntact db → IsIntact (prune_path path db)
unfolding prune_path
prune_path-IsIntact path db h =
    let other : String → Bool = λ p. not (str_eq p path) in
    record {
      linked = rw (job_paths-keep path db.jobs, note_paths-keep path db.notes) linked;
      notes_distinct =
          rw (note_paths-keep path db.notes)
            (keep-IsDistinct str_eq eq_iff other (note_paths db.notes) h.notes_distinct);
      jobs_distinct =
          rw (job_paths-keep path db.jobs)
            (keep-IsDistinct str_eq eq_iff other (job_paths db.jobs) h.jobs_distinct);
      ids_distinct = keep_rows-IsDistinct ◌==◌ nat_iff (λ (j : Job). j.id) _ db.jobs h.ids_distinct;
    }
  where
    linked :
        (p : String)
        → has_path (keep (λ q. not (str_eq q path)) (job_paths db.jobs)) p ≡ true
        → has_path (keep (λ q. not (str_eq q path)) (note_paths db.notes)) p ≡ true
    linked p there =
        has-keep str_eq eq_iff (λ q. not (str_eq q path)) (note_paths db.notes) p
        ∙ ground (
          arith,
          there,
          h.linked p,
          has-keep str_eq eq_iff (λ q. not (str_eq q path)) (job_paths db.jobs) p,
        )

prune_paths-IsIntact :
    (paths : List String) (db : SupernoteDb) → IsIntact db → IsIntact (prune_paths paths db)
unfolding prune_paths
prune_paths-IsIntact [] db h = h
prune_paths-IsIntact (path ∷ paths) db h =
    prune_paths-IsIntact paths (prune_path path db) (prune_path-IsIntact path db h)

-- Every operation of the inventory and of the queue that succeeds keeps a note for each job, at
-- most one note and one job for a path, and the ids of the jobs apart.
pub Step-IsIntact : {db db' : SupernoteDb} → Step db db' → IsIntact db → IsIntact db'
unfolding unskip set_pending claim_next reclaim_stuck set_reclaimed set_hash set_sha256 scan
    prune_orphans
Step-IsIntact (Step.enqueues now after path db db' e) h = enqueue-IsIntact now after path db db' e h
Step-IsIntact (Step.skips now path reason db db' e) h = skip-IsIntact now path reason db db' e h
Step-IsIntact (Step.unskips path db) h = changed-IsIntact _ set_pending db (λ j. refl) (λ j. refl) h
Step-IsIntact (Step.claims now db) h =
    mark_started-IsIntact now (pick (is_claimable now) queued_before db.jobs) db h
Step-IsIntact (Step.processes now j ending db) h = process_job-IsIntact now j ending db h
Step-IsIntact (Step.requeues at_time id db db' e) h = requeue_job-IsIntact at_time id db db' e h
Step-IsIntact (Step.reclaims cutoff db) h =
    changed-IsIntact _ set_reclaimed db (λ j. refl) (λ j. refl) h
Step-IsIntact (Step.hashes path hash db) h =
    changed_notes-IsIntact _ (set_sha256 hash) db (λ n. refl) h
Step-IsIntact (Step.transfers old new db db' e) h = transfer_job-IsIntact old new db db' e h
Step-IsIntact (Step.renames old new db db' e) h = rename_file-IsIntact old new db db' e h
Step-IsIntact (Step.upserts now path info db) h = upsert_file-IsIntact now path info db h
Step-IsIntact (Step.scans now entries db) h =
    let w = visit_entries now entries (record { db = db; changed = []; seen = [] }) in
    prune_paths-IsIntact (orphans w.seen w.db.notes) w.db
      (visit_entries-IsIntact now entries (record { db = db; changed = []; seen = [] }) h)
