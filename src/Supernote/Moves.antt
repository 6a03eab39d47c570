-- ===== src/Supernote/Moves.antt =====
-- Moving a job, and a note with its job, to another path keeps the tables intact.
use boox_bridge.Prelude.{
  String, ◌≡◌, refl, subst, inl, inr, true, false, not, ◌&&◌, List, [], ◌∷◌, map, Bool-cases, arith,
}
use boox_bridge.Prelude.Text.{str_eq, eq_iff}
use boox_bridge.Prelude.Lists.{any, map-map_change}
use boox_bridge.Prelude.Keys.{
  IsDistinct, has-eqb, rename_key, has-rename, rename-IsDistinct, has-rename_mono,
}
use boox_bridge.Prelude.Result.{ok, ok-injective}
use boox_bridge.Supernote.Rows.{NoteRow, Job, SupernoteDb, at_path, for_path}
use boox_bridge.Supernote.Notes.{
  moved_job, job_clash, transfer_job, moved_note, note_clash, rename_file,
}
use boox_bridge.Supernote.Integrity.{
  IsIntact, note_paths, job_paths, job_ids, has_path, Linked, any-note_paths, any-job_paths,
}

-- The paths of jobs and notes under another one.
job_paths-moved :
    (old new : String) (jobs : List Job)
    → job_paths (map (moved_job old new) jobs)
      ≡ map (rename_key str_eq eq_iff old new) (job_paths jobs)
unfolding moved_job
job_paths-moved old new jobs =
    map-map_change (λ (j : Job). j.note_path) (moved_job old new) (rename_key str_eq eq_iff old new)
      jobs (λ j. refl)

job_ids-moved :
    (old new : String) (jobs : List Job) → job_ids (map (moved_job old new) jobs) ≡ job_ids jobs
unfolding moved_job
job_ids-moved old new [] = refl
job_ids-moved old new (j ∷ jobs) = cc (job_ids-moved old new jobs)

note_paths-moved :
    (old new : String) (notes : List NoteRow)
    → note_paths (map (moved_note old new) notes)
      ≡ map (rename_key str_eq eq_iff old new) (note_paths notes)
unfolding moved_note
note_paths-moved old new notes =
    map-map_change (λ (n : NoteRow). n.path) (moved_note old new) (rename_key str_eq eq_iff old new)
      notes (λ n. refl)

jobs_apart :
    (old new : String) (db : SupernoteDb)
    → job_clash old new db.jobs ≡ false
    → IsIntact db
    → IsDistinct str_eq eq_iff (job_paths (map (moved_job old new) db.jobs))
unfolding job_clash
jobs_apart old new db k h = rw (job_paths-moved old new db.jobs) (
    rename-IsDistinct str_eq eq_iff old new (job_paths db.jobs)
      (rw (any-job_paths old db.jobs, any-job_paths new db.jobs) k) h.jobs_distinct)

pub rename_file-IsIntact :
    (old new : String) (db db' : SupernoteDb)
    → rename_file old new db ≡ ok db'
    → IsIntact db
    → IsIntact db'
unfolding rename_file
rename_file-IsIntact old new db db' e h = elim (Bool-cases (note_clash old new db.notes)) [
  | inl m ↦ cc (rw m at e)
  | inr m ↦ elim (Bool-cases (job_clash old new db.jobs)) [
    | inl k ↦ cc (rw (m, k) at e)
    | inr k ↦ subst IsIntact (ok-injective (rw (m, k) at e)) (record {
      linked =
          rw (job_paths-moved old new db.jobs, note_paths-moved old new db.notes)
            (has-rename_mono str_eq eq_iff old new (job_paths db.jobs) (note_paths db.notes)
              h.linked);
      notes_distinct = rw (note_paths-moved old new db.notes) (
          rename-IsDistinct str_eq eq_iff old new (note_paths db.notes) (apart m) h.notes_distinct);
      jobs_distinct = jobs_apart old new db k h;
      ids_distinct = rw (job_ids-moved old new db.jobs) h.ids_distinct;
    })
  ]
]
  where
    apart :
        note_clash old new db.notes ≡ false
        → not (str_eq old new)
            && (has_path (note_paths db.notes) old && has_path (note_paths db.notes) new)
          ≡ false
    apart m = rw (any-note_paths old db.notes, any-note_paths new db.notes) (unfold note_clash in m)

pub transfer_job-IsIntact :
    (old new : String) (db db' : SupernoteDb)
    → transfer_job old new db ≡ ok db'
    → IsIntact db
    → IsIntact db'
unfolding transfer_job
transfer_job-IsIntact old new db db' e h = elim (Bool-cases (any (for_path old) db.jobs)) [
  | inr a ↦ cc (rw a at e)
  | inl a ↦ elim (Bool-cases (job_clash old new db.jobs)) [
    | inl k ↦ cc (rw (k, a) at e)
    | inr k ↦ elim (Bool-cases (any (at_path new) db.notes)) [
      | inr m ↦ cc (rw (k, a, m) at e)
      | inl m ↦ subst IsIntact (ok-injective (rw (k, a, m) at e)) (record {
        linked = rw (job_paths-moved old new db.jobs) (linked m);
        notes_distinct = h.notes_distinct;
        jobs_distinct = jobs_apart old new db k h;
        ids_distinct = rw (job_ids-moved old new db.jobs) h.ids_distinct;
      })
    ]
  ]
]
  where
    linked :
        any (at_path new) db.notes ≡ true
        → Linked (map (rename_key str_eq eq_iff old new) (job_paths db.jobs)) (note_paths db.notes)
    linked m p there = ground (
      arith,
      there,
      m,
      any-note_paths new db.notes,
      has-rename str_eq eq_iff old new (job_paths db.jobs) p,
      has-eqb str_eq eq_iff (note_paths db.notes) p new,
      h.linked p,
    )
