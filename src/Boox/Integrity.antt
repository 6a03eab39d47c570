-- ===== src/Boox/Integrity.antt =====
-- Every operation of the store keeps the tables sound.
use boox_bridge.Prelude.{
  ℕ, suc, ◌≤◌, String, ◌≡◌, refl, subst, ◌∙◌, inl, inr, Bool, false, Option, none, some,
  if◌then◌else◌, List, [], ◌∷◌, ◌++◌, map, Bool-cases, arith,
}
use boox_bridge.Prelude.Text.{eq_iff}
use boox_bridge.Prelude.Int.{ℤ}
use boox_bridge.Prelude.Lists.{keep}
use boox_bridge.Prelude.Result.{ok, ok-injective, bind-eq-ok}
use boox_bridge.Boox.Rows.{
  latest, of_note, BooxNote, BooxJob, NoteContent, NoteDb, id_is, change_where,
}
use boox_bridge.Boox.Notes.{
  upsert_row, upsert_note, insert_or_ignore, minimal_note, new_job, enqueue_job, rename_notes,
  rename_jobs, rename_content, rename_all, with_path, update_note_path, moved, move_note,
  delete_note,
}
use boox_bridge.Boox.Dates.{
  updates_of, apply_updates, apply_updates-keeps, reconcile_created_at_from_filename,
}
use boox_bridge.Boox.Queue.{
  start, claim, next_job, claim_next_job, finish, complete_job, give_up, fail_job, skip_job,
  change_found, change_latest, skip_note, unskip_job, unskip_note, retry_job, retry_all_failed,
  reclaim, reclaim_all_in_progress, reclaim_stuck_jobs,
}
use boox_bridge.Boox.Steps.{Step}
use boox_bridge.Boox.Paths.{rename_notes-HasDistinctPaths, dangling-rename_jobs}
use boox_bridge.Boox.Linked.{
  dangling, has_note, HasDistinctPaths, Ascending, dangling-map, dangling-grow, dangling-append,
  has_note-upsert_row, upsert_row-HasDistinctPaths, has_note-insert_or_ignore,
  insert_or_ignore-HasDistinctPaths, dangling-keep, keep-HasDistinctPaths,
}

-- Each job has a note, the paths of the notes differ, and so do the ids of the jobs.
pub record IsSound (db : NoteDb) : Type 0 where
  pub linked : dangling db.notes db.jobs ≡ false
  pub distinct : HasDistinctPaths db.notes
  pub ascending : Ascending 0 db.jobs db.sequence

pub Ascending-map :
    (g : BooxJob → BooxJob) (low sequence : ℕ) (jobs : List BooxJob)
    → ((j : BooxJob) → (g j).id ≡ j.id)
    → Ascending low jobs sequence
    → Ascending low (map g jobs) sequence
Ascending-map g low sequence [] same h = h
Ascending-map g low sequence (j ∷ jobs) same h =
    rw (same j) (h.0, Ascending-map g j.id sequence jobs same h.1)

Ascending-lower :
    (low low' sequence : ℕ) (jobs : List BooxJob)
    → low' ≤ low
    → Ascending low jobs sequence
    → Ascending low' jobs sequence
Ascending-lower low low' sequence [] h a = omega (arith, h, a)
Ascending-lower low low' sequence (j ∷ jobs) h a = (omega (arith, h, a.0), a.1)

Ascending-keep :
    (p : BooxJob → Bool) (low sequence : ℕ) (jobs : List BooxJob)
    → Ascending low jobs sequence
    → Ascending low (keep p jobs) sequence
unfolding keep
Ascending-keep p low sequence [] h = h
Ascending-keep p low sequence (j ∷ jobs) h =
    let rest = Ascending-keep p j.id sequence jobs h.1 in
    elim (Bool-cases (p j)) [
      | inl e ↦ rw e (h.0, rest)
      | inr e ↦ rw e (Ascending-lower j.id low sequence (keep p jobs) (omega (arith, h.0)) rest)
    ]

Ascending-append :
    (low sequence : ℕ) (jobs : List BooxJob) (j : BooxJob)
    → j.id ≡ suc sequence
    → Ascending low jobs sequence
    → Ascending low (jobs ++ j ∷ []) (suc sequence)
Ascending-append low sequence [] j e h = (omega (arith, e, h), omega (arith, e))
Ascending-append low sequence (i ∷ jobs) j e h = (h.0, Ascending-append i.id sequence jobs j e h.1)

-- A change of some jobs that keeps their ids and notes.
changed-IsSound :
    (p : BooxJob → Bool) (change : BooxJob → BooxJob) (db : NoteDb)
    → ((j : BooxJob) → (change j).id ≡ j.id)
    → ((j : BooxJob) → (change j).note_path ≡ j.note_path)
    → IsSound db
    → IsSound (record db { jobs = change_where p change db.jobs })
unfolding change_where
changed-IsSound p change db ids paths h = record {
  linked = dangling-map db.notes each db.jobs each-note_path ∙ h.linked;
  distinct = h.distinct;
  ascending = Ascending-map each 0 db.sequence db.jobs each-id h.ascending;
}
  where
    each : BooxJob → BooxJob
    each j = if p j then change j else j

    each-id : (j : BooxJob) → (each j).id ≡ j.id
    each-id j = elim (Bool-cases (p j)) [ inl e ↦ rw e (ids j) | inr e ↦ rw e refl ]

    each-note_path : (j : BooxJob) → (each j).note_path ≡ j.note_path
    each-note_path j = elim (Bool-cases (p j)) [ inl e ↦ rw e (paths j) | inr e ↦ rw e refl ]

claim-IsSound :
    (now : ℤ) (o : Option BooxJob) (db : NoteDb) → IsSound db → IsSound (claim now o db).1
unfolding claim start
claim-IsSound now none db h = h
claim-IsSound now (some j) db h =
    changed-IsSound (id_is j.id) (start now) db (λ j. refl) (λ j. refl) h

change_found-IsSound :
    (o : Option BooxJob) (path : String) (p : BooxJob → Bool) (change : BooxJob → BooxJob)
    (db : NoteDb)
    → ((j : BooxJob) → (change j).id ≡ j.id)
    → ((j : BooxJob) → (change j).note_path ≡ j.note_path)
    → IsSound db
    → IsSound (change_found o path p change db)
unfolding change_found
change_found-IsSound none path p change db ids paths h = h
change_found-IsSound (some l) path p change db ids paths h = changed-IsSound _ change db ids paths h

upsert_note-IsSound :
    (new : BooxNote) (db : NoteDb)
    → IsSound db
    → IsSound (record db { notes = upsert_row new db.notes })
upsert_note-IsSound new db h = record {
  linked =
      dangling-grow db.notes (upsert_row new db.notes) db.jobs
        (λ p there. has_note-upsert_row new db.notes p ∙ rw there refl) h.linked;
  distinct = upsert_row-HasDistinctPaths new db.notes h.distinct;
  ascending = h.ascending;
}

enqueue_job-IsSound :
    (new : BooxNote) (j : BooxJob) (db : NoteDb)
    → j.note_path ≡ new.path
    → j.id ≡ suc db.sequence
    → IsSound db
    → IsSound (record db {
      notes = insert_or_ignore new db.notes;
      jobs = db.jobs ++ j ∷ [];
      sequence = suc db.sequence;
    })
enqueue_job-IsSound new j db same next h = record {
  linked =
      dangling-append (insert_or_ignore new db.notes) db.jobs j
        (dangling-grow db.notes (insert_or_ignore new db.notes) db.jobs
          (λ p there. has_note-insert_or_ignore new db.notes p ∙ rw there refl) h.linked)
        (has_note-insert_or_ignore new db.notes j.note_path
          ∙ ground (arith, eq_iff new.path j.note_path, same));
  distinct = insert_or_ignore-HasDistinctPaths new db.notes h.distinct;
  ascending = Ascending-append 0 db.sequence db.jobs j next h.ascending;
}

renamed-IsSound :
    (old new : String) (change : BooxNote → BooxNote) (db : NoteDb) (notes : List BooxNote)
    (content : List NoteContent)
    → ((n : BooxNote) → (change n).path ≡ new)
    → rename_notes old new change db.notes ≡ ok notes
    → IsSound db
    → IsSound (record db { notes = notes; jobs = rename_jobs old new db.jobs; content = content })
renamed-IsSound old new change db notes content to_new e h =
    let (distinct, kept) =
      rename_notes-HasDistinctPaths old new change to_new db.notes notes e h.distinct in
    record {
      linked = dangling-rename_jobs old new db.notes notes db.jobs kept h.linked;
      distinct = distinct;
      ascending =
          unfold rename_jobs in Ascending-map _ 0 db.sequence db.jobs (λ j. refl) h.ascending;
    }

rename_all-IsSound :
    (old new : String) (change : BooxNote → BooxNote) (db db' : NoteDb)
    → ((n : BooxNote) → (change n).path ≡ new)
    → rename_all old new change db ≡ ok db'
    → IsSound db
    → IsSound db'
unfolding rename_all
rename_all-IsSound old new change db db' to_new e h =
    let (notes, t, g) = bind-eq-ok (rename_notes old new change db.notes) _ e in
    let (content, u, k) = bind-eq-ok (rename_content old new db.content) _ g in
    subst IsSound (ok-injective k) (renamed-IsSound old new change db notes content to_new t h)

renoted-IsSound :
    (db : NoteDb) (notes : List BooxNote)
    → HasDistinctPaths notes
    → ((p : String) → has_note notes p ≡ has_note db.notes p)
    → IsSound db
    → IsSound (record db { notes = notes })
renoted-IsSound db notes distinct same h = record {
  linked = dangling-grow db.notes notes db.jobs (λ p there. same p ∙ there) h.linked;
  distinct = distinct;
  ascending = h.ascending;
}

delete_note-IsSound : (path : String) (db : NoteDb) → IsSound db → IsSound (delete_note path db)
unfolding delete_note
delete_note-IsSound path db h = record {
  linked = dangling-keep path db.notes db.jobs h.linked;
  distinct = keep-HasDistinctPaths path db.notes h.distinct;
  ascending = Ascending-keep _ 0 db.sequence db.jobs h.ascending;
}

-- Every operation that changes the tables keeps a note for each job, the paths of the notes apart,
-- and the ids of the jobs rising and within the sequence.
pub Step-IsSound : {db db' : NoteDb} → Step db db' → IsSound db → IsSound db'
unfolding reconcile_created_at_from_filename upsert_note enqueue_job minimal_note new_job
    claim_next_job complete_job finish fail_job give_up update_note_path with_path move_note moved
    skip_note skip_job unskip_note unskip_job change_latest retry_all_failed retry_job
    reclaim_all_in_progress reclaim_stuck_jobs reclaim
Step-IsSound
      (Step.upsert now path note_id title device_model note_type folder page_count file_hash
        created_at db)
      h =
    upsert_note-IsSound _ db h
Step-IsSound (Step.enqueue files millis seconds path db) h = enqueue_job-IsSound _ _ db refl refl h
Step-IsSound (Step.claim_next now db) h = claim-IsSound now (next_job now db.jobs) db h
Step-IsSound (Step.complete now id ocr_source api_model db) h =
    changed-IsSound _ _ db (λ j. refl) (λ j. refl) h
Step-IsSound (Step.fail now id message db) h = changed-IsSound _ _ db (λ j. refl) (λ j. refl) h
Step-IsSound (Step.update_path old new db db' e) h =
    rename_all-IsSound old new (with_path new) db db' (λ n. refl) e h
Step-IsSound (Step.move now old new folder db db' e) h =
    rename_all-IsSound old new (moved now new folder) db db' (λ n. refl) e h
Step-IsSound (Step.skip path reason db) h =
    change_found-IsSound (latest (of_note path) db.jobs) path _ _ db (λ j. refl) (λ j. refl) h
Step-IsSound (Step.unskip now path db) h =
    change_found-IsSound (latest (of_note path) db.jobs) path _ _ db (λ j. refl) (λ j. refl) h
Step-IsSound (Step.delete path db) h = delete_note-IsSound path db h
Step-IsSound (Step.retry now db) h = changed-IsSound _ _ db (λ j. refl) (λ j. refl) h
Step-IsSound (Step.reclaim_all db) h = changed-IsSound _ _ db (λ j. refl) (λ j. refl) h
Step-IsSound (Step.reclaim_stuck cutoff db) h = changed-IsSound _ _ db (λ j. refl) (λ j. refl) h
Step-IsSound (Step.reconcile cal now db) h =
    let (distinct, same) = apply_updates-keeps now (updates_of cal db.notes) db.notes h.distinct in
    renoted-IsSound db (apply_updates now (updates_of cal db.notes) db.notes).0 distinct same h
