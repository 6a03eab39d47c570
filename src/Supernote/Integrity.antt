-- ===== src/Supernote/Integrity.antt =====
-- What it is for the tables to be intact: a note for each job, one job at most for a note, and the keys
-- unique. The operations of the queue keep it.
use boox_bridge.Prelude.{
  ℕ, ◌<◌, String, ◌≡◌, ◌↔◌, refl, subst, ◌∙◌, inl, inr, Bool, true, false, Option, none, some, List,
  [], ◌∷◌, ◌++◌, map, ◌==◌, Bool-cases, arith,
}
use boox_bridge.Prelude.Text.{str_eq, eq_iff}
use boox_bridge.Prelude.Int.{ℤ}
use boox_bridge.Prelude.Lists.{any, any-map, map-append}
use boox_bridge.Prelude.Keys.{has, IsDistinct, has-eqb, has-append, append-IsDistinct}
use boox_bridge.Prelude.Result.{ok, ok-injective}
use boox_bridge.Notedb.{map-change_where}
use boox_bridge.Supernote.Rows.{
  NoteRow, Job, SupernoteDb, change_where, at_path, for_path, max_id, next_id,
}
use boox_bridge.Supernote.Queue.{
  blank_job, insert_job, requeued, enqueue, set_skipped, skip, mark_started, set_started, set_done,
  mark_done, is_running, set_requeued, requeue_job, Ending, store_hash, set_sha256, process_job,
}

abbrev pub note_paths : List NoteRow → List String
note_paths notes = map (λ (n : NoteRow). n.path) notes

abbrev pub job_paths : List Job → List String
job_paths jobs = map (λ (j : Job). j.note_path) jobs

abbrev pub job_ids : List Job → List ℕ
job_ids jobs = map (λ (j : Job). j.id) jobs

pub nat_iff : (a b : ℕ) → ((a == b) ≡ true) ↔ (a ≡ b)
nat_iff a b = (λ e. ground (arith, e), λ e. ground (arith, e))

-- On lists of paths and of ids.
abbrev pub has_path : List String → String → Bool
has_path = has str_eq eq_iff

abbrev pub has_id : List ℕ → ℕ → Bool
has_id = has ◌==◌ nat_iff

abbrev pub Linked : List String → List String → Type 0
Linked jobs notes = (p : String) → has_path jobs p ≡ true → has_path notes p ≡ true

pub record IsIntact (db : SupernoteDb) : Type 0 where
  pub linked : Linked (job_paths db.jobs) (note_paths db.notes)
  pub notes_distinct : IsDistinct str_eq eq_iff (note_paths db.notes)
  pub jobs_distinct : IsDistinct str_eq eq_iff (job_paths db.jobs)
  pub ids_distinct : IsDistinct ◌==◌ nat_iff (job_ids db.jobs)

-- It rests on the keys alone.
pub same_keys :
    (db db' : SupernoteDb)
    → note_paths db'.notes ≡ note_paths db.notes
    → job_paths db'.jobs ≡ job_paths db.jobs
    → job_ids db'.jobs ≡ job_ids db.jobs
    → IsIntact db
    → IsIntact db'
same_keys db db' n j i h = record {
  linked = rw (n, j) h.linked;
  notes_distinct = rw n h.notes_distinct;
  jobs_distinct = rw j h.jobs_distinct;
  ids_distinct = rw i h.ids_distinct;
}

pub changed-IsIntact :
    (p : Job → Bool) (change : Job → Job) (db : SupernoteDb)
    → ((j : Job) → (change j).id ≡ j.id)
    → ((j : Job) → (change j).note_path ≡ j.note_path)
    → IsIntact db
    → IsIntact (record db { jobs = change_where p change db.jobs })
changed-IsIntact p change db ids paths h =
    same_keys db _ refl (map-change_where (λ (j : Job). j.note_path) p change db.jobs paths)
      (map-change_where (λ (j : Job). j.id) p change db.jobs ids) h

pub changed_notes-IsIntact :
    (p : NoteRow → Bool) (change : NoteRow → NoteRow) (db : SupernoteDb)
    → ((n : NoteRow) → (change n).path ≡ n.path)
    → IsIntact db
    → IsIntact (record db { notes = change_where p change db.notes })
changed_notes-IsIntact p change db paths h =
    same_keys db _ (map-change_where (λ (n : NoteRow). n.path) p change db.notes paths) refl refl h

pub any-note_paths :
    (path : String) (notes : List NoteRow)
    → has_path (note_paths notes) path ≡ any (at_path path) notes
unfolding has at_path
any-note_paths path notes = any-map _ _ notes

pub any-job_paths :
    (path : String) (jobs : List Job) → has_path (job_paths jobs) path ≡ any (for_path path) jobs
unfolding has for_path
any-job_paths path jobs = any-map _ _ jobs

pub above_max : (i : ℕ) (jobs : List Job) → max_id jobs < i → has_id (job_ids jobs) i ≡ false
unfolding has any max_id
above_max i [] h = refl
above_max i (j ∷ jobs) h = ground (arith, above_max i jobs, h)

-- A new job of a note that has none.
pub insert_job-IsIntact :
    (j : Job) (db db' : SupernoteDb)
    → j.id ≡ next_id db.jobs
    → any (for_path j.note_path) db.jobs ≡ false
    → insert_job j db ≡ ok db'
    → IsIntact db
    → IsIntact db'
unfolding insert_job next_id
insert_job-IsIntact j db db' next free e h =
    elim (Bool-cases (any (at_path j.note_path) db.notes)) [
      | inr m ↦ cc (rw m at e)
      | inl m ↦ subst IsIntact (ok-injective (rw m at e)) (record {
        linked = λ p there.
            linked p m (rw (map-append (λ (k : Job). k.note_path) db.jobs (j ∷ [])) at there);
        notes_distinct = h.notes_distinct;
        jobs_distinct = rw (map-append (λ (k : Job). k.note_path) db.jobs (j ∷ [])) (
            append-IsDistinct str_eq eq_iff (job_paths db.jobs) j.note_path
              (any-job_paths j.note_path db.jobs ∙ free) h.jobs_distinct);
        ids_distinct = rw (map-append (λ (k : Job). k.id) db.jobs (j ∷ [])) (
            append-IsDistinct ◌==◌ nat_iff (job_ids db.jobs) j.id
              (above_max j.id db.jobs (omega (arith, next))) h.ids_distinct);
      })
    ]
  where
    linked :
        (p : String)
        → any (at_path j.note_path) db.notes ≡ true
        → has_path (job_paths db.jobs ++ j.note_path ∷ []) p ≡ true
        → has_path (note_paths db.notes) p ≡ true
    linked p m there = ground (
      arith,
      there,
      m,
      has-append str_eq eq_iff (job_paths db.jobs) j.note_path p,
      h.linked p,
      any-note_paths j.note_path db.notes,
      has-eqb str_eq eq_iff (note_paths db.notes) j.note_path p,
    )

pub enqueue-IsIntact :
    (now : ℤ) (after : Option ℤ) (path : String) (db db' : SupernoteDb)
    → enqueue now after path db ≡ ok db'
    → IsIntact db
    → IsIntact db'
unfolding enqueue blank_job requeued
enqueue-IsIntact now after path db db' e h = elim (Bool-cases (any (for_path path) db.jobs)) [
  | inl m ↦
      subst IsIntact (ok-injective (rw m at e))
        (changed-IsIntact _ (requeued now after) db (λ j. refl) (λ j. refl) h)
  | inr m ↦ insert_job-IsIntact _ db db' refl m (rw m at e) h
]

pub skip-IsIntact :
    (now : ℤ) (path reason : String) (db db' : SupernoteDb)
    → skip now path reason db ≡ ok db'
    → IsIntact db
    → IsIntact db'
unfolding skip blank_job set_skipped
skip-IsIntact now path reason db db' e h = elim (Bool-cases (any (for_path path) db.jobs)) [
  | inl m ↦
      subst IsIntact (ok-injective (rw m at e))
        (changed-IsIntact _ (set_skipped reason) db (λ j. refl) (λ j. refl) h)
  | inr m ↦ insert_job-IsIntact _ db db' refl m (rw m at e) h
]

pub mark_started-IsIntact :
    (now : ℤ) (o : Option Job) (db : SupernoteDb)
    → IsIntact db
    → IsIntact (record db { jobs = mark_started now o db.jobs })
unfolding mark_started set_started
mark_started-IsIntact now none db h = h
mark_started-IsIntact now (some j) db h =
    changed-IsIntact _ (set_started now) db (λ k. refl) (λ k. refl) h

store_hash-IsIntact :
    (path : String) (hash : Option String) (db : SupernoteDb)
    → IsIntact db
    → IsIntact (store_hash path hash db)
unfolding store_hash set_sha256
store_hash-IsIntact path none db h = h
store_hash-IsIntact path (some hash) db h =
    changed_notes-IsIntact _ (set_sha256 hash) db (λ n. refl) h

pub process_job-IsIntact :
    (now : ℤ) (j : Job) (ending : Ending) (db : SupernoteDb)
    → IsIntact db
    → IsIntact (process_job now j ending db)
unfolding process_job mark_done set_done set_skipped
process_job-IsIntact now j (Ending.skipped reason) db h =
    changed-IsIntact _ (set_skipped reason) db (λ k. refl) (λ k. refl) h
process_job-IsIntact now j (Ending.failed message) db h =
    changed-IsIntact _ (set_done now message) db (λ k. refl) (λ k. refl) h
process_job-IsIntact now j (Ending.finished hash) db h =
    changed-IsIntact _ (set_done now "") (store_hash j.note_path hash db) (λ k. refl) (λ k. refl)
      (store_hash-IsIntact j.note_path hash db h)

pub requeue_job-IsIntact :
    (at_time : ℤ) (id : ℕ) (db db' : SupernoteDb)
    → requeue_job at_time id db ≡ ok db'
    → IsIntact db
    → IsIntact db'
unfolding requeue_job set_requeued
requeue_job-IsIntact at_time id db db' e h = elim (Bool-cases (any (is_running id) db.jobs)) [
  | inl m ↦
      subst IsIntact (ok-injective (rw m at e))
        (changed-IsIntact _ (set_requeued at_time) db (λ j. refl) (λ j. refl) h)
  | inr m ↦ cc (rw m at e)
]
