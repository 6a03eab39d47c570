-- ===== src/Boox/Notes.antt =====
-- internal/booxpipeline/store.go: the operations on notes. A clock is an argument of each operation
-- that reads it, in milliseconds for notes and in seconds for jobs. Of SQLite's errors the UNIQUE
-- constraints are modelled.
use boox_bridge.Prelude.{
  ltb, ℕ, suc, ◌+◌, String, Bool, not, ◌&&◌, Option, none, some, if◌then◌else◌, List, [], ◌∷◌, ◌++◌,
  map, ◌==◌,
}
use boox_bridge.Prelude.Text.{str_eq}
use boox_bridge.Prelude.Int.{ℤ, pos, ltb_int}
use boox_bridge.Prelude.Lists.{keep, any}
use boox_bridge.Prelude.Result.{Result, ok, err, ◌>>=◌}
use boox_bridge.Boox.Rows.{
  BooxNote, JobStatus, BooxJob, NoteContent, NoteDb, path_is, of_note, first_row, change_where,
}

-- if createdAt <= 0 { createdAt = now }
unfoldable pub or_now : ℤ → ℤ → ℤ
or_now now t = if ltb_int (pos 0) t then t else now

-- The row of an upsert over the one that is there.
unfoldable pub refreshed : BooxNote → BooxNote → BooxNote
refreshed new old = record old {
  note_id = new.note_id;
  title = new.title;
  device_model = new.device_model;
  note_type = new.note_type;
  folder = new.folder;
  page_count = new.page_count;
  file_hash = new.file_hash;
  version = old.version + 1;
  updated_at = new.updated_at;
}

unfoldable pub upsert_row : BooxNote → List BooxNote → List BooxNote
unfolding path_is refreshed
upsert_row new [] = new ∷ []
upsert_row new (n ∷ notes) =
    if path_is new.path n then refreshed new n ∷ notes else n ∷ upsert_row new notes

unfoldable pub upsert_note :
    ℤ → String → String → String → String → String → String → ℤ → String → ℤ → NoteDb → NoteDb
unfolding upsert_row or_now
upsert_note now path note_id title device_model note_type folder page_count file_hash created_at
      db =
    record db {
      notes =
          upsert_row
            (record {
              path = path;
              note_id = note_id;
              title = title;
              device_model = device_model;
              note_type = note_type;
              folder = folder;
              page_count = page_count;
              file_hash = file_hash;
              version = 1;
              created_at = or_now now created_at;
              updated_at = now;
            })
            db.notes;
    }

-- What is read of a file and of a text: a file's name without the extension, strings.TrimSpace, the
-- length and the first bytes of a text, time.Parse of "20060102" in milliseconds, and the time of a
-- file's last change.
pub record Files : Type 0 where
  pub title_of : String → String
  pub trim_space : String → String
  pub byte_length : String → ℕ
  pub first_bytes : ℕ → String → String
  pub parse_date : String → Option ℤ
  pub mod_time : String → Option ℤ

unfoldable pub parse_title_date : Files → String → Option ℤ
parse_title_date files title =
    let s = files.trim_space title in
    if ltb (files.byte_length s) 8 then none else files.parse_date (files.first_bytes 8 s)

unfoldable pub note_created_at : Files → String → String → ℤ
unfolding parse_title_date
note_created_at files title path = elim (parse_title_date files title) [
  | some t ↦ t
  | none ↦ elim (files.mod_time path) [ some t ↦ t | none ↦ pos 0 ]
]

-- INSERT OR IGNORE.
unfoldable pub insert_or_ignore : BooxNote → List BooxNote → List BooxNote
unfolding path_is
insert_or_ignore new notes = if any (path_is new.path) notes then notes else notes ++ new ∷ []

unfoldable pub minimal_note : String → ℤ → ℤ → BooxNote
minimal_note path created_at now = record {
  path = path;
  note_id = "";
  title = "";
  device_model = "";
  note_type = "";
  folder = "";
  page_count = pos 0;
  file_hash = "";
  version = 1;
  created_at = created_at;
  updated_at = now;
}

unfoldable pub new_job : ℕ → String → ℤ → BooxJob
new_job id path now = record {
  id = id;
  note_path = path;
  status = JobStatus.pending;
  skip_reason = "";
  ocr_source = "";
  api_model = "";
  attempts = 0;
  last_error = "";
  queued_at = now;
  started_at = pos 0;
  finished_at = pos 0;
  requeue_after = none;
}

unfoldable pub enqueue_job : Files → ℤ → ℤ → String → NoteDb → NoteDb
unfolding note_created_at or_now insert_or_ignore minimal_note new_job
enqueue_job files millis seconds path db =
    let created_at = or_now millis (note_created_at files (files.title_of path) path) in
    record db {
      notes = insert_or_ignore (minimal_note path created_at millis) db.notes;
      jobs = db.jobs ++ new_job (suc db.sequence) path seconds ∷ [];
      sequence = suc db.sequence;
    }

unfoldable pub get_note : String → NoteDb → Option BooxNote
unfolding first_row path_is
get_note path db = first_row (path_is path) db.notes

unfoldable pub get_note_id : String → NoteDb → Result String
unfolding get_note
get_note_id path db = elim (get_note path db) [
  | some n ↦ ok n.note_id
  | none ↦ err "note not found"
]

unfoldable pub renamed : String → String → String → String
renamed old new path = if str_eq path old then new else path

-- An UPDATE of the primary key, where another row may have the new one.
unfoldable pub rename_notes :
    String → String → (BooxNote → BooxNote) → List BooxNote → Result (List BooxNote)
unfolding path_is change_where
rename_notes old new change notes =
    if not (str_eq old new) && (any (path_is old) notes && any (path_is new) notes)
    then err "update boox_notes: UNIQUE constraint failed"
    else ok (change_where (path_is old) change notes)

unfoldable pub rename_jobs : String → String → List BooxJob → List BooxJob
unfolding renamed
rename_jobs old new jobs =
    map (λ (j : BooxJob). record j { note_path = renamed old new j.note_path }) jobs

unfoldable pub content_clashes : String → String → List NoteContent → Bool
content_clashes old new content =
    not (str_eq old new)
    && any
        (λ (c : NoteContent).
          str_eq c.note_path old
          && any (λ (d : NoteContent). str_eq d.note_path new && d.page == c.page) content)
        content

unfoldable pub rename_content : String → String → List NoteContent → Result (List NoteContent)
unfolding content_clashes renamed
rename_content old new content =
    if content_clashes old new content
    then err "update note_content: UNIQUE constraint failed"
    else ok
        (map (λ (c : NoteContent). record c { note_path = renamed old new c.note_path }) content)

-- The transaction of UpdateNotePath and MoveNote; an error rolls it back.
unfoldable pub rename_all : String → String → (BooxNote → BooxNote) → NoteDb → Result NoteDb
unfolding rename_notes rename_jobs rename_content
rename_all old new change db = do
  notes ← rename_notes old new change db.notes
  content ← rename_content old new db.content
  ok (record db { notes = notes; jobs = rename_jobs old new db.jobs; content = content })

unfoldable pub with_path : String → BooxNote → BooxNote
with_path new n = record n { path = new }

unfoldable pub update_note_path : String → String → NoteDb → Result NoteDb
unfolding rename_all with_path
update_note_path old new db = rename_all old new (with_path new) db

unfoldable pub moved : ℤ → String → String → BooxNote → BooxNote
moved now new folder n = record n { path = new; folder = folder; updated_at = now }

unfoldable pub move_note : ℤ → String → String → String → NoteDb → Result NoteDb
unfolding rename_all moved
move_note now old new folder db = rename_all old new (moved now new folder) db

unfoldable pub delete_note : String → NoteDb → NoteDb
unfolding path_is of_note
delete_note path db = record db {
  jobs = keep (λ j. not (of_note path j)) db.jobs;
  content = keep (λ (c : NoteContent). not (str_eq c.note_path path)) db.content;
  notes = keep (λ n. not (path_is path n)) db.notes;
}
