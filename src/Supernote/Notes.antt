-- ===== src/Supernote/Notes.antt =====
-- internal/notestore: the inventory of the files below a directory. What a walk of the directory meets
-- is an argument, and so is the clock, in milliseconds.
use Prim.Native.String.{◌++◌ as str_append}
use boox_bridge.Prelude.{
  ℕ, ◌+◌, ◌*◌, String, Bool, false, not, ◌&&◌, Option, none, some, if◌then◌else◌, List, [], ◌∷◌,
  ◌++◌, map,
}
use boox_bridge.Prelude.Text.{str_eq, eq_iff}
use boox_bridge.Prelude.Int.{ℤ, pos, negsuc, eqb_int}
use boox_bridge.Prelude.Lists.{keep, any}
use boox_bridge.Prelude.Keys.{rename_key}
use boox_bridge.Prelude.Result.{Result, ok, err}
use boox_bridge.Supernote.Rows.{
  JobStatus, NoteContent, first_row, change_where, FileType, NoteRow, Job, SupernoteDb, at_path,
  for_path,
}
use boox_bridge.Supernote.Queue.{set_sha256, has_status}

-- The extension in lower case.
unfoldable pub classify_file_type : String → FileType
classify_file_type ext =
    if str_eq ext ".note"
    then FileType.note
    else if str_eq ext ".pdf"
    then FileType.pdf
    else if str_eq ext ".epub"
    then FileType.epub
    else FileType.other

-- The note with the status of its job, none for the text "".
unfoldable pub with_status : Option NoteRow → Option Job → Result (NoteRow × Option JobStatus)
with_status none j = err "note not found"
with_status (some n) none = ok (n, none)
with_status (some n) (some j) = ok (n, some j.status)

unfoldable pub get_file : String → SupernoteDb → Result (NoteRow × Option JobStatus)
unfolding first_row at_path for_path with_status
get_file path db =
    with_status (first_row (at_path path) db.notes) (first_row (for_path path) db.jobs)

unfoldable pub set_hash : String → String → SupernoteDb → SupernoteDb
unfolding change_where at_path set_sha256
set_hash path hash db = record db { notes = change_where (at_path path) (set_sha256 hash) db.notes }

unfoldable pub hash_or_error : Option NoteRow → Result String
hash_or_error none = err "note not found"
hash_or_error (some n) = elim n.sha256 [ none ↦ ok "" | some h ↦ ok h ]

unfoldable pub get_hash : String → SupernoteDb → Result String
unfolding first_row at_path hash_or_error
get_hash path db = hash_or_error (first_row (at_path path) db.notes)

-- A comparison with NULL is not true.
unfoldable pub has_hash : String → Option String → Bool
has_hash hash none = false
has_hash hash (some h) = str_eq h hash

unfoldable pub is_done_with : String → List Job → NoteRow → Bool
unfolding has_hash for_path has_status
is_done_with hash jobs n =
    has_hash hash n.sha256 && any (λ j. for_path n.path j && has_status JobStatus.done j) jobs

unfoldable pub lookup_by_hash : String → SupernoteDb → Option String
unfolding first_row is_done_with
lookup_by_hash hash db = elim (first_row (is_done_with hash db.jobs) db.notes) [
  | none ↦ none
  | some n ↦ some n.path
]

unfoldable pub moved_job : String → String → Job → Job
unfolding rename_key
moved_job old new j = record j { note_path = rename_key str_eq eq_iff old new j.note_path }

-- Both rows have a job, and a note has at most one.
unfoldable pub job_clash : String → String → List Job → Bool
unfolding for_path
job_clash old new jobs =
    not (str_eq old new) && (any (for_path old) jobs && any (for_path new) jobs)

unfoldable pub transfer_job : String → String → SupernoteDb → Result SupernoteDb
unfolding for_path at_path job_clash moved_job
transfer_job old new db =
    if not (any (for_path old) db.jobs)
    then err (str_append "no job found for path " old)
    else if job_clash old new db.jobs
    then err "transfer job: UNIQUE constraint failed"
    else if any (at_path new) db.notes
    then ok (record db { jobs = map (moved_job old new) db.jobs })
    else err "transfer job: FOREIGN KEY constraint failed"

unfoldable pub moved_note : String → String → NoteRow → NoteRow
unfolding rename_key
moved_note old new n = record n { path = rename_key str_eq eq_iff old new n.path }

unfoldable pub note_clash : String → String → List NoteRow → Bool
unfolding at_path
note_clash old new notes =
    not (str_eq old new) && (any (at_path old) notes && any (at_path new) notes)

-- A transaction, which an error rolls back, with the foreign keys off.
unfoldable pub rename_file : String → String → SupernoteDb → Result SupernoteDb
unfolding note_clash job_clash moved_note moved_job
rename_file old new db =
    if note_clash old new db.notes
    then err "rename notes: UNIQUE constraint failed"
    else if job_clash old new db.jobs
    then err "rename jobs: UNIQUE constraint failed"
    else ok (record db {
      notes = map (moved_note old new) db.notes;
      jobs = map (moved_job old new) db.jobs;
    })

-- What Stat and the path tell of a file: its path below the root, its extension in lower case, its size
-- and the second of its last change.
pub record FileInfo : Type 0 where
  pub rel_path : String
  pub ext : String
  pub size : ℕ
  pub mtime : ℤ

-- The second as milliseconds.
unfoldable pub to_millis : ℤ → ℤ
to_millis (pos n) = pos (n * 1000)
to_millis (negsuc n) = negsuc (n * 1000 + 999)

unfoldable pub new_note : ℤ → String → FileInfo → NoteRow
unfolding classify_file_type to_millis
new_note now path info = record {
  path = path;
  rel_path = info.rel_path;
  file_type = classify_file_type info.ext;
  size_bytes = info.size;
  mtime = info.mtime;
  sha256 = none;
  backup_path = none;
  backed_up_at = none;
  created_at = to_millis info.mtime;
  updated_at = now;
}

unfoldable pub refreshed_note : ℤ → FileInfo → NoteRow → NoteRow
refreshed_note now info n = record n {
  size_bytes = info.size;
  mtime = info.mtime;
  updated_at = now;
}

-- Of a file that is no directory.
unfoldable pub upsert_file : ℤ → String → FileInfo → SupernoteDb → SupernoteDb
unfolding at_path refreshed_note change_where new_note
upsert_file now path info db =
    if any (at_path path) db.notes
    then record db { notes = change_where (at_path path) (refreshed_note now info) db.notes }
    else record db { notes = db.notes ++ new_note now path info ∷ [] }

-- What the walk calls its function on: an entry with an error, a directory, or a file, whose state may
-- fail to be read.
pub data Entry : Type 0 where
  unreadable : (path : String) → Entry
  directory : (path : String) → Entry
  file : (path : String) (info : Option FileInfo) → Entry

-- The tables, and the variables changed and seen.
pub record Walk : Type 0 where
  pub db : SupernoteDb
  pub changed : List String
  pub seen : List String

unfoldable pub visit_known : ℤ → String → FileInfo → NoteRow → Walk → Walk
unfolding change_where at_path refreshed_note
visit_known now path info n w = if eqb_int n.mtime info.mtime then w else record w {
  db = record w.db { notes = change_where (at_path path) (refreshed_note now info) w.db.notes };
  changed = w.changed ++ path ∷ [];
}

unfoldable pub visit_file : ℤ → String → FileInfo → Option NoteRow → Walk → Walk
unfolding new_note visit_known
visit_file now path info none w = record w {
  db = record w.db { notes = w.db.notes ++ new_note now path info ∷ [] };
  changed = w.changed ++ path ∷ [];
}
visit_file now path info (some n) w = visit_known now path info n w

unfoldable pub mark_seen : String → Walk → Walk
mark_seen path w = record w { seen = path ∷ w.seen }

unfoldable pub visit_entry : ℤ → Entry → Walk → Walk
unfolding visit_file first_row at_path mark_seen
visit_entry now (Entry.unreadable path) w = w
visit_entry now (Entry.directory path) w = w
visit_entry now (Entry.file path none) w = w
visit_entry now (Entry.file path (some info)) w =
    mark_seen path (visit_file now path info (first_row (at_path path) w.db.notes) w)

unfoldable pub visit_entries : ℤ → List Entry → Walk → Walk
unfolding visit_entry
visit_entries now [] w = w
visit_entries now (e ∷ es) w = visit_entries now es (visit_entry now e w)

unfoldable pub prune_path : String → SupernoteDb → SupernoteDb
unfolding at_path for_path
prune_path path db = record db {
  content = keep (λ (c : NoteContent). not (str_eq c.note_path path)) db.content;
  jobs = keep (λ j. not (for_path path j)) db.jobs;
  notes = keep (λ n. not (at_path path n)) db.notes;
}

unfoldable pub prune_paths : List String → SupernoteDb → SupernoteDb
unfolding prune_path
prune_paths [] db = db
prune_paths (path ∷ paths) db = prune_paths paths (prune_path path db)

unfoldable pub orphans : List String → List NoteRow → List String
orphans seen notes =
    map (λ (n : NoteRow). n.path)
      (keep (λ (n : NoteRow). not (any (λ q. str_eq q n.path) seen)) notes)

unfoldable pub prune_orphans : List String → SupernoteDb → SupernoteDb
unfolding prune_paths orphans
prune_orphans seen db = prune_paths (orphans seen db.notes) db

-- Scan of a directory whose root is set, with what the walk meets.
unfoldable pub scan : ℤ → List Entry → SupernoteDb → List String × SupernoteDb
unfolding visit_entries prune_orphans
scan now entries db =
    let w = visit_entries now entries (record { db = db; changed = []; seen = [] }) in
    (w.changed, prune_orphans w.seen w.db)
