-- ===== src/Rag/Vectors.antt =====
-- internal/rag/store.go: the table note_embeddings with its copy in memory. Each operation writes the
-- table first and then, under the lock, the copy: the two halves are functions of their own, since
-- another call may come between them. Of SQLite's errors the UNIQUE constraint is modelled.
use boox_bridge.Prelude.{
  ℕ, String, Bool, true, false, not, ◌&&◌, ◌||◌, Option, none, some, if◌then◌else◌, List, [], ◌∷◌,
  ◌++◌, map, ◌==◌,
}
use boox_bridge.Prelude.Text.{str_eq}
use boox_bridge.Prelude.Int.{ℤ}
use boox_bridge.Prelude.Lists.{keep, any}
use boox_bridge.Prelude.Result.{Result, ok, err, ◌>>=◌}
use boox_bridge.Rag.Blob.{Float32, to_bytes, of_bytes}
pub mod View
pub mod Refinement
pub mod Coherent
pub mod Races

-- A row of note_embeddings.
pub record EmbeddingRow : Type 0 where
  pub note_path : String
  pub page : ℕ
  pub chunk : ℕ
  pub embedding : List ℕ
  pub model : String
  pub created_at : ℤ

pub record EmbeddingRecord (F : Type 0) : Type 0 where
  pub note_path : String
  pub page : ℕ
  pub chunk : ℕ
  pub embedding : List F

pub record Vectors (F : Type 0) : Type 0 where
  pub rows : List EmbeddingRow
  pub cache : List (EmbeddingRecord F)

unfoldable pub row_is : String → ℕ → ℕ → EmbeddingRow → Bool
row_is path page chunk r = str_eq r.note_path path && (r.page == page && r.chunk == chunk)

unfoldable pub record_is : {F : Type 0} → String → ℕ → ℕ → EmbeddingRecord F → Bool
record_is path page chunk r = str_eq r.note_path path && (r.page == page && r.chunk == chunk)

-- INSERT … ON CONFLICT(note_path, page, chunk) DO UPDATE.
unfoldable pub save_row : EmbeddingRow → List EmbeddingRow → List EmbeddingRow
unfolding row_is
save_row new [] = new ∷ []
save_row new (r ∷ rows) =
    if row_is new.note_path new.page new.chunk r
    then record r { embedding = new.embedding; model = new.model; created_at = new.created_at }
      ∷ rows
    else r ∷ save_row new rows

unfoldable pub save_record :
    {F : Type 0} → EmbeddingRecord F → List (EmbeddingRecord F) → List (EmbeddingRecord F)
unfolding record_is
save_record new [] = new ∷ []
save_record new (r ∷ cache) =
    if record_is new.note_path new.page new.chunk r
    then record r { embedding = new.embedding } ∷ cache
    else r ∷ save_record new cache

unfoldable pub delete_page_rows : String → ℕ → List EmbeddingRow → List EmbeddingRow
delete_page_rows path page rows =
    keep (λ (r : EmbeddingRow). not (str_eq r.note_path path && r.page == page)) rows

unfoldable pub delete_page_records :
    {F : Type 0} → String → ℕ → List (EmbeddingRecord F) → List (EmbeddingRecord F)
delete_page_records {F} path page cache =
    keep (λ (r : EmbeddingRecord F). not (str_eq r.note_path path) || not (r.page == page)) cache

unfoldable pub delete_rows : String → List EmbeddingRow → List EmbeddingRow
delete_rows path rows = keep (λ (r : EmbeddingRow). not (str_eq r.note_path path)) rows

unfoldable pub delete_records :
    {F : Type 0} → String → List (EmbeddingRecord F) → List (EmbeddingRecord F)
delete_records {F} path cache =
    keep (λ (r : EmbeddingRecord F). not (str_eq r.note_path path)) cache

-- The row has the old path, and another one its key under the new path.
unfoldable pub clashes : String → String → List EmbeddingRow → Bool
unfolding row_is
clashes old new rows =
    not (str_eq old new)
    && any (λ (r : EmbeddingRow). str_eq r.note_path old && any (row_is new r.page r.chunk) rows)
        rows

unfoldable pub renamed_row : String → String → EmbeddingRow → EmbeddingRow
renamed_row old new r = if str_eq r.note_path old then record r { note_path = new } else r

unfoldable pub rename_rows : String → String → List EmbeddingRow → Result (List EmbeddingRow)
unfolding clashes renamed_row
rename_rows old new rows =
    if clashes old new rows
    then err "rename embeddings: UNIQUE constraint failed"
    else ok (map (renamed_row old new) rows)

unfoldable pub renamed_record :
    {F : Type 0} → String → String → EmbeddingRecord F → EmbeddingRecord F
renamed_record old new r = if str_eq r.note_path old then record r { note_path = new } else r

unfoldable pub rename_records :
    {F : Type 0} → String → String → List (EmbeddingRecord F) → List (EmbeddingRecord F)
unfolding renamed_record
rename_records old new cache = map (renamed_record old new) cache

unfoldable pub row_under : String → EmbeddingRow → EmbeddingRow
row_under path r = record r { note_path = path }

unfoldable pub record_under : {F : Type 0} → String → EmbeddingRecord F → EmbeddingRecord F
record_under path r = record r { note_path = path }

-- DELETE of the target, then INSERT … SELECT, which keeps the model and created_at. SQLite promises no
-- order of the rows that it inserts; here it is that of the source.
unfoldable pub copy_rows : String → String → List EmbeddingRow → List EmbeddingRow
unfolding delete_rows row_under
copy_rows src dst rows =
    let kept = delete_rows dst rows in
    kept ++ map (row_under dst) (keep (λ (r : EmbeddingRow). str_eq r.note_path src) kept)

unfoldable pub copy_records :
    {F : Type 0} → String → String → List (EmbeddingRecord F) → List (EmbeddingRecord F)
unfolding delete_records record_under
copy_records {F} src dst cache =
    let kept = delete_records dst cache in
    kept ++ map (record_under dst) (keep (λ (r : EmbeddingRecord F). str_eq r.note_path src) kept)

module _ {F : Type 0} (f : Float32 F) where
  unfoldable pub record_of : EmbeddingRow → EmbeddingRecord F
  record_of r = record {
    note_path = r.note_path;
    page = r.page;
    chunk = r.chunk;
    embedding = of_bytes f r.embedding;
  }

  unfoldable pub row_for : String → ℕ → ℕ → List F → String → ℤ → EmbeddingRow
  row_for path page chunk embedding model now = record {
    note_path = path;
    page = page;
    chunk = chunk;
    embedding = to_bytes f embedding;
    model = model;
    created_at = now;
  }

  -- The operations of the store, LoadAll included.
  pub data Action : Type 0 where
    save : (path : String) (page chunk : ℕ) (embedding : List F) (model : String) → Action
    delete_page : (path : String) (page : ℕ) → Action
    delete : (path : String) → Action
    rename copy : (old new : String) → Action
    load_all : Action

  -- What an operation does to the table.
  unfoldable pub on_table : ℤ → Action → List EmbeddingRow → Result (List EmbeddingRow)
  unfolding save_row row_for delete_page_rows delete_rows rename_rows copy_rows
  on_table now (Action.save path page chunk embedding model) rows =
      ok (save_row (row_for path page chunk embedding model now) rows)
  on_table now (Action.delete_page path page) rows = ok (delete_page_rows path page rows)
  on_table now (Action.delete path) rows = ok (delete_rows path rows)
  on_table now (Action.rename old new) rows = rename_rows old new rows
  on_table now (Action.copy src dst) rows = ok (copy_rows src dst rows)
  on_table now Action.load_all rows = ok rows

  -- What it then does to the copy, where `rows` is the table that it has left or read.
  unfoldable pub on_cache :
      Action → List EmbeddingRow → List (EmbeddingRecord F) → List (EmbeddingRecord F)
  unfolding save_record delete_page_records delete_records rename_records copy_records record_of
  on_cache (Action.save path page chunk embedding model) rows cache =
      save_record (record { note_path = path; page = page; chunk = chunk; embedding = embedding })
        cache
  on_cache (Action.delete_page path page) rows cache = delete_page_records path page cache
  on_cache (Action.delete path) rows cache = delete_records path cache
  on_cache (Action.rename old new) rows cache = rename_records old new cache
  on_cache (Action.copy src dst) rows cache = copy_records src dst cache
  on_cache Action.load_all rows cache = map record_of rows

  unfoldable pub perform : ℤ → Action → Vectors F → Result (Vectors F)
  unfolding on_table on_cache
  perform now a st = do
    rows ← on_table now a st.rows
    ok (record { rows = rows; cache = on_cache a rows st.cache })
