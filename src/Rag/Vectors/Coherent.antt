-- ===== src/Rag/Vectors/Coherent.antt =====
-- The copy in memory and the table: each half of an operation on its own list, and both together.
use boox_bridge.Prelude.{
  ℕ, String, ◌≡◌, refl, sym, ap, ◌∙◌, inl, inr, Bool, true, false, not, ◌&&◌, ◌||◌, List, [], ◌∷◌,
  map, ◌==◌, Bool-cases, subst,
}
use boox_bridge.Prelude.Text.{str_eq}
use boox_bridge.Prelude.Int.{ℤ}
use boox_bridge.Prelude.Lists.{map-append, map-keep, map-map_change, keep}
use boox_bridge.Prelude.Result.{ok, bind-eq-ok, ok-injective}
use boox_bridge.Rag.Blob.{Float32, IsFloat32, of_bytes-to_bytes}
use boox_bridge.Rag.Vectors.{
  EmbeddingRow, EmbeddingRecord, Vectors, row_is, record_is, save_row, save_record,
  delete_page_rows, delete_page_records, delete_rows, delete_records, renamed_row, renamed_record,
  rename_rows, rename_records, clashes, copy_rows, copy_records, row_under, record_under, record_of,
  row_for, Action, on_table, on_cache, perform,
}

module _ {F : Type 0} (f : Float32 F) where
  abbrev pub IsCoherent : Vectors F → Type 0
  IsCoherent st = st.cache ≡ map (record_of f) st.rows

  save_lem :
      IsFloat32 f
      → (path : String) (page chunk : ℕ) (embedding : List F) (model : String) (now : ℤ)
        (rows : List EmbeddingRow)
      → map (record_of f) (save_row (row_for f path page chunk embedding model now) rows)
        ≡ save_record
            (record { note_path = path; page = page; chunk = chunk; embedding = embedding })
            (map (record_of f) rows)
  unfolding save_row save_record row_is record_is record_of row_for
  save_lem h path page chunk embedding model now [] = rw (of_bytes-to_bytes f h embedding) refl
  save_lem h path page chunk embedding model now (r ∷ rows) =
      elim (Bool-cases (str_eq r.note_path path && (r.page == page && r.chunk == chunk))) [
        | inl e ↦ rw e (rw (of_bytes-to_bytes f h embedding) refl)
        | inr e ↦ rw (e, save_lem h path page chunk embedding model now rows) refl
      ]

  delete_page_lem :
      (path : String) (page : ℕ) (rows : List EmbeddingRow)
      → map (record_of f) (delete_page_rows path page rows)
        ≡ delete_page_records path page (map (record_of f) rows)
  unfolding delete_page_rows delete_page_records record_of
  delete_page_lem path page rows =
      map-keep (record_of f) _ _ rows (λ r. morgan (str_eq r.note_path path) (r.page == page))
    where
      morgan : (a b : Bool) → not a || not b ≡ not (a && b)
      morgan true b = refl
      morgan false b = refl

  pub delete_agrees :
      (path : String) (rows : List EmbeddingRow)
      → map (record_of f) (delete_rows path rows) ≡ delete_records path (map (record_of f) rows)
  unfolding delete_rows delete_records record_of
  delete_agrees path rows = map-keep (record_of f) _ _ rows (λ r. refl)

  renamed_lem :
      (old new : String) (r : EmbeddingRow)
      → record_of f (renamed_row old new r) ≡ renamed_record old new (record_of f r)
  unfolding renamed_row renamed_record record_of
  renamed_lem old new r = elim (Bool-cases (str_eq r.note_path old)) [
    | inl e ↦ rw e refl
    | inr e ↦ rw e refl
  ]

  copy_lem :
      (src dst : String) (rows : List EmbeddingRow)
      → map (record_of f) (copy_rows src dst rows) ≡ copy_records src dst (map (record_of f) rows)
  unfolding copy_rows copy_records
  copy_lem src dst rows =
      let kept = delete_rows dst rows in
      let moved = keep (λ (r : EmbeddingRow). str_eq r.note_path src) kept in
      map-append (record_of f) kept (map (row_under dst) moved)
      ∙ rw
          (
            map-map_change (record_of f) (row_under dst) (record_under dst) moved
                (λ r. unfold record_of row_under record_under in refl),
            map-keep (record_of f) (λ (r : EmbeddingRow). str_eq r.note_path src)
                (λ (r : EmbeddingRecord F). str_eq r.note_path src) kept
                (λ r. unfold record_of in refl),
            delete_agrees dst rows,
          )
          refl

  rename_agrees :
      (old new : String) (rows rows' : List EmbeddingRow)
      → rename_rows old new rows ≡ ok rows'
      → rename_records old new (map (record_of f) rows) ≡ map (record_of f) rows'
  unfolding rename_rows rename_records
  rename_agrees old new rows rows' e = elim (Bool-cases (clashes old new rows)) [
    | inl k ↦ cc (rw k at e)
    | inr k ↦
        sym (
          map-map_change (record_of f) (renamed_row old new) (renamed_record old new) rows
            (renamed_lem old new))
        ∙ ap (map (record_of f)) (ok-injective (rw k at e))
  ]

  -- Where the table and the copy agree, the two halves of an operation agree.
  halves_agree :
      IsFloat32 f
      → (now : ℤ) (a : Action f) (rows rows' : List EmbeddingRow) → on_table f now a rows ≡ ok rows'
      → on_cache f a rows' (map (record_of f) rows) ≡ map (record_of f) rows'
  unfolding on_table on_cache
  halves_agree h now (Action.save path page chunk embedding model) rows rows' e =
      sym (save_lem h path page chunk embedding model now rows)
      ∙ ap (map (record_of f)) (ok-injective e)
  halves_agree h now (Action.delete_page path page) rows rows' e =
      sym (delete_page_lem path page rows) ∙ ap (map (record_of f)) (ok-injective e)
  halves_agree h now (Action.delete path) rows rows' e =
      sym (delete_agrees path rows) ∙ ap (map (record_of f)) (ok-injective e)
  halves_agree h now (Action.rename old new) rows rows' e = rename_agrees old new rows rows' e
  halves_agree h now (Action.copy src dst) rows rows' e =
      sym (copy_lem src dst rows) ∙ ap (map (record_of f)) (ok-injective e)
  halves_agree h now Action.load_all rows rows' e = refl

  -- An operation that succeeds on a store whose copy is the table leaves such a store.
  pub perform-IsCoherent :
      IsFloat32 f
      → (now : ℤ) (a : Action f) (st st' : Vectors F) → IsCoherent st
      → perform f now a st ≡ ok st'
      → IsCoherent st'
  unfolding perform
  perform-IsCoherent h now a st st' c e =
      let (rows, t, g) = bind-eq-ok (on_table f now a st.rows) _ e in
      subst (λ (s : Vectors F). s.cache ≡ map (record_of f) s.rows) (ok-injective g)
        (ap (on_cache f a rows) c ∙ halves_agree h now a st.rows rows t)
