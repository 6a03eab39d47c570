-- ===== src/Rag/Vectors/Refinement.antt =====
-- The store as an implementation of the abstract map.
use boox_bridge.Prelude.{
  ℕ, String, ◌≡◌, ◌⊎◌, refl, sym, ap, ◌∙◌, inl, inr, true, false, ◌&&◌, Option, none, some,
  if◌then◌else◌, List, map, ◌==◌, Bool-cases, arith,
}
use boox_bridge.Prelude.Text.{str_eq, eq_iff}
use boox_bridge.Prelude.Int.{ℤ}
use boox_bridge.Prelude.Lists.{any, any-map}
use boox_bridge.Prelude.Result.{ok, bind-eq-ok, ok-injective}
use boox_bridge.Rag.Blob.{Float32, IsFloat32}
use boox_bridge.Rag.Vectors.{
  EmbeddingRow, Vectors, row_is, record_is, rename_rows, rename_records, clashes, record_of, Action,
  on_table, on_cache, perform,
}
use boox_bridge.Rag.Vectors.Coherent.{IsCoherent, perform-IsCoherent}
use boox_bridge.Rag.Vectors.View.{
  Book, first_of, view, view-save_record, view-delete_page, view-delete, view-copy, view-rename,
  view-rename_same, no_clash,
}

module _ {F : Type 0} (f : Float32 F) where
  -- What an operation promises of the map.
  unfoldable pub promised : Action f → Book F → Book F
  unfolding first_of
  promised (Action.save path page chunk v model) m p g c =
      if str_eq path p && (page == g && chunk == c) then some v else m p g c
  promised (Action.delete_page path page) m p g c =
      if str_eq p path && g == page then none else m p g c
  promised (Action.delete path) m p g c = if str_eq p path then none else m p g c
  promised (Action.rename old new) m p g c =
      if str_eq p new
      then first_of (m old g c) (m new g c)
      else if str_eq p old
      then none
      else m p g c
  promised (Action.copy src dst) m p g c =
      if str_eq p dst then (if str_eq src dst then none else m src g c) else m p g c
  promised Action.load_all m p g c = m p g c

  any-record_of :
      (p : String) (g c : ℕ) (rows : List EmbeddingRow)
      → any (record_is p g c) (map (record_of f) rows) ≡ any (row_is p g c) rows
  unfolding record_of record_is row_is
  any-record_of p g c rows = any-map (record_is p g c) (record_of f) rows

  rename_keeps :
      (old new : String) (rows rows' : List EmbeddingRow) (p : String) (g c : ℕ)
      → rename_rows old new rows ≡ ok rows'
      → view (rename_records old new (map (record_of f) rows)) p g c
        ≡ promised (Action.rename old new) (view (map (record_of f) rows)) p g c
  unfolding rename_rows clashes promised first_of
  rename_keeps old new rows rows' p g c e = elim (Bool-cases (str_eq old new)) [
    | inl same ↦
        ap (λ n. view (rename_records old n (map (record_of f) rows)) p g c)
          (sym ((eq_iff old new).0 same))
        ∙ view-rename_same old (map (record_of f) rows) p g c
        ∙ own same (view (map (record_of f) rows)) (Bool-cases (str_eq p new))
    | inr other ↦
        elim (Bool-cases (
          any (λ (r : EmbeddingRow). str_eq r.note_path old && any (row_is new r.page r.chunk) rows)
            rows)) [
              | inl k ↦ cc (rw (other, k) at e)
              | inr k ↦ view-rename old new (map (record_of f) rows) p g c other (
                  rw (any-record_of old g c rows, any-record_of new g c rows)
                    (no_clash old new g c rows rows k))
            ]
  ]
    where
      twice : (v : Option (List F)) → v ≡ first_of v v
      twice none = refl
      twice (some x) = refl

      own :
          str_eq old new ≡ true
          → (m : Book F) → (str_eq p new ≡ true) ⊎ (str_eq p new ≡ false)
          → m p g c ≡ (
              if str_eq p new
              then first_of (m old g c) (m new g c)
              else if str_eq p old
              then none
              else m p g c)
      own same m (inl k) =
          let to_new : p ≡ new = (eq_iff p new).0 k in
          let to_old : old ≡ new = (eq_iff old new).0 same in
          rw k (ap (λ q. m q g c) to_new ∙ rw to_old (twice (m new g c)))
      own same m (inr k) = rw k (ground (arith, eq_iff old new, eq_iff p old, eq_iff p new))

  on_cache-promised :
      (now : ℤ) (a : Action f) (rows rows' : List EmbeddingRow) (p : String) (g c : ℕ)
      → on_table f now a rows ≡ ok rows'
      → view (on_cache f a rows' (map (record_of f) rows)) p g c
        ≡ promised a (view (map (record_of f) rows)) p g c
  unfolding on_table on_cache promised
  on_cache-promised now (Action.save path page chunk v model) rows rows' p g c e =
      view-save_record _ (map (record_of f) rows) p g c
  on_cache-promised now (Action.delete_page path page) rows rows' p g c e =
      view-delete_page path page (map (record_of f) rows) p g c
  on_cache-promised now (Action.delete path) rows rows' p g c e =
      view-delete path (map (record_of f) rows) p g c
  on_cache-promised now (Action.rename old new) rows rows' p g c e =
      rename_keeps old new rows rows' p g c e
  on_cache-promised now (Action.copy src dst) rows rows' p g c e =
      view-copy src dst (map (record_of f) rows) p g c
  on_cache-promised now Action.load_all rows rows' p g c e =
      ap (λ rs. view (map (record_of f) rs) p g c) (sym (ok-injective e))

  -- Where the copy in memory agrees with the table and floats are read back from their bits, an
  -- operation that succeeds leaves them in agreement, and both show the map from path, page and
  -- chunk to a vector that the operation promises of the map before.
  pub store_refines_map :
      IsFloat32 f
      → (now : ℤ) (a : Action f) (st st' : Vectors F) → IsCoherent f st
      → perform f now a st ≡ ok st'
      → IsCoherent f st'
        × ((p : String) (g c : ℕ) → view st'.cache p g c ≡ promised a (view st.cache) p g c)
        × ((p : String) (g c : ℕ)
            → view (map (record_of f) st'.rows) p g c ≡ promised a (view st.cache) p g c)
  unfolding perform
  store_refines_map h now a st st' k e =
      let (rows, t, g) = bind-eq-ok (on_table f now a st.rows) _ e in
      let coherent = perform-IsCoherent f h now a st st' k e in
      let seen : (p : String) (g c : ℕ) → view st'.cache p g c ≡ promised a (view st.cache) p g c =
        λ p x c.
          ap (λ (s : Vectors F). view s.cache p x c) (sym (ok-injective g))
          ∙ ap (λ l. view (on_cache f a rows l) p x c) k
          ∙ on_cache-promised now a st.rows rows p x c t
          ∙ ap (λ l. promised a (view l) p x c) (sym k) in
      (coherent, seen, λ p x c. ap (λ l. view l p x c) (sym coherent) ∙ seen p x c)
