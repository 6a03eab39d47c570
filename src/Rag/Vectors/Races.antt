-- ===== src/Rag/Vectors/Races.antt =====
-- Two calls whose halves interleave: the lock covers the copy in memory alone.
use boox_bridge.Prelude.{ℕ, String, ◌≡◌, sym, ap, ◌∙◌, none, some, List, map, arith}
use boox_bridge.Prelude.Text.{eq_iff}
use boox_bridge.Prelude.Int.{ℤ}
use boox_bridge.Prelude.Result.{ok, ok-injective}
use boox_bridge.Rag.Blob.{Float32}
use boox_bridge.Rag.Vectors.{
  EmbeddingRow, EmbeddingRecord, record_is, record_of, Action, on_table, on_cache,
}
use boox_bridge.Rag.Vectors.Coherent.{delete_agrees}
use boox_bridge.Rag.Vectors.View.{view, view-save_record, view-delete}

module _ {F : Type 0} (f : Float32 F) where
  -- Where a Delete comes between the two halves of a Save of the same path, the table has no vector
  -- for the chunk and the copy in memory has the saved one.
  pub stale_vector :
      (now : ℤ) (path : String) (page chunk : ℕ) (v : List F) (model : String)
      (rows rows₁ rows₂ : List EmbeddingRow) (cache : List (EmbeddingRecord F))
      → on_table f now (Action.save path page chunk v model) rows ≡ ok rows₁
      → on_table f now (Action.delete path) rows₁ ≡ ok rows₂
      → (view (map (record_of f) rows₂) path page chunk ≡ none)
        × (view
              (on_cache f
                (Action.save path page chunk v model)
                rows₁
                (on_cache f (Action.delete path) rows₂ cache))
              path
              page
              chunk
            ≡ some v)
  unfolding on_table on_cache
  stale_vector now path page chunk v model rows rows₁ rows₂ cache s d = (
    ap (λ rs. view (map (record_of f) rs) path page chunk) (sym (ok-injective d))
        ∙ ap (λ l. view l path page chunk) (delete_agrees f path rows₁)
        ∙ view-delete path (map (record_of f) rows₁) path page chunk
        ∙ ground (arith, eq_iff path path),
    view-save_record (record { note_path = path; page = page; chunk = chunk; embedding = v })
          (on_cache f (Action.delete path) rows₂ cache) path page chunk
        ∙ unfold record_is in ground (arith, eq_iff path path),
  )
