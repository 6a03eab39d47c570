-- ===== src/Rag/Embed.antt =====
-- internal/rag/embedder.go: `EmbedAndStorePage`. The embedding service is the parameter `embed`, what it
-- answers for the chunk of an index; `none` is an error.
use boox_bridge.Prelude.{
  ℕ, zero, suc, ◌+◌, String, ◌≡◌, refl, sym, ap, subst, ◌∙◌, Bool, true, false, ◌&&◌, Option, none,
  some, if◌then◌else◌, List, [], ◌∷◌, ◌==◌, arith,
}
use boox_bridge.Prelude.Text.{str_eq, eq_iff}
use boox_bridge.Prelude.Int.{ℤ}
use boox_bridge.Prelude.Lists.{length, get_elem?}
use boox_bridge.Prelude.Result.{Result, ok, err}
use boox_bridge.Rag.Blob.{Float32, IsFloat32}
use boox_bridge.Rag.Vectors.{Vectors, record_is, Action, on_table, on_cache, perform}
use boox_bridge.Rag.Vectors.Coherent.{IsCoherent, perform-IsCoherent}
use boox_bridge.Rag.Vectors.View.{first_of, view, view-save_record, view-delete_page}
use boox_bridge.Rag.Chunk.{chunk_text}
pub mod Replaced

module _ {F : Type 0} (f : Float32 F) (embed : ℕ → List ℕ → Option (List F)) where
  unfoldable pub add_vector : ℕ → Option (List F) → List (ℕ × List F) → List (ℕ × List F)
  add_vector i none vs = vs
  add_vector i (some v) vs = (i, v) ∷ vs

  -- The vectors of the chunks from the index `i` on, the failed ones left out.
  unfoldable pub embed_all : ℕ → List (List ℕ) → List (ℕ × List F)
  unfolding add_vector
  embed_all i [] = []
  embed_all i (c ∷ chunks) = add_vector i (embed i c) (embed_all (i + 1) chunks)

  unfoldable pub outcome : Vectors F → Result (Vectors F) → Vectors F × Bool
  outcome st (ok st') = (st', true)
  outcome st (err m) = (st, false)

  -- A call of the store whose error is logged, and whether it succeeded.
  unfoldable pub logged : ℤ → Action f → Vectors F → Vectors F × Bool
  unfolding outcome perform
  logged now a st = outcome st (perform f now a st)

  unfoldable pub save_all :
      ℤ → String → ℕ → String → List (ℕ × List F) → Vectors F → ℕ → Vectors F × ℕ
  unfolding logged
  save_all now path page model [] st stored = (st, stored)
  save_all now path page model ((i, v) ∷ vs) st stored =
      let (st', fine) = logged now (Action.save path page i v model) st in
      save_all now path page model vs st' (if fine then stored + 1 else stored)

  unfoldable pub replace_page :
      ℤ → String → ℕ → String → List (ℕ × List F) → Vectors F → Vectors F × ℕ
  unfolding logged save_all
  replace_page now path page model [] st = (st, 0)
  replace_page now path page model (v ∷ vs) st =
      save_all now path page model (v ∷ vs) ((logged now (Action.delete_page path page) st).0) 0

  unfoldable pub store_chunks : ℤ → String → ℕ → String → List (List ℕ) → Vectors F → Vectors F × ℕ
  unfolding logged embed_all replace_page
  store_chunks now path page model [] st = ((logged now (Action.delete_page path page) st).0, 0)
  store_chunks now path page model (c ∷ chunks) st =
      replace_page now path page model (embed_all 0 (c ∷ chunks)) st

  unfoldable pub embed_and_store_page : ℤ → String → ℕ → List ℕ → String → Vectors F → Vectors F × ℕ
  unfolding store_chunks chunk_text
  embed_and_store_page now path page text model st =
      store_chunks now path page model (chunk_text text) st
