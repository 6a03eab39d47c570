-- ===== src/Bridge/Dropped.antt =====
-- What is left of a page that is deleted or blank.
use boox_bridge.Prelude.{
  ℕ, String, ◌≡◌, ◌∙◌, inl, inr, true, not, ◌||◌, Option, none, List, Bool-cases, arith,
}
use boox_bridge.Prelude.Text.{eq_iff}
use boox_bridge.Prelude.Int.{ℤ}
use boox_bridge.Sync.Codec.{Codec}
use boox_bridge.Rag.Blob.{Float32}
use boox_bridge.Rag.Vectors.{Action, perform, on_table, on_cache}
use boox_bridge.Rag.Vectors.View.{view, view-delete}
use boox_bridge.Bridge.Reads.{
  page_path, live_page, StrokeData, live_page_strokes, live_page_text_boxes,
}
use boox_bridge.Bridge.Pages.{
  Deps, Outputs, or_before, is_blank, delete_vectors, drop_page, process_live, process_page,
}

module _ {N P X I F : Type 0} (c : Codec N P) (float64 : ℤ → N) (f : Float32 F)
    (utf8 : String → List ℕ) (render : List StrokeData → Option I) (d : Deps X I F) where
  -- With an embedding store, processing a page that is missing, deleted, or without strokes and
  -- text boxes leaves no vector on its path in memory.
  pub dropped_vectors :
      (now : ℤ) (pk : String) (o : Outputs X F P)
      → d.has_embed_store ≡ true
      → not (live_page pk o.db.mirror).1
          || is_blank (live_page_strokes pk o.db.mirror) (live_page_text_boxes pk o.db.mirror)
        ≡ true
      → (g n : ℕ)
      → view
          (process_page c float64 f utf8 render d now pk o).vectors.cache
          (page_path (live_page pk o.db.mirror).0 pk)
          g
          n
        ≡ none
  unfolding process_page process_live drop_page delete_vectors
  dropped_vectors now pk o store gone g n = elim (Bool-cases ((live_page pk o.db.mirror).1)) [
    | inl m ↦
        let blank : is_blank (live_page_strokes pk o.db.mirror)
              (live_page_text_boxes pk o.db.mirror)
            ≡ true =
          ground (arith, gone, m) in
        rw (m, blank, store) (dropped_at (page_path (live_page pk o.db.mirror).0 pk))
    | inr m ↦ rw (m, store) (dropped_at (page_path (live_page pk o.db.mirror).0 pk))
  ]
    where
      dropped_at :
          (path : String)
          → view (or_before o.vectors (perform f now (Action.delete path) o.vectors)).cache path g n
            ≡ none
      dropped_at path =
          unfold or_before perform on_table on_cache in
          (view-delete path o.vectors.cache path g n ∙ ground (arith, eq_iff path path))
