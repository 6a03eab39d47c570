-- ===== src/Bridge/Pages.antt =====
-- internal/syncbridge/bridge.go: what the worker does with a page. The index and the recognition are the
-- interfaces Indexer and OCR, rendering with its JPEG is a function, and a failure of theirs is logged.
use Prim.Native.String.{◌++◌ as str_append}
use text.Mathlib.Text.{◌==◌}
use boox_bridge.Prelude.{
  ℕ, String, Bool, true, false, Option, none, some, if◌then◌else◌, List, [], ◌∷◌,
}
use boox_bridge.Prelude.Int.{ℤ}
use boox_bridge.Prelude.Result.{Result, ok, err}
use boox_bridge.Sync.Op.{join}
use boox_bridge.Sync.Codec.{Codec}
use boox_bridge.Sync.Store.{Db}
use boox_bridge.Rag.Blob.{Float32}
use boox_bridge.Rag.Vectors.{Vectors, Action, perform}
use boox_bridge.Rag.Embed.{embed_and_store_page}
use boox_bridge.Bridge.Reads.{
  page_path, live_page, StrokeData, TextBoxData, live_page_strokes, live_page_text_boxes,
  author_page_text, author_page_text_tombstone,
}

-- An index with the state `X`; a call that fails leaves the state that its function says.
pub record Indexer (X : Type 0) : Type 0 where
  pub index_page : String → ℕ → String → String → X → X
  pub delete : String → X → X

-- The collaborators, where `none` and `false` are nil. `embed` answers for the chunk of an index.
pub record Deps (X I F : Type 0) : Type 0 where
  pub indexer : Option (Indexer X)
  pub recognize : Option (I → Result String)
  pub embed : Option (ℕ → List ℕ → Option (List F))
  pub has_embed_store : Bool
  pub embed_model : String

-- What a page is written to.
pub record Outputs (X F P : Type 0) : Type 0 where
  pub index : X
  pub vectors : Vectors F
  pub db : Db P

-- An error is logged.
unfoldable pub or_before : {A : Type 0} → A → Result A → A
or_before a (ok b) = b
or_before a (err e) = a

unfoldable pub recognized : {I : Type 0} → Option (I → Result String) → I → String
recognized none img = ""
recognized (some recognize) img = elim (recognize img) [ ok text ↦ text | err e ↦ "" ]

unfoldable pub nonempty_texts : List TextBoxData → List String
nonempty_texts [] = []
nonempty_texts (b ∷ bs) =
    let rest = nonempty_texts bs in if b.text == "" then rest else b.text ∷ rest

unfoldable pub join_text_boxes : List TextBoxData → String
unfolding nonempty_texts join
join_text_boxes bs = join "\n" (nonempty_texts bs)

unfoldable pub body_of : String → String → String
body_of text boxes =
    if boxes == ""
    then text
    else if text == ""
    then boxes
    else str_append text (str_append "\n" boxes)

unfoldable pub is_blank : List StrokeData → List TextBoxData → Bool
is_blank [] [] = true
is_blank _ _ = false

module _ {N P X I F : Type 0} (c : Codec N P) (float64 : ℤ → N) (f : Float32 F)
    (utf8 : String → List ℕ) (render : List StrokeData → Option I) (d : Deps X I F) where
  unfoldable pub index_with : Option (Indexer X) → String → String → X → X
  index_with none path body x = x
  index_with (some i) path body x = i.index_page path 0 "forestnote" body x

  unfoldable pub delete_with : Option (Indexer X) → String → X → X
  delete_with none path x = x
  delete_with (some i) path x = i.delete path x

  unfoldable pub delete_vectors : ℤ → String → Vectors F → Vectors F
  unfolding perform or_before
  delete_vectors now path v =
      if d.has_embed_store then or_before v (perform f now (Action.delete path) v) else v

  unfoldable pub tombstone_text : ℤ → String → Db P → Db P
  unfolding or_before author_page_text_tombstone
  tombstone_text now pk db = or_before db (author_page_text_tombstone float64 c now pk db)

  unfoldable pub drop_page : ℤ → String → String → Outputs X F P → Outputs X F P
  unfolding delete_with delete_vectors tombstone_text
  drop_page now pk path o = record {
    index = delete_with d.indexer path o.index;
    vectors = delete_vectors now path o.vectors;
    db = tombstone_text now pk o.db;
  }

  unfoldable pub embed_with :
      Option (ℕ → List ℕ → Option (List F)) → ℤ → String → String → Vectors F → Vectors F
  unfolding embed_and_store_page
  embed_with none now path body v = v
  embed_with (some embed) now path body v =
      if d.has_embed_store
      then (embed_and_store_page f embed now path 0 (utf8 body) d.embed_model v).0
      else v

  unfoldable pub write_text : ℤ → String → String → Db P → Db P
  unfolding or_before author_page_text tombstone_text
  write_text now pk body db =
      if body == ""
      then tombstone_text now pk db
      else or_before db (author_page_text float64 c now pk body now "" db)

  unfoldable pub write_page : ℤ → String → String → String → Outputs X F P → Outputs X F P
  unfolding index_with write_text embed_with
  write_page now pk path body o = record {
    index = index_with d.indexer path body o.index;
    vectors = if body == "" then o.vectors else embed_with d.embed now path body o.vectors;
    db = write_text now pk body o.db;
  }

  -- After rendering.
  unfoldable pub write_rendered :
      ℤ → String → String → List TextBoxData → Option I → Outputs X F P → Outputs X F P
  unfolding write_page body_of recognized join_text_boxes
  write_rendered now pk path boxes none o = o
  write_rendered now pk path boxes (some img) o =
      write_page now pk path (body_of (recognized d.recognize img) (join_text_boxes boxes)) o

  -- The part of processPage on a live page.
  unfoldable pub process_live :
      ℤ → String → String → List StrokeData → List TextBoxData → Outputs X F P → Outputs X F P
  unfolding is_blank drop_page write_rendered
  process_live now pk path strokes boxes o =
      if is_blank strokes boxes
      then drop_page now pk path o
      else write_rendered now pk path boxes (render strokes) o

  unfoldable pub process_page : ℤ → String → Outputs X F P → Outputs X F P
  unfolding live_page page_path drop_page process_live live_page_strokes live_page_text_boxes
  process_page now pk o =
      let m = o.db.mirror in
      let (notebook_id, live) = live_page pk m in
      let path = page_path notebook_id pk in
      if live
      then process_live now pk path (live_page_strokes pk m) (live_page_text_boxes pk m) o
      else drop_page now pk path o
