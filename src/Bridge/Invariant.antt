-- ===== src/Bridge/Invariant.antt =====
-- Processing a page keeps the mirror at the winners of the changelog, the vectors in memory at those of the
-- table, and the vectors of other pages.
use Prim.Native.String.{◌++◌ as str_append}
use text.Mathlib.Text.{◌==◌}
use boox_bridge.Prelude.{
  ℕ, String, ◌≡◌, refl, subst, ◌∙◌, inl, inr, false, Option, none, some, List, [], ◌∷◌, Bool-cases,
}
use boox_bridge.Prelude.Text.{str_eq}
use boox_bridge.Prelude.Int.{ℤ}
use boox_bridge.Prelude.Result.{Result, ok, err, ok-injective}
use boox_bridge.Sync.Op.{Op}
use boox_bridge.Sync.Op.Ulid.{is_ulid}
use boox_bridge.Sync.Codec.{Codec, IsRoundTrip}
use boox_bridge.Sync.Reconcile.{TablePk}
use boox_bridge.Sync.Store.{Db}
use boox_bridge.Sync.Store.Author.{author_ops}
use boox_bridge.Sync.Store.Consistent.{IsConsistent}
use boox_bridge.Sync.Store.Authoring.{author_ops_lem}
use boox_bridge.Rag.Blob.{Float32, IsFloat32}
use boox_bridge.Rag.Vectors.{Vectors, Action, perform, on_table, on_cache}
use boox_bridge.Rag.Vectors.Coherent.{IsCoherent, perform-IsCoherent}
use boox_bridge.Rag.Vectors.View.{view, view-delete}
use boox_bridge.Rag.Embed.Replaced.{embed_and_store_page_lem}
use boox_bridge.Bridge.Reads.{
  page_path, live_page, StrokeData, TextBoxData, author_row, author_page_text,
  author_page_text_tombstone,
}
use boox_bridge.Bridge.Pages.{
  Deps, Outputs, or_before, is_blank, delete_vectors, tombstone_text, drop_page, embed_with,
  write_text, write_page, write_rendered, process_live, process_page,
}

module _ {N P : Type 0} (c : Codec N P) (float64 : ℤ → N) (back : IsRoundTrip c) where
  author_row-IsConsistent :
      (now : ℤ) (what : String) (op : Op N) (db db' : Db P)
      → author_row float64 c now what op db ≡ ok db'
      → IsConsistent c db
      → IsConsistent c db'
  unfolding author_row
  author_row-IsConsistent now what op db db' e h = go (author_ops c now (op ∷ []) db) refl e
    where
      go :
          (r : Result (Db P × List TablePk))
          → author_ops c now (op ∷ []) db ≡ r
          → (elim r as (λ _. Result (Db P)) [ err e ↦ err (str_append what e) | ok s ↦ ok (s.0) ])
            ≡ ok db'
          → IsConsistent c db'
      go (err m) a b = cc b
      go (ok s) a b =
          subst (IsConsistent c) (ok-injective b)
            ((author_ops_lem c back now (op ∷ []) db s.0 s.1 h a).0)

  or_before-IsConsistent :
      (db : Db P) (r : Result (Db P))
      → ((db' : Db P) → r ≡ ok db' → IsConsistent c db → IsConsistent c db')
      → IsConsistent c db
      → IsConsistent c (or_before db r)
  unfolding or_before
  or_before-IsConsistent db (ok db') kept h = kept db' refl h
  or_before-IsConsistent db (err e) kept h = h

  tombstone-IsConsistent :
      (now : ℤ) (pk : String) (db db' : Db P)
      → author_page_text_tombstone float64 c now pk db ≡ ok db'
      → IsConsistent c db
      → IsConsistent c db'
  unfolding author_page_text_tombstone
  tombstone-IsConsistent now pk db db' e h = elim (Bool-cases (is_ulid pk)) [
    | inl m ↦ author_row-IsConsistent now _ _ db db' (rw m at e) h
    | inr m ↦ cc (rw m at e)
  ]

  page_text-IsConsistent :
      (now : ℤ) (pk text model : String) (ocr_at : ℤ) (db db' : Db P)
      → author_page_text float64 c now pk text ocr_at model db ≡ ok db'
      → IsConsistent c db
      → IsConsistent c db'
  unfolding author_page_text
  page_text-IsConsistent now pk text model ocr_at db db' e h = elim (Bool-cases (is_ulid pk)) [
    | inl m ↦ author_row-IsConsistent now _ _ db db' (rw m at e) h
    | inr m ↦ cc (rw m at e)
  ]

  module _ {X I F : Type 0} (f : Float32 F) (h : IsFloat32 f) (utf8 : String → List ℕ)
      (render : List StrokeData → Option I) (d : Deps X I F) where
    tombstone_text-IsConsistent :
        (now : ℤ) (pk : String) (db : Db P)
        → IsConsistent c db
        → IsConsistent c (tombstone_text c float64 f utf8 render d now pk db)
    unfolding tombstone_text
    tombstone_text-IsConsistent now pk db =
        or_before-IsConsistent db _ (λ db' e. tombstone-IsConsistent now pk db db' e)

    write_text-IsConsistent :
        (now : ℤ) (pk body : String) (db : Db P)
        → IsConsistent c db
        → IsConsistent c (write_text c float64 f utf8 render d now pk body db)
    unfolding write_text
    write_text-IsConsistent now pk body db k = elim (Bool-cases (body == "")) [
      | inl m ↦ rw m (tombstone_text-IsConsistent now pk db k)
      | inr m ↦ rw m (
          or_before-IsConsistent db _ (λ db' e. page_text-IsConsistent now pk body "" now db db' e)
            k)
    ]

    -- The vectors of a coherent store after a change of those of one path.
    abbrev KeepsOthers : String → Vectors F → Vectors F → Type 0
    KeepsOthers path v v' =
        IsCoherent f v'
        × ((p : String) (g n : ℕ)
            → str_eq p path ≡ false
            → view v'.cache p g n ≡ view v.cache p g n)

    delete_vectors-KeepsOthers :
        (now : ℤ) (path : String) (v : Vectors F)
        → IsCoherent f v
        → KeepsOthers path v (delete_vectors c float64 f utf8 render d now path v)
    unfolding delete_vectors
    delete_vectors-KeepsOthers now path v k = elim (Bool-cases (d.has_embed_store)) [
      | inr m ↦ rw m (k, λ p g n e. refl)
      | inl m ↦ rw m (
        unfold or_before perform on_table on_cache in
            perform-IsCoherent f h now (Action.delete path) v _ k
              (unfold perform on_table on_cache in refl),
        λ p g n e.
            unfold or_before perform on_table on_cache in
            (view-delete path v.cache p g n ∙ rw e refl),
      )
    ]

    embed_with-KeepsOthers :
        (embed : Option (ℕ → List ℕ → Option (List F))) (now : ℤ) (path body : String)
        (v : Vectors F)
        → IsCoherent f v
        → KeepsOthers path v (embed_with c float64 f utf8 render d embed now path body v)
    unfolding embed_with
    embed_with-KeepsOthers none now path body v k = (k, λ p g n e. refl)
    embed_with-KeepsOthers (some embed) now path body v k = elim (Bool-cases (d.has_embed_store)) [
      | inr m ↦ rw m (k, λ p g n e. refl)
      | inl m ↦
          let stored =
            embed_and_store_page_lem f embed h now path 0 (utf8 body) d.embed_model v k in
          rw m (stored.0, λ p g n e. stored.1 p g n ∙ rw e refl)
    ]

    -- What processing a page keeps.
    abbrev pub IsKept : String → Outputs X F P → Outputs X F P → Type 0
    IsKept path o o' = IsConsistent c o'.db × KeepsOthers path o.vectors o'.vectors

    drop_page-IsKept :
        (now : ℤ) (pk path : String) (o : Outputs X F P)
        → IsConsistent c o.db
        → IsCoherent f o.vectors
        → IsKept path o (drop_page c float64 f utf8 render d now pk path o)
    unfolding drop_page
    drop_page-IsKept now pk path o h₁ h₂ = (
      tombstone_text-IsConsistent now pk o.db h₁,
      delete_vectors-KeepsOthers now path o.vectors h₂,
    )

    write_page-IsKept :
        (now : ℤ) (pk path body : String) (o : Outputs X F P)
        → IsConsistent c o.db
        → IsCoherent f o.vectors
        → IsKept path o (write_page c float64 f utf8 render d now pk path body o)
    unfolding write_page
    write_page-IsKept now pk path body o h₁ h₂ = (
      write_text-IsConsistent now pk body o.db h₁,
      elim (Bool-cases (body == "")) [
        | inl m ↦ rw m (h₂, λ p g n e. refl)
        | inr m ↦ rw m (embed_with-KeepsOthers d.embed now path body o.vectors h₂)
      ],
    )

    write_rendered-IsKept :
        (now : ℤ) (pk path : String) (boxes : List TextBoxData) (img : Option I) (o : Outputs X F P)
        → IsConsistent c o.db
        → IsCoherent f o.vectors
        → IsKept path o (write_rendered c float64 f utf8 render d now pk path boxes img o)
    unfolding write_rendered
    write_rendered-IsKept now pk path boxes none o h₁ h₂ = (h₁, (h₂, λ p g n e. refl))
    write_rendered-IsKept now pk path boxes (some img) o h₁ h₂ =
        write_page-IsKept now pk path _ o h₁ h₂

    process_live-IsKept :
        (now : ℤ) (pk path : String) (strokes : List StrokeData) (boxes : List TextBoxData)
        (o : Outputs X F P)
        → IsConsistent c o.db
        → IsCoherent f o.vectors
        → IsKept path o (process_live c float64 f utf8 render d now pk path strokes boxes o)
    unfolding process_live
    process_live-IsKept now pk path strokes boxes o h₁ h₂ =
        elim (Bool-cases (is_blank strokes boxes)) [
          | inl m ↦ rw m (drop_page-IsKept now pk path o h₁ h₂)
          | inr m ↦ rw m (write_rendered-IsKept now pk path boxes (render strokes) o h₁ h₂)
        ]

    -- Where JSON reads back what it wrote and floats are read back from their bits, processing a
    -- page keeps the mirror at the winners of the changelog, the vectors in memory at those of the
    -- table, and every vector of another path.
    pub process_page-IsKept :
        (now : ℤ) (pk : String) (o : Outputs X F P)
        → IsConsistent c o.db
        → IsCoherent f o.vectors
        → IsKept
            (page_path (live_page pk o.db.mirror).0 pk)
            o
            (process_page c float64 f utf8 render d now pk o)
    unfolding process_page
    process_page-IsKept now pk o h₁ h₂ = elim (Bool-cases ((live_page pk o.db.mirror).1)) [
      | inl m ↦ rw m (process_live-IsKept now pk _ _ _ o h₁ h₂)
      | inr m ↦ rw m (drop_page-IsKept now pk _ o h₁ h₂)
    ]
