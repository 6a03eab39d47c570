-- ===== src/Rag/Tests.antt =====
-- Test data for internal/rag, and its properties at concrete inputs.
use boox_bridge.Prelude.{
  ℕ, String, ◌≡◌, refl, Bool, true, false, Option, none, some, if◌then◌else◌, ◌&&◌, ◌<◌, List, [],
  ◌∷◌, map, ◌==◌, arith,
}
use boox_bridge.Prelude.Text.{str_eq}
use boox_bridge.Prelude.Lists.{keep, any, length}
use boox_bridge.Prelude.Int.{pos}
use boox_bridge.Prelude.Result.{ok}
use boox_bridge.Rag.Blob.{Float32, IsFloat32, to_bytes, of_bytes, of_bytes-to_bytes}
use boox_bridge.Rag.Vectors.{
  EmbeddingRow, EmbeddingRecord, Vectors, Action, on_table, on_cache, perform, record_of, row_for,
  row_is, save_row, delete_rows, rename_rows, renamed_row, rename_records, renamed_record, clashes,
}
use boox_bridge.Rag.Vectors.Coherent.{IsCoherent}
use boox_bridge.Rag.Vectors.View.{view}
use boox_bridge.Rag.Vectors.Refinement.{promised, store_refines_map}
use boox_bridge.Rag.Vectors.Races.{stale_vector}
use boox_bridge.Rag.Embed.{embed_all, embed_and_store_page}
use boox_bridge.Rag.Embed.Replaced.{replaced, embed_and_store_page_lem}
use boox_bridge.Rag.Chunk.{
  chunk_text, chunks_of, trim_space, trim_left, trim_right, strip, leading, trailing, white_byte,
  white_two, white_three,
}
use boox_bridge.Rag.Chunk.Spread.{Spread, chunk_text-Spread}

-- Two floats, 0.0 and 1.0.
abbrev pub two_floats : Float32 Bool
two_floats = record { bits = λ b. if b then 1065353216 else 0; from_bits = λ n. n == 1065353216 }

pub two_floats-IsFloat32 : IsFloat32 two_floats
two_floats-IsFloat32 = record { back = back; word = word }
  where
    back : (b : Bool) → two_floats.from_bits (two_floats.bits b) ≡ b
    back true = refl
    back false = refl

    word : (b : Bool) → two_floats.bits b < 4294967296
    word true = omega arith
    word false = omega arith

of_bytes-to_bytes_example :
    of_bytes two_floats (to_bytes two_floats (true ∷ false ∷ [])) ≡ true ∷ false ∷ []
of_bytes-to_bytes_example = of_bytes-to_bytes two_floats two_floats-IsFloat32 (true ∷ false ∷ [])

-- Chunk 0 of two pages of one note, as they stand in the table and in memory.
abbrev row : ℕ → EmbeddingRow
row page = record {
  note_path = "a.note";
  page = page;
  chunk = 0;
  embedding = 0 ∷ 0 ∷ 128 ∷ 63 ∷ [];
  model = "nomic";
  created_at = pos 5;
}

abbrev loaded : ℕ → EmbeddingRecord Bool
loaded page = record { note_path = "a.note"; page = page; chunk = 0; embedding = true ∷ [] }

abbrev two_pages : Vectors Bool
two_pages = record { rows = row 0 ∷ row 1 ∷ []; cache = loaded 0 ∷ loaded 1 ∷ [] }

two_pages-IsCoherent : IsCoherent two_floats two_pages
two_pages-IsCoherent = unfold record_of of_bytes in refl

-- Page 1 moves to "b.note" with the note.
abbrev moved_row : ℕ → EmbeddingRow
moved_row page = record {
  note_path = "b.note";
  page = page;
  chunk = 0;
  embedding = 0 ∷ 0 ∷ 128 ∷ 63 ∷ [];
  model = "nomic";
  created_at = pos 5;
}

abbrev moved_loaded : ℕ → EmbeddingRecord Bool
moved_loaded page = record { note_path = "b.note"; page = page; chunk = 0; embedding = true ∷ [] }

abbrev moved_pages : Vectors Bool
moved_pages = record {
  rows = moved_row 0 ∷ moved_row 1 ∷ [];
  cache = moved_loaded 0 ∷ moved_loaded 1 ∷ [];
}

rename_test :
    perform two_floats (pos 9) (Action.rename "a.note" "b.note") two_pages ≡ ok moved_pages
unfolding perform on_table on_cache rename_rows rename_records renamed_row renamed_record clashes
    row_is any
rename_test = refl

store_refines_map_example :
    IsCoherent two_floats moved_pages
    × ((p : String) (g c : ℕ)
        → view moved_pages.cache p g c
          ≡ promised two_floats (Action.rename "a.note" "b.note") (view two_pages.cache) p g c)
    × ((p : String) (g c : ℕ)
        → view (map (record_of two_floats) moved_pages.rows) p g c
          ≡ promised two_floats (Action.rename "a.note" "b.note") (view two_pages.cache) p g c)
store_refines_map_example =
    store_refines_map two_floats two_floats-IsFloat32 (pos 9) (Action.rename "a.note" "b.note")
      two_pages moved_pages two_pages-IsCoherent rename_test

saved_test :
    on_table two_floats (pos 5) (Action.save "a.note" 0 0 (true ∷ []) "nomic") [] ≡ ok (row 0 ∷ [])
unfolding on_table save_row row_for to_bytes
saved_test = refl

deleted_test : on_table two_floats (pos 5) (Action.delete "a.note") (row 0 ∷ []) ≡ ok []
unfolding on_table delete_rows keep
deleted_test = refl

stale_vector_example :
    (view (map (record_of two_floats) []) "a.note" 0 0 ≡ none)
    × (view
          (on_cache two_floats
            (Action.save "a.note" 0 0 (true ∷ []) "nomic")
            (row 0 ∷ [])
            (on_cache two_floats (Action.delete "a.note") [] []))
          "a.note"
          0
          0
        ≡ some (true ∷ []))
stale_vector_example =
    stale_vector two_floats (pos 5) "a.note" 0 0 (true ∷ []) "nomic" [] (row 0 ∷ []) [] []
      saved_test deleted_test

-- A service that gives 1.0 for any text.
abbrev service : ℕ → List ℕ → Option (List Bool)
service i c = some (true ∷ [])

embed_and_store_page_lem_example :
    IsCoherent two_floats
      (embed_and_store_page two_floats service
        (pos 9)
        "a.note"
        1
        (104 ∷ 105 ∷ [])
        "nomic"
        two_pages).0
    × ((p : String) (g c : ℕ)
        → view
            (embed_and_store_page two_floats service
              (pos 9)
              "a.note"
              1
              (104 ∷ 105 ∷ [])
              "nomic"
              two_pages).0.cache
            p
            g
            c
          ≡ (if str_eq p "a.note" && g == 1
              then replaced two_floats service
                  (chunk_text (104 ∷ 105 ∷ []))
                  (embed_all two_floats service 0 (chunk_text (104 ∷ 105 ∷ [])))
                  c
                  (view two_pages.cache p g c)
              else view two_pages.cache p g c))
    × ((embed_and_store_page two_floats service
          (pos 9)
          "a.note"
          1
          (104 ∷ 105 ∷ [])
          "nomic"
          two_pages).1
        ≡ length (embed_all two_floats service 0 (chunk_text (104 ∷ 105 ∷ []))))
embed_and_store_page_lem_example =
    embed_and_store_page_lem two_floats service two_floats-IsFloat32 (pos 9) "a.note" 1
      (104 ∷ 105 ∷ []) "nomic" two_pages two_pages-IsCoherent

-- " hi" and a line break, which is one chunk with white space around it.
chunked_test : chunk_text (32 ∷ 104 ∷ 105 ∷ 10 ∷ []) ≡ (104 ∷ 105 ∷ []) ∷ []
unfolding chunk_text chunks_of trim_space trim_left trim_right strip leading trailing white_byte
    white_two white_three
chunked_test = refl

chunk_text-Spread_example :
    Spread (chunk_text (32 ∷ 104 ∷ 105 ∷ 10 ∷ [])) (32 ∷ 104 ∷ 105 ∷ 10 ∷ [])
chunk_text-Spread_example = chunk_text-Spread (32 ∷ 104 ∷ 105 ∷ 10 ∷ [])
