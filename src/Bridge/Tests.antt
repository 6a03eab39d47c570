-- ===== src/Bridge/Tests.antt =====
-- Test data for internal/syncbridge: a page with a stroke, as a device has sent it, and the properties on
-- it.
use boox_bridge.Prelude.{
  ℕ, zero, suc, String, ◌≡◌, refl, Bool, true, false, Option, none, some, List, [], ◌∷◌,
}
use boox_bridge.Prelude.Int.{ℤ, pos}
use boox_bridge.Prelude.Result.{Result, ok, err}
use boox_bridge.Prelude.Text.{str_lt}
use boox_bridge.Sync.Op.{Value, null, num, str, Op, known_cols, lookup_col, normalize}
use boox_bridge.Sync.Op.Ulid.{is_ulid, all_in_alphabet, contains}
use boox_bridge.Sync.Columns.{
  col_int, col_null_int, col_string, col_null_string, col_bytes, value_at,
}
use boox_bridge.Sync.Mirror.{upsert, upsert_page, upsert_stroke, write_row, merge_row, stored_op}
use boox_bridge.Sync.Reconcile.{TablePk, lookup, insert, less}
use boox_bridge.Sync.Store.{
  Db, ApplyResult, validate_op, in_log, has_key, has_seq, append_op, appended,
}
use boox_bridge.Sync.Store.Apply.{
  reject, note_page, acked, set_acked, settled, walk, advance_accepted, record_op, apply_op,
  apply_ops, apply_batch,
}
use boox_bridge.Sync.Store.Consistent.{IsConsistent, apply_batch-IsConsistent}
use boox_bridge.Sync.Tests.{
  sample_codec, sample_back, site_a, folder_pk, empty_db, db_of, result_of,
}
use boox_bridge.Sync.Tests.Batches.{empty_db-IsWellFormed}
use boox_bridge.Rag.Vectors.{Vectors, record_of}
use boox_bridge.Rag.Vectors.Coherent.{IsCoherent}
use boox_bridge.Rag.Vectors.View.{view}
use boox_bridge.Rag.Blob.{of_bytes}
use boox_bridge.Rag.Tests.{two_floats, two_floats-IsFloat32}
use boox_bridge.Bridge.Queue.{Bridge, pages_changed}
use boox_bridge.Bridge.Offered.{IsOffered, pages_changed_lem}
use boox_bridge.Bridge.Reads.{StrokeData, page_path, live_page}
use boox_bridge.Bridge.Pages.{Deps, Outputs, process_page}
use boox_bridge.Bridge.Invariant.{IsKept, process_page-IsKept}
use boox_bridge.Bridge.Dropped.{dropped_vectors}

abbrev page_pk : String
page_pk = "01EEEEEEEEEEEEEEEEEEEEEEEE"

abbrev stroke_pk : String
stroke_pk = "01FFFFFFFFFFFFFFFFFFFFFFFF"

abbrev page_op : Value ℤ → Op ℤ
page_op deleted_at = record {
  table = "page";
  pk = page_pk;
  site_id = site_a;
  op_seq = pos 1;
  wall_ts = pos 100;
  cols =
      ("created_at", num (pos 5))
      ∷ ("deleted_at", deleted_at)
      ∷ ("notebook_id", str folder_pk)
      ∷ ("sort_order", num (pos 1))
      ∷ ("template", null)
      ∷ ("template_pitch_mm", null)
      ∷ [];
}

abbrev stroke_op : Op ℤ
stroke_op = record {
  table = "stroke";
  pk = stroke_pk;
  site_id = site_a;
  op_seq = pos 2;
  wall_ts = pos 101;
  cols =
      ("color", num (pos 0))
      ∷ ("created_at", num (pos 6))
      ∷ ("deleted_at", null)
      ∷ ("page_id", str page_pk)
      ∷ ("pen_width_max", num (pos 9))
      ∷ ("pen_width_min", num (pos 2))
      ∷ ("points", str "AAAA")
      ∷ ("z", num (pos 1))
      ∷ [];
}

-- Everything that a batch computes with.
run : String → ℤ → List (Op ℤ) → Db (Op ℤ) → Result (Db (Op ℤ) × ApplyResult)
unfolding apply_batch apply_ops apply_op record_op advance_accepted walk settled set_acked acked
    note_page reject append_op appended in_log has_key has_seq validate_op merge_row write_row
    stored_op upsert upsert_page upsert_stroke insert lookup less str_lt col_int col_null_int
    col_string col_null_string col_bytes value_at lookup_col known_cols normalize is_ulid
    all_in_alphabet contains
run = apply_batch sample_codec

abbrev sent : Value ℤ → Result (Db (Op ℤ) × ApplyResult)
sent deleted_at =
    apply_batch sample_codec site_a (pos 1000) (page_op deleted_at ∷ stroke_op ∷ []) empty_db

abbrev with_page : Value ℤ → Db (Op ℤ)
with_page deleted_at = db_of (sent deleted_at)

live_sent : sent null ≡ ok (with_page null, result_of (sent null))
unfolding run
live_sent = refl

-- Chunk 0 of the page has a vector.
abbrev old_vectors : Vectors Bool
old_vectors = record {
  rows =
      record {
        note_path = "forestnote://01DDDDDDDDDDDDDDDDDDDDDDDD/01EEEEEEEEEEEEEEEEEEEEEEEE";
        page = 0;
        chunk = 0;
        embedding = 0 ∷ 0 ∷ 128 ∷ 63 ∷ [];
        model = "nomic";
        created_at = pos 5;
      }
      ∷ [];
  cache =
      record {
        note_path = "forestnote://01DDDDDDDDDDDDDDDDDDDDDDDD/01EEEEEEEEEEEEEEEEEEEEEEEE";
        page = 0;
        chunk = 0;
        embedding = true ∷ [];
      }
      ∷ [];
}

abbrev outputs : Value ℤ → Outputs (List String) Bool (Op ℤ)
outputs deleted_at = record { index = []; vectors = old_vectors; db = with_page deleted_at }

-- An index that keeps its calls, a recognition that fails, and an embedding.
abbrev silent : Deps (List String) ℕ Bool
silent = record {
  indexer =
      some
        (record { index_page = λ path page source body x. path ∷ x; delete = λ path x. path ∷ x });
  recognize = some (λ img. err "timeout");
  embed = some (λ i chunk. some (false ∷ []));
  has_embed_store = true;
  embed_model = "nomic";
}

abbrev bytes_of : String → List ℕ
bytes_of s = 97 ∷ []

abbrev image : List StrokeData → Option ℕ
image strokes = some 7

abbrev processed : Value ℤ → Outputs (List String) Bool (Op ℤ)
processed deleted_at =
    process_page sample_codec (λ z. z) two_floats bytes_of image silent (pos 2000) page_pk
      (outputs deleted_at)

old_vectors-IsCoherent : IsCoherent two_floats old_vectors
old_vectors-IsCoherent = unfold record_of of_bytes in refl

with_page-IsConsistent : IsConsistent sample_codec (with_page null)
with_page-IsConsistent =
    apply_batch-IsConsistent sample_codec sample_back site_a (pos 1000)
      (page_op null ∷ stroke_op ∷ []) empty_db (with_page null) (result_of (sent null))
      empty_db-IsWellFormed.consistent live_sent

process_page-IsKept_example :
    IsKept sample_codec
      (λ z. z)
      sample_back
      two_floats
      two_floats-IsFloat32
      bytes_of
      image
      silent
      (page_path (live_page page_pk (with_page null).mirror).0 page_pk)
      (outputs null)
      (processed null)
process_page-IsKept_example =
    process_page-IsKept sample_codec (λ z. z) sample_back two_floats two_floats-IsFloat32 bytes_of
      image silent (pos 2000) page_pk (outputs null) with_page-IsConsistent old_vectors-IsCoherent

page_gone : (live_page page_pk (with_page (num (pos 8))).mirror).1 ≡ false
unfolding run live_page
page_gone = refl

dropped_vectors_example :
    view
      (processed (num (pos 8))).vectors.cache
      (page_path (live_page page_pk (with_page (num (pos 8))).mirror).0 page_pk)
      0
      0
    ≡ none
dropped_vectors_example =
    dropped_vectors sample_codec (λ z. z) two_floats bytes_of image silent (pos 2000) page_pk
      (outputs (num (pos 8))) refl (rw page_gone refl) 0 0

-- A page twice and a row of another table, with room for one page.
abbrev changes : List TablePk
changes =
    record { table = "page"; pk = page_pk }
    ∷ record { table = "folder"; pk = folder_pk }
    ∷ record { table = "page"; pk = page_pk }
    ∷ record { table = "page"; pk = stroke_pk }
    ∷ []

abbrev copies : ℕ → List String
copies zero = []
copies (suc n) = folder_pk ∷ copies n

abbrev nearly_full : Bridge
nearly_full = record { queue = copies 255; in_flight = 1; processed = 3; dropped = 0 }

pages_changed_lem_example : IsOffered changes nearly_full (pages_changed changes nearly_full)
pages_changed_lem_example = pages_changed_lem changes nearly_full
