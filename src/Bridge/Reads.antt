-- ===== src/Bridge/Reads.antt =====
-- internal/syncstore/reads.go and internal/syncstore/pagetext.go: what the bridge reads of the mirror, and
-- the text of a page that the server authors. The path of a page is that of internal/fnpath.
use Prim.Native.String.{◌++◌ as str_append}
use text.Mathlib.Text.{◌==◌}
use boox_bridge.Prelude.{
  ℕ, String, Bool, true, false, ◌&&◌, Option, none, some, if◌then◌else◌, List, [], ◌∷◌,
}
use boox_bridge.Prelude.Int.{ℤ, pos, ltb_int}
use boox_bridge.Prelude.Result.{Result, ok, err}
use boox_bridge.Sync.Op.{null, num, str, Cols, Op}
use boox_bridge.Sync.Op.Ulid.{is_ulid}
use boox_bridge.Sync.Codec.{Codec}
use boox_bridge.Sync.Reconcile.{lookup}
use boox_bridge.Sync.Mirror.{Row, Mirror}
use boox_bridge.Sync.Store.{Db}
use boox_bridge.Sync.Store.Author.{author_ops}

unfoldable pub page_path : String → String → String
page_path notebook_id page_id =
    str_append "forestnote://" (str_append notebook_id (str_append "/" page_id))

unfoldable pub is_none : {A : Type 0} → Option A → Bool
is_none none = true
is_none (some a) = false

-- The notebook of a page row, and whether the row is not deleted.
unfoldable pub page_state : Row → String × Bool
unfolding is_none
page_state (Row.page notebook_id sort_order created_at deleted_at template pitch) =
    (notebook_id, is_none deleted_at)
page_state _ = ("", false)

unfoldable pub live_page : String → Mirror → String × Bool
unfolding page_state lookup
live_page pk m = elim (lookup (record { table = "page"; pk = pk }) m) [
  | none ↦ ("", false)
  | some s ↦ page_state s.row
]

pub record StrokeData : Type 0 where
  pub color : ℤ
  pub pen_width_min : ℤ
  pub pen_width_max : ℤ
  pub points : List ℕ
  pub z : ℤ

pub record TextBoxData : Type 0 where
  pub x : ℤ
  pub y : ℤ
  pub width : ℤ
  pub height : ℤ
  pub text : String
  pub font_name : String
  pub font_size : ℤ
  pub color : ℤ
  pub weight : ℤ
  pub border_width : ℤ
  pub z : ℤ

unfoldable pub stroke_on : String → Row → Option StrokeData
unfolding is_none
stroke_on pk (Row.stroke page_id color pen_width_min pen_width_max points z created_at deleted_at) =
    if page_id == pk && is_none deleted_at
    then some (record {
      color = color;
      pen_width_min = pen_width_min;
      pen_width_max = pen_width_max;
      points = points;
      z = z;
    })
    else none
stroke_on pk _ = none

unfoldable pub text_box_on : String → Row → Option TextBoxData
unfolding is_none
text_box_on pk
      (Row.text_box page_id x y width height text font_name font_size color weight border_width z
        created_at deleted_at) =
    if page_id == pk && is_none deleted_at
    then some (record {
      x = x;
      y = y;
      width = width;
      height = height;
      text = text;
      font_name = font_name;
      font_size = font_size;
      color = color;
      weight = weight;
      border_width = border_width;
      z = z;
    })
    else none
text_box_on pk _ = none

-- ORDER BY z; of equal ones the first row comes first.
unfoldable pub place_by : {A : Type 0} → (A → ℤ) → Option A → List A → List A
place_by z none xs = xs
place_by z (some x) [] = x ∷ []
place_by z (some x) (y ∷ xs) =
    let rest = place_by z (some x) xs in if ltb_int (z y) (z x) then y ∷ rest else x ∷ y ∷ xs

unfoldable pub rows_by : {A : Type 0} → (A → ℤ) → (Row → Option A) → Mirror → List A
unfolding place_by
rows_by z read [] = []
rows_by z read ((k, s) ∷ m) = place_by z (read s.row) (rows_by z read m)

unfoldable pub live_page_strokes : String → Mirror → List StrokeData
unfolding rows_by stroke_on
live_page_strokes pk m = rows_by (λ (d : StrokeData). d.z) (stroke_on pk) m

unfoldable pub live_page_text_boxes : String → Mirror → List TextBoxData
unfolding rows_by text_box_on
live_page_text_boxes pk m = rows_by (λ (d : TextBoxData). d.z) (text_box_on pk) m

-- float64 of an integer is the parameter `float64`.
module _ {N : Type 0} (float64 : ℤ → N) where
  unfoldable pub page_text_values : String → ℤ → ℤ → String → Option ℤ → Cols N
  page_text_values text ocr_at created_at model deleted_at =
      ("created_at", num (float64 created_at))
      ∷ ("deleted_at", elim deleted_at [ none ↦ null | some t ↦ num (float64 t) ])
      ∷ ("model", if model == "" then null else str model)
      ∷ ("ocr_at", num (float64 ocr_at))
      ∷ ("text", str text)
      ∷ []

  unfoldable pub page_text_op : String → Cols N → Op N
  page_text_op page_id cols = record {
    table = "page_text_from_server";
    pk = page_id;
    site_id = "";
    op_seq = pos 0;
    wall_ts = pos 0;
    cols = cols;
  }

  module _ {P : Type 0} (c : Codec N P) where
    unfoldable pub author_row : ℤ → String → Op N → Db P → Result (Db P)
    author_row now what op db = elim (author_ops c now (op ∷ []) db) [
      | err e ↦ err (str_append what e)
      | ok r ↦ ok (r.0)
    ]

    unfoldable pub author_page_text : ℤ → String → String → ℤ → String → Db P → Result (Db P)
    unfolding page_text_values page_text_op author_row is_ulid
    author_page_text now page_id text ocr_at model db =
        if is_ulid page_id
        then author_row now "author page text: "
            (page_text_op page_id (page_text_values text ocr_at ocr_at model none)) db
        else err (str_append "page id is not a ULID: " page_id)

    unfoldable pub author_page_text_tombstone : ℤ → String → Db P → Result (Db P)
    unfolding page_text_values page_text_op author_row is_ulid
    author_page_text_tombstone now page_id db =
        if is_ulid page_id
        then author_row now "author page text tombstone: "
            (page_text_op page_id (page_text_values "" (pos 0) now "" (some now))) db
        else err (str_append "page id is not a ULID: " page_id)
