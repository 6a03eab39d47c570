-- ===== src/Sync/Op.antt =====
-- internal/syncstore/op.go: the operation on the wire, the synced columns of each table, the
-- canonical schema text and the schema hashes that the server accepts, and `Normalize`. Numbers in
-- JSON are a type `N` that the clients choose, since Go decodes them as float64.
use text.Mathlib.Text.{◌==◌}
use Prim.Native.String.{◌++◌ as str_append}
use boox_bridge.Prelude.{
  String, ◌≡◌, Bool, true, false, ◌||◌, Option, none, some, List, [], ◌∷◌, if◌then◌else◌,
}
use boox_bridge.Prelude.Int.{ℤ}
pub mod Ulid

-- A decoded JSON value (Go's `any`). Lists and objects hold values, so the three are one block.
mutual
  pub data Value (N : Type 0) : Type 0 where
    null : Value N
    bool : Bool → Value N
    num : N → Value N
    str : String → Value N
    arr : Items N → Value N
    obj : Fields N → Value N

  pub data Items (N : Type 0) : Type 0 where
    nil : Items N
    cons : Value N → Items N → Items N

  pub data Fields (N : Type 0) : Type 0 where
    end : Fields N
    field : String → Value N → Fields N → Fields N

-- Go's `map[string]any`: the first entry of a key is its value.
abbrev pub Cols : Type 0 → Type 0
Cols N = List (String × Value N)

pub record Op (N : Type 0) : Type 0 where
  pub table : String
  pub pk : String
  pub site_id : String
  pub op_seq : ℤ
  pub wall_ts : ℤ
  pub cols : Cols N

-- v, ok := cols[c]
unfoldable pub lookup_col : {N : Type 0} → String → Cols N → Option (Value N)
lookup_col c [] = none
lookup_col c ((d, v) ∷ m) = if d == c then some v else lookup_col c m

abbrev pub folder_cols : List String
folder_cols = "created_at" ∷ "deleted_at" ∷ "name" ∷ "parent_folder_id" ∷ "sort_order" ∷ []

abbrev pub notebook_cols : List String
notebook_cols = "created_at" ∷ "deleted_at" ∷ "folder_id" ∷ "name" ∷ "sort_order" ∷ []

abbrev pub page_cols : List String
page_cols =
    "created_at" ∷ "deleted_at" ∷ "notebook_id" ∷ "sort_order" ∷ "template" ∷ "template_pitch_mm"
    ∷ []

abbrev pub page_text_cols : List String
page_text_cols = "created_at" ∷ "deleted_at" ∷ "model" ∷ "ocr_at" ∷ "text" ∷ []

abbrev pub stroke_cols : List String
stroke_cols =
    "color" ∷ "created_at" ∷ "deleted_at" ∷ "page_id" ∷ "pen_width_max" ∷ "pen_width_min" ∷ "points"
    ∷ "z" ∷ []

abbrev pub text_box_cols : List String
text_box_cols =
    "border_width" ∷ "color" ∷ "created_at" ∷ "deleted_at" ∷ "font_name" ∷ "font_size" ∷ "height"
    ∷ "page_id" ∷ "text" ∷ "weight" ∷ "width" ∷ "x" ∷ "y" ∷ "z" ∷ []

-- The map `knownCols`: none for an unknown table.
unfoldable pub known_cols : String → Option (List String)
known_cols t =
    if t == "folder"
    then some folder_cols
    else if t == "notebook"
    then some notebook_cols
    else if t == "page"
    then some page_cols
    else if t == "page_text_from_client"
    then some page_text_cols
    else if t == "page_text_from_server"
    then some page_text_cols
    else if t == "stroke"
    then some stroke_cols
    else if t == "text_box"
    then some text_box_cols
    else none

abbrev pub table_order : List String
table_order =
    "folder" ∷ "notebook" ∷ "page" ∷ "page_text_from_client" ∷ "page_text_from_server" ∷ "stroke"
    ∷ "text_box" ∷ []

-- strings.Join
unfoldable pub join : String → List String → String
join sep [] = ""
join sep (s ∷ []) = s
join sep (s ∷ t ∷ r) = str_append s (str_append sep (join sep (t ∷ r)))

-- knownCols[t] in Go is nil for an unknown table.
unfoldable pub cols_or_nil : Option (List String) → List String
cols_or_nil none = []
cols_or_nil (some cs) = cs

schema_parts : List String → List String
schema_parts [] = []
schema_parts (t ∷ ts) =
    str_append t (str_append ":" (join "," (cols_or_nil (known_cols t)))) ∷ schema_parts ts

unfoldable pub canonical_schema : String
unfolding schema_parts join cols_or_nil known_cols
canonical_schema = join ";" (schema_parts table_order)

abbrev pub schema_hash_v2 : String
schema_hash_v2 = "bc1953e2b85e766a572329e7023b4582b768094b4d27e28a632e21bedb776874"

-- `hash` is the lowercase hex SHA-256 of a text (crypto/sha256, encoding/hex).
module _ (hash : String → String) where
  unfoldable pub schema_hash : String
  schema_hash = hash canonical_schema

  unfoldable pub accepts_schema_hash : String → Bool
  unfolding schema_hash
  accepts_schema_hash h = h == schema_hash || h == schema_hash_v2

-- The loop of Normalize over the known columns: what is absent from the op stays absent.
unfoldable pub keep_known : {N : Type 0} → List String → Cols N → Cols N
keep_known [] m = []
keep_known (c ∷ cs) m =
    let rest = keep_known cs m in elim (lookup_col c m) [ none ↦ rest | some v ↦ (c, v) ∷ rest ]

unfoldable pub normalize : {N : Type 0} → Op N → Op N
unfolding keep_known cols_or_nil
normalize op = record op { cols = keep_known (cols_or_nil (known_cols op.table)) op.cols }
