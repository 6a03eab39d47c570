-- ===== src/Sync/Mirror.antt =====
-- internal/syncstore/store.go: the mirror tables fn_*, their upserts and `mergeRow`. The seven
-- tables are one map from (table, pk); a row has the columns of its table and the triple lww_*.
pub mod Uniform
pub mod Winners
use text.Mathlib.Text.{◌==◌}
use boox_bridge.Prelude.{ℕ, String, Bool, true, false, Option, none, some, List, [], if◌then◌else◌}
use boox_bridge.Prelude.Int.{ℤ}
use boox_bridge.Prelude.Result.{Result, ok, err, ◌>>=◌}
use boox_bridge.Sync.Op.{Op, known_cols}
use boox_bridge.Sync.Codec.{Codec}
use boox_bridge.Sync.Columns.{col_int, col_null_int, col_string, col_null_string, col_bytes}
use boox_bridge.Sync.Reconcile.{TablePk, key_of, less, RowMap, lookup, insert}

-- The columns of a mirror row, in the order in which its upsert reads them.
pub data Row : Type 0 where
  folder :
      (name : String) (sort_order created_at : ℤ) (deleted_at : Option ℤ)
      (parent_folder_id : Option String)
      → Row
  notebook :
      (name : String) (sort_order created_at : ℤ) (deleted_at : Option ℤ)
      (folder_id : Option String)
      → Row
  page :
      (notebook_id : String) (sort_order created_at : ℤ) (deleted_at : Option ℤ)
      (template : Option String) (template_pitch_mm : Option ℤ)
      → Row
  stroke :
      (page_id : String) (color pen_width_min pen_width_max : ℤ) (points : List ℕ)
      (z created_at : ℤ) (deleted_at : Option ℤ)
      → Row
  text_box :
      (page_id : String) (x y width height : ℤ) (text font_name : String)
      (font_size color weight border_width z created_at : ℤ) (deleted_at : Option ℤ)
      → Row
  page_text :
      (text : String) (ocr_at : ℤ) (model : Option String) (created_at : ℤ) (deleted_at : Option ℤ)
      → Row

pub record Stored : Type 0 where
  pub lww_wall_ts : ℤ
  pub lww_op_seq : ℤ
  pub lww_site_id : String
  pub row : Row

abbrev pub Mirror : Type 0
Mirror = RowMap Stored

-- The row that an operation writes, with its provenance.
unfoldable pub stored_of : {N : Type 0} → Op N → Row → Stored
stored_of n r = record {
  lww_wall_ts = n.wall_ts;
  lww_op_seq = n.op_seq;
  lww_site_id = n.site_id;
  row = r;
}

-- `Op{WallTS: …, OpSeq: …, SiteID: …}`: the other fields are Go's zero values.
unfoldable pub stored_op : {N : Type 0} → Stored → Op N
stored_op s = record {
  table = "";
  pk = "";
  site_id = s.lww_site_id;
  op_seq = s.lww_op_seq;
  wall_ts = s.lww_wall_ts;
  cols = [];
}

-- INSERT … ON CONFLICT(id) DO UPDATE of all columns: the row replaces an older one.
unfoldable pub put_row : {N : Type 0} → Op N → Row → Mirror → Mirror
unfolding stored_of
put_row n r m = insert (key_of n) (stored_of n r) m

-- The results of mergeRow, with the mirror that it leaves.
pub record Merged : Type 0 where
  pub changed : Bool
  pub page_pk : String
  pub mirror : Mirror

module _ {N P : Type 0} (c : Codec N P) where
  unfoldable pub upsert_folder : Op N → Mirror → Result Mirror
  unfolding put_row
  upsert_folder n m = do
    name ← col_string n "name"
    sort ← col_int c n "sort_order"
    created ← col_int c n "created_at"
    del ← col_null_int c n "deleted_at"
    parent ← col_null_string n "parent_folder_id"
    ok (put_row n (Row.folder name sort created del parent) m)

  unfoldable pub upsert_notebook : Op N → Mirror → Result Mirror
  unfolding put_row
  upsert_notebook n m = do
    name ← col_string n "name"
    sort ← col_int c n "sort_order"
    created ← col_int c n "created_at"
    del ← col_null_int c n "deleted_at"
    folder_id ← col_null_string n "folder_id"
    ok (put_row n (Row.notebook name sort created del folder_id) m)

  unfoldable pub upsert_page : Op N → Mirror → Result Mirror
  unfolding put_row
  upsert_page n m = do
    nb ← col_string n "notebook_id"
    sort ← col_int c n "sort_order"
    created ← col_int c n "created_at"
    del ← col_null_int c n "deleted_at"
    template ← col_null_string n "template"
    pitch ← col_null_int c n "template_pitch_mm"
    ok (put_row n (Row.page nb sort created del template pitch) m)

  -- The page of the stroke comes back beside the mirror.
  unfoldable pub upsert_stroke : Op N → Mirror → Result (String × Mirror)
  unfolding put_row
  upsert_stroke n m = do
    page_id ← col_string n "page_id"
    color ← col_int c n "color"
    wmin ← col_int c n "pen_width_min"
    wmax ← col_int c n "pen_width_max"
    pts ← col_bytes c n "points"
    z ← col_int c n "z"
    created ← col_int c n "created_at"
    del ← col_null_int c n "deleted_at"
    ok (page_id, put_row n (Row.stroke page_id color wmin wmax pts z created del) m)

  unfoldable pub upsert_text_box : Op N → Mirror → Result (String × Mirror)
  unfolding put_row
  upsert_text_box n m = do
    page_id ← col_string n "page_id"
    x ← col_int c n "x"
    y ← col_int c n "y"
    width ← col_int c n "width"
    height ← col_int c n "height"
    text ← col_string n "text"
    font_name ← col_string n "font_name"
    font_size ← col_int c n "font_size"
    color ← col_int c n "color"
    weight ← col_int c n "weight"
    border_width ← col_int c n "border_width"
    z ← col_int c n "z"
    created ← col_int c n "created_at"
    del ← col_null_int c n "deleted_at"
    ok (
      page_id,
      put_row n
          (Row.text_box page_id x y width height text font_name font_size color weight border_width
            z created del)
          m,
    )

  unfoldable pub upsert_page_text : Op N → Mirror → Result Mirror
  unfolding put_row
  upsert_page_text n m = do
    text ← col_string n "text"
    ocr_at ← col_int c n "ocr_at"
    model ← col_null_string n "model"
    created ← col_int c n "created_at"
    del ← col_null_int c n "deleted_at"
    ok (put_row n (Row.page_text text ocr_at model created del) m)

  -- The switch of mergeRow: the mirror, and the page whose rendering changes ("" for none).
  unfoldable pub upsert : Op N → Mirror → Result (String × Mirror)
  upsert n m =
      if n.table == "folder"
      then (do m' ← upsert_folder n m; ok ("", m'))
      else if n.table == "notebook"
      then (do m' ← upsert_notebook n m; ok ("", m'))
      else if n.table == "page"
      then (do m' ← upsert_page n m; ok (n.pk, m'))
      else if n.table == "stroke"
      then upsert_stroke n m
      else if n.table == "text_box"
      then upsert_text_box n m
      else if n.table == "page_text_from_server"
      then (do m' ← upsert_page_text n m; ok ("", m'))
      else if n.table == "page_text_from_client"
      then (do m' ← upsert_page_text n m; ok ("", m'))
      else ok ("", m)

  -- On a win the row is written.
  unfoldable pub write_row : Op N → Mirror → Result Merged
  write_row n m = do w ← upsert n m; ok (record { changed = true; page_pk = w.0; mirror = w.1 })

  -- The SELECT names the table fn_<table>, and fails where there is none.
  unfoldable pub merge_row : Op N → Mirror → Result Merged
  merge_row n m = elim (known_cols n.table) [
    | none ↦ err "load mirror row: no such table"
    | some _ ↦ elim (lookup (key_of n) m) [
      | none ↦ write_row n m
      | some s ↦
          if less (stored_op s) n
          then write_row n m
          else ok (record { changed = false; page_pk = ""; mirror = m })
    ]
  ]
