-- ===== src/Sync/Columns.antt =====
-- internal/syncstore/store.go: `colInt`, `colNullInt`, `colString`, `colNullString` and `colBytes`,
-- the typed reads of an operation's columns.
use Prim.Native.String.{◌++◌}
use boox_bridge.Prelude.{ℕ, String, Option, none, some, List}
use boox_bridge.Prelude.Int.{ℤ}
use boox_bridge.Prelude.Result.{Result, ok, err}
use boox_bridge.Sync.Op.{Value, null, num, str, Cols, Op, lookup_col}
use boox_bridge.Sync.Codec.{Codec}

-- fmt's %q of a column name, which has no character to escape.
column_error : String → String → String
column_error key what = "column \"" ++ key ++ "\" " ++ what

-- n.Cols[key]: nil where the key is missing.
unfoldable pub value_at : {N : Type 0} → Cols N → String → Value N
value_at m key = elim (lookup_col key m) [ none ↦ null | some v ↦ v ]

module _ {N P : Type 0} (c : Codec N P) where
  as_int : String → Value N → Result ℤ
  as_int key (num v) = ok (c.to_int64 v)
  as_int key _ = err (column_error key "must be a number")

  unfoldable pub col_int : Op N → String → Result ℤ
  unfolding as_int column_error
  col_int n key = as_int key (value_at n.cols key)

  as_null_int : String → Value N → Result (Option ℤ)
  as_null_int key null = ok none
  as_null_int key (num v) = ok (some (c.to_int64 v))
  as_null_int key _ = err (column_error key "must be a number or null")

  unfoldable pub col_null_int : Op N → String → Result (Option ℤ)
  unfolding as_null_int column_error
  col_null_int n key = as_null_int key (value_at n.cols key)

  decoded : String → Result (List ℕ) → Result (List ℕ)
  decoded key (ok bytes) = ok bytes
  decoded key (err e) = err (column_error key ("is not valid base64: " ++ e))

  as_bytes : String → Value N → Result (List ℕ)
  unfolding decoded
  as_bytes key (str s) = decoded key (c.decode_base64 s)
  as_bytes key _ = err (column_error key "must be a base64 string")

  unfoldable pub col_bytes : Op N → String → Result (List ℕ)
  unfolding as_bytes column_error
  col_bytes n key = as_bytes key (value_at n.cols key)

module _ {N : Type 0} where
  as_string : String → Value N → Result String
  as_string key (str s) = ok s
  as_string key _ = err (column_error key "must be a string")

  unfoldable pub col_string : Op N → String → Result String
  unfolding as_string column_error
  col_string n key = as_string key (value_at n.cols key)

  as_null_string : String → Value N → Result (Option String)
  as_null_string key null = ok none
  as_null_string key (str s) = ok (some s)
  as_null_string key _ = err (column_error key "must be a string or null")

  unfoldable pub col_null_string : Op N → String → Result (Option String)
  unfolding as_null_string column_error
  col_null_string n key = as_null_string key (value_at n.cols key)
