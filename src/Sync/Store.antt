-- ===== src/Sync/Store.antt =====
-- internal/syncstore/store.go: the database of the sync layer, `validateOp` and
-- `appendOp`. The rows of sync_ops are kept in ascending seq, the order in
-- which they are inserted and in which OpsSince reads them. Failures of the database itself are not
-- modelled; a refused (site_id, op_seq) or seq is.
pub mod Apply
pub mod Author
pub mod Relay
pub mod Resend
pub mod WellFormed
pub mod Paging
pub mod Selection
pub mod Accepted
pub mod Authoring
pub mod Rounds
pub mod Consistent
pub mod Histories
use Prim.Native.String.{◌++◌ as str_append}
use text.Mathlib.Text.{◌==◌ as str_eq}
use boox_bridge.Prelude.{
  ℕ, zero, suc, ◌+◌, String, Bool, true, false, ◌&&◌, ◌||◌, Option, none, some, List, [], ◌∷◌, ◌++◌,
  if◌then◌else◌, ◌≡◌, sym, inl, inr, Option-cases, Bool-cases, ◌==◌,
}
use boox_bridge.Prelude.Int.{ℤ, pos, ltb_int, eqb_int}
use boox_bridge.Prelude.Lists.{length}
use boox_bridge.Prelude.Result.{Result, ok, err, ok-injective}
use boox_bridge.Sync.Op.{Cols, Op, lookup_col, known_cols, normalize}
use boox_bridge.Sync.Op.Ulid.{is_ulid}
use boox_bridge.Sync.Codec.{Codec}
use boox_bridge.Sync.Mirror.{Mirror, Merged, merge_row}
use boox_bridge.Sync.Reconcile.{TablePk}

-- A row of sync_ops.
pub record LogRow (P : Type 0) : Type 0 where
  pub seq : ℕ
  pub site_id : String
  pub op_seq : ℤ
  pub table_name : String
  pub pk : String
  pub wall_ts : ℤ
  pub payload : P
  pub applied_at : ℤ

-- A row of sync_cursors.
pub record Cursor : Type 0 where
  pub last_pull_seq : ℤ
  pub acked_op_seq : ℕ
  pub updated_at : ℤ

-- sync_seq, sync_ops, sync_cursors, sync_site and the mirror.
pub record Db (P : Type 0) : Type 0 where
  pub last_seq : ℕ
  pub ops : List (LogRow P)
  pub cursors : List (String × Cursor)
  pub site_id : String
  pub last_op_seq : ℕ
  pub mirror : Mirror

pub record RejectedOp : Type 0 where
  pub site_id : String
  pub op_seq : ℤ
  pub reason : String

pub record ApplyResult : Type 0 where
  pub accepted_through : ℕ
  pub rejected : List RejectedOp
  pub changed_pages : List TablePk

missing_column : {N : Type 0} → List String → Cols N → Option String
missing_column [] m = none
missing_column (c ∷ cs) m =
    let rest = missing_column cs m in
    elim (lookup_col c m) [ none ↦ some (str_append "missing column: " c) | some _ ↦ rest ]

-- The reason of a rejection, none for Go's "".
unfoldable pub validate_op : {N : Type 0} → Op N → Option String
unfolding missing_column
validate_op op = elim (known_cols op.table) [
  | none ↦ some "unknown table"
  | some known ↦
      if is_ulid op.pk
      then (if is_ulid op.site_id
          then (if ltb_int (pos 0) op.op_seq
              then missing_column known op.cols
              else some "op_seq must be > 0")
          else some "site_id is not a ULID")
      else some "pk is not a ULID"
]

-- SELECT 1 FROM sync_ops WHERE site_id = ? AND op_seq = ?
unfoldable pub in_log : {P : Type 0} → String → ℤ → List (LogRow P) → Bool
in_log site seq [] = false
in_log site seq (r ∷ rs) = str_eq r.site_id site && eqb_int r.op_seq seq || in_log site seq rs

-- A row has this key of sync_ops.
unfoldable pub has_key : {P : Type 0} → ℕ → List (LogRow P) → Bool
has_key seq [] = false
has_key seq (r ∷ rs) = r.seq == seq || has_key seq rs

-- rejectedSeqs[n]
unfoldable pub has_seq : List ℤ → ℤ → Bool
has_seq [] n = false
has_seq (r ∷ rs) n = eqb_int r n || has_seq rs n

-- The row of an operation, numbered by the bumped counter.
unfoldable pub appended : {N P : Type 0} → Op N → P → ℤ → Db P → Db P
appended op payload now db =
    let seq = db.last_seq + 1 in
    record db {
      last_seq = seq;
      ops =
          db.ops
          ++ record {
            seq = seq;
            site_id = op.site_id;
            op_seq = op.op_seq;
            table_name = op.table;
            pk = op.pk;
            wall_ts = op.wall_ts;
            payload = payload;
            applied_at = now;
          }
            ∷ [];
    }

module _ {N P : Type 0} (c : Codec N P) where
  unfoldable pub append_op : Op N → ℤ → Db P → Result (Db P)
  append_op op now db = elim (c.marshal op) [
    | none ↦ err "marshal payload"
    | some payload ↦
        if in_log op.site_id op.op_seq db.ops
        then err "insert sync_ops: UNIQUE constraint failed: sync_ops.site_id, sync_ops.op_seq"
        else if has_key (db.last_seq + 1) db.ops
        then err "insert sync_ops: UNIQUE constraint failed: sync_ops.seq"
        else ok (appended op payload now db)
  ]

  -- A successful append: what was marshalled, and that the operation was new.
  pub append_op-ok :
      (op : Op N) (now : ℤ) (db db' : Db P)
      → append_op op now db ≡ ok db'
      → (payload : P) × (c.marshal op ≡ some payload)
        × (in_log op.site_id op.op_seq db.ops ≡ false)
        × (db' ≡ appended op payload now db)
  unfolding append_op
  append_op-ok op now db db' h = elim (Option-cases (c.marshal op)) [
    | inl e ↦ cc (rw (e, append_op) at h)
    | inr (payload, e) ↦ elim (Bool-cases (in_log op.site_id op.op_seq db.ops)) [
      | inl b ↦ cc (rw (e, b, append_op) at h)
      | inr b ↦ elim (Bool-cases (has_key (db.last_seq + 1) db.ops)) [
        | inl k ↦ cc (rw (e, b, k, append_op) at h)
        | inr k ↦ (payload, e, b, sym (ok-injective (rw (e, b, k, append_op) at h)))
      ]
    ]
  ]
