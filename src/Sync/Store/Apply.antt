-- ===== src/Sync/Store/Apply.antt =====
-- internal/syncstore/store.go: `advanceAccepted` and `ApplyBatch`. A batch runs in one transaction:
-- an error leaves the caller's database as it was, so only a success returns a new one.
use text.Mathlib.Text.{◌==◌}
use boox_bridge.Prelude.{
  ℕ, zero, suc, ◌+◌, String, Bool, true, false, ◌&&◌, none, some, List, [], ◌∷◌, ◌++◌,
  if◌then◌else◌,
}
use boox_bridge.Prelude.Int.{ℤ, pos}
use boox_bridge.Prelude.Lists.{length}
use boox_bridge.Prelude.Result.{Result, ok, err, ◌>>=◌}
use boox_bridge.Sync.Op.{Op, normalize}
use boox_bridge.Sync.Codec.{Codec}
use boox_bridge.Sync.Mirror.{Merged, merge_row}
use boox_bridge.Sync.Reconcile.{TablePk}
use boox_bridge.Sync.Store.{
  LogRow, Cursor, Db, RejectedOp, ApplyResult, validate_op, in_log, has_seq, append_op,
}

-- The variables of the loop of ApplyBatch.
pub record Progress (P : Type 0) : Type 0 where
  pub db : Db P
  pub rejected : List RejectedOp
  pub rejected_seqs : List ℤ
  pub changed_pages : List TablePk

-- The closure `reject`.
unfoldable pub reject : {N P : Type 0} → String → Op N → String → Progress P → Progress P
reject site op reason st = record st {
  rejected =
      st.rejected ++ record { site_id = op.site_id; op_seq = op.op_seq; reason = reason } ∷ [];
  rejected_seqs = if op.site_id == site then op.op_seq ∷ st.rejected_seqs else st.rejected_seqs;
}

-- if changed && pagePK != ""
unfoldable pub note_page : Merged → List TablePk → List TablePk
note_page g pages =
    if g.changed && (if g.page_pk == "" then false else true)
    then pages ++ record { table = "page"; pk = g.page_pk } ∷ []
    else pages

-- SELECT acked_op_seq FROM sync_cursors WHERE site_id = ?; 0 where there is no row.
unfoldable pub acked : String → List (String × Cursor) → ℕ
acked site [] = 0
acked site ((s, cur) ∷ rest) = if s == site then cur.acked_op_seq else acked site rest

-- INSERT … ON CONFLICT(site_id) DO UPDATE SET acked_op_seq, updated_at
unfoldable pub set_acked : String → ℕ → ℤ → List (String × Cursor) → List (String × Cursor)
set_acked site h now [] =
    (site, record { last_pull_seq = pos 0; acked_op_seq = h; updated_at = now }) ∷ []
set_acked site h now ((s, cur) ∷ rest) =
    if s == site
    then (s, record cur { acked_op_seq = h; updated_at = now }) ∷ rest
    else (s, cur) ∷ set_acked site h now rest

-- op_seq `n` of the site is settled: rejected in this call, or in the changelog.
unfoldable pub settled : {P : Type 0} → String → List ℤ → List (LogRow P) → ℕ → Bool
settled site rejected ops n = if has_seq rejected (pos n) then true else in_log site (pos n) ops

-- The loop of advanceAccepted, with fuel.
unfoldable pub walk : {P : Type 0} → ℕ → String → List ℤ → List (LogRow P) → ℕ → ℕ
walk zero site rejected ops h = h
walk (suc fuel) site rejected ops h = elim (settled site rejected ops (h + 1)) [
  | true ↦ walk fuel site rejected ops (h + 1)
  | false ↦ h
]

-- Each round settles another entry of the two lists, so their lengths are fuel enough.
abbrev pub walk_fuel : {P : Type 0} → List ℤ → List (LogRow P) → ℕ
walk_fuel rejected ops = suc (length rejected + length ops)

unfoldable pub advance_accepted : {P : Type 0} → String → List ℤ → ℤ → Db P → ℕ × Db P
advance_accepted site rejected now db =
    let h = walk (walk_fuel rejected db.ops) site rejected db.ops (acked site db.cursors) in
    (h, record db { cursors = set_acked site h now db.cursors })

module _ {N P : Type 0} (c : Codec N P) where
  -- After the merge: an error of the merge rejects the operation.
  unfoldable pub record_op : String → ℤ → Op N → Result Merged → Progress P → Result (Progress P)
  record_op site now op (err reason) st = ok (reject site op reason st)
  record_op site now op (ok g) st = do
    db ← append_op c op now (record st.db { mirror = g.mirror })
    ok (record st { db = db; changed_pages = note_page g st.changed_pages })

  -- One round of the loop of ApplyBatch.
  unfoldable pub apply_op : String → ℤ → Op N → Progress P → Result (Progress P)
  apply_op site now op st = elim (validate_op op) [
    | some reason ↦ ok (reject site op reason st)
    | none ↦
        if in_log op.site_id op.op_seq st.db.ops
        then ok st
        else record_op site now op (merge_row c (normalize op) st.db.mirror) st
  ]

  unfoldable pub apply_ops : String → ℤ → List (Op N) → Progress P → Result (Progress P)
  apply_ops site now [] st = ok st
  apply_ops site now (op ∷ ops) st = do st' ← apply_op site now op st; apply_ops site now ops st'

  unfoldable pub apply_batch : String → ℤ → List (Op N) → Db P → Result (Db P × ApplyResult)
  apply_batch site now ops db = do
    st ←
        apply_ops site now ops
          (record { db = db; rejected = []; rejected_seqs = []; changed_pages = [] })
    let (h, db') = advance_accepted site st.rejected_seqs now st.db
    ok (
      db',
      record { accepted_through = h; rejected = st.rejected; changed_pages = st.changed_pages },
    )
