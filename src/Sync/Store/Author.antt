-- ===== src/Sync/Store/Author.antt =====
-- internal/syncstore/store.go: `AuthorOps`, by which the server writes operations of its own. An
-- error rolls the transaction back, so only a success returns a new database.
use Prim.Native.String.{◌++◌ as str_append}
use boox_bridge.Prelude.{ℕ, ◌+◌, String, none, some, List, [], ◌∷◌}
use boox_bridge.Prelude.Int.{ℤ, pos}
use boox_bridge.Prelude.Result.{Result, ok, err, ◌>>=◌}
use boox_bridge.Sync.Op.{Op, normalize}
use boox_bridge.Sync.Codec.{Codec}
use boox_bridge.Sync.Mirror.{Merged, merge_row}
use boox_bridge.Sync.Reconcile.{TablePk}
use boox_bridge.Sync.Store.{Db, validate_op, append_op}
use boox_bridge.Sync.Store.Apply.{note_page}

-- op.SiteID, op.OpSeq, op.WallTS = siteID, seq, now
unfoldable pub stamp : {N : Type 0} → String → ℕ → ℤ → Op N → Op N
stamp site seq now op = record op { site_id = site; op_seq = pos seq; wall_ts = now }

-- The variables of the loop of AuthorOps.
pub record Authoring (P : Type 0) : Type 0 where
  pub db : Db P
  pub seq : ℕ
  pub changed_pages : List TablePk

module _ {N P : Type 0} (c : Codec N P) where
  author_error : String → Op N → String → String
  author_error what op reason =
      str_append what (str_append op.table (str_append "/" (str_append op.pk reason)))

  -- The part of a round that follows validation.
  unfoldable pub author_merge : ℤ → Op N → Result Merged → ℕ → Authoring P → Result (Authoring P)
  unfolding author_error
  author_merge now op (err e) seq st = err (author_error "author merge " op (str_append ": " e))
  author_merge now op (ok g) seq st = do
    db ← append_op c op now (record st.db { mirror = g.mirror })
    ok (record { db = db; seq = seq; changed_pages = note_page g st.changed_pages })

  unfoldable pub author_op : String → ℤ → Op N → Authoring P → Result (Authoring P)
  unfolding author_error
  author_op site now op₀ st =
      let seq = st.seq + 1 in
      let op = stamp site seq now op₀ in
      elim (validate_op op) [
        | some reason ↦ err (author_error "author op " op (str_append " invalid: " reason))
        | none ↦ author_merge now op (merge_row c (normalize op) st.db.mirror) seq st
      ]

  unfoldable pub author_each : String → ℤ → List (Op N) → Authoring P → Result (Authoring P)
  author_each site now [] st = ok st
  author_each site now (op ∷ ops) st = do
    st' ← author_op site now op st
    author_each site now ops st'

  unfoldable pub author_ops : ℤ → List (Op N) → Db P → Result (Db P × List TablePk)
  author_ops now [] db = ok (db, [])
  author_ops now (op ∷ ops) db = do
    st ←
        author_each db.site_id now (op ∷ ops)
          (record { db = db; seq = db.last_op_seq; changed_pages = [] })
    ok (record st.db { last_op_seq = st.seq }, st.changed_pages)
