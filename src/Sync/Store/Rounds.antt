-- ===== src/Sync/Store/Rounds.antt =====
-- The outcomes of one round of ApplyBatch, each with the tests that lead to it.
use boox_bridge.Prelude.{
  ◌+◌, String, ◌≡◌, refl, ◌∙◌, ◌⊎◌, inl, inr, true, false, none, some, Option-cases, Bool-cases,
}
use boox_bridge.Prelude.Int.{ℤ}
use boox_bridge.Prelude.Result.{Result, ok, err, ◌>>=◌}
use boox_bridge.Sync.Op.{Op, normalize}
use boox_bridge.Sync.Codec.{Codec}
use boox_bridge.Sync.Mirror.{Merged, merge_row}
use boox_bridge.Sync.Store.{Db, validate_op, in_log, has_key, append_op, appended}
use boox_bridge.Sync.Store.Apply.{Progress, reject, note_page, record_op, apply_op}

module _ {N P : Type 0} (c : Codec N P) where
  -- What a recorded operation leaves.
  abbrev pub recorded_state : Op N → P → ℤ → Merged → Progress P → Progress P
  recorded_state op payload now g st = record st {
    db = appended op payload now (record st.db { mirror = g.mirror });
    changed_pages = note_page g st.changed_pages;
  }

  pub data Round (site : String) (now : ℤ) (op : Op N) (st : Progress P) : Type 0 where
    invalid :
        (reason : String)
        → validate_op op ≡ some reason
        → apply_op c site now op st ≡ ok (reject site op reason st)
        → Round site now op st
    duplicate :
        validate_op op ≡ none
        → in_log op.site_id op.op_seq st.db.ops ≡ true
        → apply_op c site now op st ≡ ok st
        → Round site now op st
    malformed :
        (reason : String)
        → validate_op op ≡ none
        → in_log op.site_id op.op_seq st.db.ops ≡ false
        → merge_row c (normalize op) st.db.mirror ≡ err reason
        → apply_op c site now op st ≡ ok (reject site op reason st)
        → Round site now op st
    unmarshallable :
        c.marshal op ≡ none
        → apply_op c site now op st ≡ err "marshal payload"
        → Round site now op st
    taken :
        has_key (st.db.last_seq + 1) st.db.ops ≡ true
        → apply_op c site now op st ≡ err "insert sync_ops: UNIQUE constraint failed: sync_ops.seq"
        → Round site now op st
    recorded :
        (g : Merged) (payload : P)
        → validate_op op ≡ none
        → in_log op.site_id op.op_seq st.db.ops ≡ false
        → merge_row c (normalize op) st.db.mirror ≡ ok g
        → c.marshal op ≡ some payload
        → apply_op c site now op st ≡ ok (recorded_state op payload now g st)
        → Round site now op st

  append_op-unmarshallable :
      (op : Op N) (now : ℤ) (db : Db P)
      → c.marshal op ≡ none
      → append_op c op now db ≡ err "marshal payload"
  unfolding append_op
  append_op-unmarshallable op now db j = rw (j, append_op)

  append_op-fresh :
      (op : Op N) (now : ℤ) (db : Db P) (payload : P)
      → c.marshal op ≡ some payload
      → in_log op.site_id op.op_seq db.ops ≡ false
      → has_key (db.last_seq + 1) db.ops ≡ false
      → append_op c op now db ≡ ok (appended op payload now db)
  unfolding append_op
  append_op-fresh op now db payload j d k = rw (j, d, k, append_op)

  append_op-taken :
      (op : Op N) (now : ℤ) (db : Db P) (payload : P)
      → c.marshal op ≡ some payload
      → in_log op.site_id op.op_seq db.ops ≡ false
      → has_key (db.last_seq + 1) db.ops ≡ true
      → append_op c op now db ≡ err "insert sync_ops: UNIQUE constraint failed: sync_ops.seq"
  unfolding append_op
  append_op-taken op now db payload j d k = rw (j, d, k, append_op)

  apply_op-merged :
      (site : String) (now : ℤ) (op : Op N) (st : Progress P) (g : Merged)
      → validate_op op ≡ none
      → in_log op.site_id op.op_seq st.db.ops ≡ false
      → merge_row c (normalize op) st.db.mirror ≡ ok g
      → apply_op c site now op st ≡ (
          append_op c op now (record st.db { mirror = g.mirror }) >>= λ db.
          ok (record st { db = db; changed_pages = note_page g st.changed_pages }))
  unfolding apply_op record_op
  apply_op-merged site now op st g v d m = rw (v, d, m, apply_op)

  result_cases : {A : Type 0} (r : Result A) → ((a : A) × (r ≡ ok a)) ⊎ ((e : String) × (r ≡ err e))
  result_cases (ok a) = inl (a, refl)
  result_cases (err e) = inr (e, refl)

  pub round : (site : String) (now : ℤ) (op : Op N) (st : Progress P) → Round site now op st
  unfolding apply_op record_op
  round site now op st = elim (Option-cases (validate_op op)) [
    | inr (reason, v) ↦ Round.invalid reason v (rw (v, apply_op))
    | inl v ↦ elim (Bool-cases (in_log op.site_id op.op_seq st.db.ops)) [
      | inl d ↦ Round.duplicate v d (rw (v, d, apply_op))
      | inr d ↦ elim (result_cases (merge_row c (normalize op) st.db.mirror)) [
        | inr (reason, m) ↦ Round.malformed reason v d m (rw (v, d, m, apply_op))
        | inl (g, m) ↦ elim (Option-cases (c.marshal op)) [
          | inl j ↦ Round.unmarshallable j (
              apply_op-merged site now op st g v d m
              ∙ rw (append_op-unmarshallable op now (record st.db { mirror = g.mirror }) j))
          | inr (payload, j) ↦ elim (Bool-cases (has_key (st.db.last_seq + 1) st.db.ops)) [
            | inl k ↦ Round.taken k (
                apply_op-merged site now op st g v d m
                ∙ rw (append_op-taken op now (record st.db { mirror = g.mirror }) payload j d k))
            | inr k ↦ Round.recorded g payload v d m j (
                apply_op-merged site now op st g v d m
                ∙ rw (append_op-fresh op now (record st.db { mirror = g.mirror }) payload j d k))
          ]
        ]
      ]
    ]
  ]
