-- ===== src/Sync/Store/Consistent.antt =====
-- The mirror of the store against `Merge`: after any batch, of a device or of the server's own, the
-- mirror holds the winners among the operations of the changelog.
use boox_bridge.Prelude.{
  String, ◌≡◌, refl, sym, ap, ◌∙◌, ◌≢◌, Option, none, some, List, [], ◌∷◌, ◌++◌, subst, arith,
}
use boox_bridge.Prelude.Int.{ℤ}
use boox_bridge.Prelude.Result.{ok, bind-eq-ok, ok-injective}
use boox_bridge.Sync.Op.{Op, known_cols, normalize}
use boox_bridge.Sync.Codec.{Codec, IsRoundTrip}
use boox_bridge.Sync.Mirror.{Merged, merge_row}
use boox_bridge.Sync.Mirror.Winners.{HoldsWinners, row_of_winner, merge_row-HoldsWinners}
use boox_bridge.Sync.Reconcile.{TablePk, lookup}
use boox_bridge.Sync.Store.{LogRow, Db, ApplyResult, validate_op, appended}
use boox_bridge.Sync.Store.Rounds.{Round, round}
use boox_bridge.Prelude.Lists.{SameMembers}
use boox_bridge.Sync.Reconcile.Convergence.{HasUniqueIds, merge_convergence}
use boox_bridge.Sync.Store.Apply.{
  Progress, reject, advance_accepted, apply_op, apply_ops, apply_batch,
}

module _ {N P : Type 0} (c : Codec N P) where
  or_skip : Option (Op N) → List (Op N) → List (Op N)
  or_skip none ops = ops
  or_skip (some op) ops = op ∷ ops

  -- The operations of the changelog, read back from their payloads.
  unfoldable pub log_ops : List (LogRow P) → List (Op N)
  unfolding or_skip
  log_ops [] = []
  log_ops (r ∷ rs) = or_skip (c.unmarshal r.payload) (log_ops rs)

  -- The mirror holds the winners of the changelog.
  pub record IsConsistent (db : Db P) : Type 0 where
    pub winners : HoldsWinners c (log_ops db.ops) db.mirror

  pub log_ops-append : (xs ys : List (LogRow P)) → log_ops (xs ++ ys) ≡ log_ops xs ++ log_ops ys
  unfolding log_ops
  log_ops-append [] ys = refl
  log_ops-append (x ∷ xs) ys = ground (arith, log_ops-append xs ys)

  pub validate_op_known : (op : Op N) → validate_op op ≡ none → known_cols op.table ≢ none
  unfolding validate_op
  validate_op_known op h e = ground arith

  module _ (back : IsRoundTrip c) where
    pub log_ops-appended :
        (op : Op N) (payload : P) (now : ℤ) (db : Db P)
        → c.marshal op ≡ some payload
        → log_ops (appended op payload now db).ops ≡ log_ops db.ops ++ op ∷ []
    unfolding log_ops appended
    log_ops-appended op payload now db e = log_ops-append db.ops _ ∙ rw (back.back op payload e)

    pub appended-IsConsistent :
        (op : Op N) (payload : P) (now : ℤ) (db : Db P) (g : Merged)
        → validate_op op ≡ none
        → IsConsistent db
        → merge_row c (normalize op) db.mirror ≡ ok g
        → c.marshal op ≡ some payload
        → IsConsistent (appended op payload now (record db { mirror = g.mirror }))
    unfolding appended
    appended-IsConsistent op payload now db g valid h merged e = record {
      winners = rw (log_ops-appended op payload now (record db { mirror = g.mirror }) e) (
          merge_row-HoldsWinners c (log_ops db.ops) db.mirror op g (validate_op_known op valid)
            h.winners merged);
    }

    apply_op-IsConsistent :
        (site : String) (now : ℤ) (op : Op N) (st st' : Progress P)
        → IsConsistent st.db
        → apply_op c site now op st ≡ ok st'
        → IsConsistent st'.db
    unfolding reject
    apply_op-IsConsistent site now op st st' h e = elim (round c site now op st) [
      | Round.invalid reason v r ↦
          subst (λ s. IsConsistent s.db) (ok-injective (sym r ∙ e)) (record { winners = h.winners })
      | Round.duplicate v d r ↦ subst (λ s. IsConsistent s.db) (ok-injective (sym r ∙ e)) h
      | Round.malformed reason v d m r ↦
          subst (λ s. IsConsistent s.db) (ok-injective (sym r ∙ e)) (record { winners = h.winners })
      | Round.unmarshallable j r ↦ cc
      | Round.taken k r ↦ cc
      | Round.recorded g payload v d m j r ↦
          subst (λ s. IsConsistent s.db) (ok-injective (sym r ∙ e))
            (appended-IsConsistent op payload now st.db g v h m j)
    ]

    apply_ops-IsConsistent :
        (site : String) (now : ℤ) (ops : List (Op N)) (st st' : Progress P)
        → IsConsistent st.db
        → apply_ops c site now ops st ≡ ok st'
        → IsConsistent st'.db
    unfolding apply_ops
    apply_ops-IsConsistent site now [] st st' h e =
        subst (λ s. IsConsistent s.db) (ok-injective e) h
    apply_ops-IsConsistent site now (op ∷ ops) st st' h e =
        let (s, f, g) =
          bind-eq-ok (apply_op c site now op st) (λ s. apply_ops c site now ops s) e in
        apply_ops-IsConsistent site now ops s st' (apply_op-IsConsistent site now op st s h f) g

    -- A batch of a device keeps the mirror equal to the winners of the changelog.
    pub apply_batch-IsConsistent :
        (site : String) (now : ℤ) (ops : List (Op N)) (db db' : Db P) (res : ApplyResult)
        → IsConsistent db
        → apply_batch c site now ops db ≡ ok (db', res)
        → IsConsistent db'
    unfolding apply_batch advance_accepted
    apply_batch-IsConsistent site now ops db db' res h e =
        let start : Progress P = record {
          db = db;
          rejected = [];
          rejected_seqs = [];
          changed_pages = [];
        } in
        let (st, f, g) = bind-eq-ok (apply_ops c site now ops start) _ e in
        subst (λ (r : Db P × ApplyResult). IsConsistent r.0) (ok-injective g)
          (record { winners = (apply_ops-IsConsistent site now ops start st h f).winners })

  -- Two databases whose mirrors hold the winners of their changelogs, and whose changelogs have the
  -- same operations, identified by site and number, have the same mirror row at every key.
  pub mirror_convergence :
      (a b : Db P) (k : TablePk)
      → IsConsistent a
      → IsConsistent b
      → SameMembers (log_ops a.ops) (log_ops b.ops)
      → HasUniqueIds (log_ops a.ops)
      → lookup k a.mirror ≡ lookup k b.mirror
  mirror_convergence a b k ha hb same unique =
      ha.winners.rows k
      ∙ ap (row_of_winner c) (merge_convergence (log_ops a.ops) (log_ops b.ops) k same unique)
      ∙ sym (hb.winners.rows k)
