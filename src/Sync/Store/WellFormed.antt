-- ===== src/Sync/Store/WellFormed.antt =====
-- The invariant of the sync database: ascending changelog numbers up to the counter, one row for
-- each (site_id, op_seq), readable payloads, and the winners of the changelog in the mirror.
use boox_bridge.Prelude.{
  ℕ, ◌+◌, ◌≤◌, ◌<◌, String, ◌≡◌, ◌≢◌, refl, sym, ◌∙◌, false, ◌||◌, none, some, List, [], ◌∷◌, ◌++◌,
  arith, subst,
}
use boox_bridge.Prelude.Text.{eq_iff}
use boox_bridge.Prelude.Int.{ℤ, eqb_int_iff}
use boox_bridge.Prelude.Result.{ok, bind-eq-ok, ok-injective}
use boox_bridge.Sync.Op.{Op}
use boox_bridge.Sync.Codec.{Codec, IsRoundTrip}
use boox_bridge.Sync.Mirror.{Mirror}
use boox_bridge.Sync.Store.{LogRow, Db, ApplyResult, in_log, has_key, appended}
use boox_bridge.Sync.Store.Apply.{
  Progress, reject, advance_accepted, apply_op, apply_ops, apply_batch,
}
use boox_bridge.Sync.Store.Rounds.{Round, round}
use boox_bridge.Sync.Store.Consistent.{IsConsistent, apply_batch-IsConsistent}
use boox_bridge.Sync.Store.Paging.{AllReadable}
use boox_bridge.Sync.Store.Selection.{Ascends}

module _ {P : Type 0} where
  -- The numbers ascend from above `lo` and do not pass `hi`.
  abbrev pub AscendsTo : ℕ → ℕ → List (LogRow P) → Type 0
  AscendsTo lo hi [] = lo ≤ hi
  AscendsTo lo hi (r ∷ rs) = (lo < r.seq) × AscendsTo r.seq hi rs

  pub AscendsTo-snoc :
      (lo hi : ℕ) (rs : List (LogRow P)) (r : LogRow P)
      → AscendsTo lo hi rs
      → r.seq ≡ hi + 1
      → AscendsTo lo (hi + 1) (rs ++ r ∷ [])
  AscendsTo-snoc lo hi [] r h e = (omega arith, omega arith)
  AscendsTo-snoc lo hi (x ∷ rs) r h e = (h.0, AscendsTo-snoc x.seq hi rs r h.1 e)

  AscendsTo-within : (lo hi : ℕ) (rs : List (LogRow P)) → AscendsTo lo hi rs → lo ≤ hi
  AscendsTo-within lo hi [] h = h
  AscendsTo-within lo hi (r ∷ rs) h = omega (arith, h.0, AscendsTo-within r.seq hi rs h.1)

  pub AscendsTo-Ascends : (lo hi : ℕ) (rs : List (LogRow P)) → AscendsTo lo hi rs → Ascends lo rs
  AscendsTo-Ascends lo hi [] h = tt
  AscendsTo-Ascends lo hi (r ∷ rs) h = (h.0, AscendsTo-Ascends r.seq hi rs h.1)

  -- The next number is free.
  pub key_free :
      (lo hi : ℕ) (rs : List (LogRow P)) → AscendsTo lo hi rs → has_key (hi + 1) rs ≡ false
  unfolding has_key
  key_free lo hi [] h = refl
  key_free lo hi (r ∷ rs) h =
      ground (arith, key_free r.seq hi rs h.1, AscendsTo-within r.seq hi rs h.1)

  -- No (site_id, op_seq) stands twice.
  abbrev pub HasUniqueRows : List (LogRow P) → Type 0
  HasUniqueRows [] = Unit
  HasUniqueRows (r ∷ rs) = (in_log r.site_id r.op_seq rs ≡ false) × HasUniqueRows rs

  pub in_log-append :
      (site : String) (n : ℤ) (xs ys : List (LogRow P))
      → in_log site n (xs ++ ys) ≡ (in_log site n xs || in_log site n ys)
  unfolding in_log
  in_log-append site n [] ys = refl
  in_log-append site n (x ∷ xs) ys = ground (arith, in_log-append site n xs ys)

  HasUniqueRows-snoc :
      (rs : List (LogRow P)) (r : LogRow P)
      → HasUniqueRows rs
      → in_log r.site_id r.op_seq rs ≡ false
      → HasUniqueRows (rs ++ r ∷ [])
  unfolding in_log
  HasUniqueRows-snoc [] r u e = (refl, tt)
  HasUniqueRows-snoc (x ∷ rs) r u e = (
    in_log-append x.site_id x.op_seq rs (r ∷ [])
        ∙ ground (
          arith,
          eq_iff x.site_id r.site_id,
          eq_iff r.site_id x.site_id,
          eqb_int_iff x.op_seq r.op_seq,
          eqb_int_iff r.op_seq x.op_seq,
        ),
    HasUniqueRows-snoc rs r u.1 (ground arith),
  )

module _ {N P : Type 0} (c : Codec N P) where
  pub record IsWellFormed (db : Db P) : Type 0 where
    pub ordered : AscendsTo 0 db.last_seq db.ops
    pub unique : HasUniqueRows db.ops
    pub readable : AllReadable c db.ops
    pub consistent : IsConsistent c db

  AllReadable-snoc :
      (rs : List (LogRow P)) (r : LogRow P)
      → AllReadable c rs
      → c.unmarshal r.payload ≢ none
      → AllReadable c (rs ++ r ∷ [])
  AllReadable-snoc [] r h e = (e, tt)
  AllReadable-snoc (x ∷ rs) r h e = (h.0, AllReadable-snoc rs r h.1 e)

  -- The part of the invariant that concerns the changelog.
  record IsLog (last : ℕ) (ops : List (LogRow P)) : Type 0 where
    ordered : AscendsTo 0 last ops
    unique : HasUniqueRows ops
    readable : AllReadable c ops

  module _ (back : IsRoundTrip c) where
    appended-IsLog :
        (op : Op N) (payload : P) (now : ℤ) (db : Db P) (m : Mirror)
        → c.marshal op ≡ some payload
        → in_log op.site_id op.op_seq db.ops ≡ false
        → IsLog db.last_seq db.ops
        → IsLog (db.last_seq + 1) (appended op payload now (record db { mirror = m })).ops
    unfolding appended
    appended-IsLog op payload now db m j d h = record {
      ordered = AscendsTo-snoc 0 db.last_seq db.ops _ h.ordered refl;
      unique = HasUniqueRows-snoc db.ops _ h.unique d;
      readable = AllReadable-snoc db.ops _ h.readable (λ e. cc (back.back op payload j));
    }

    apply_op-IsLog :
        (site : String) (now : ℤ) (op : Op N) (st st' : Progress P)
        → IsLog st.db.last_seq st.db.ops
        → apply_op c site now op st ≡ ok st'
        → IsLog st'.db.last_seq st'.db.ops
    unfolding reject appended
    apply_op-IsLog site now op st st' h e = elim (round c site now op st) [
      | Round.invalid reason v r ↦
          subst (λ s. IsLog s.db.last_seq s.db.ops) (ok-injective (sym r ∙ e)) h
      | Round.duplicate v d r ↦
          subst (λ s. IsLog s.db.last_seq s.db.ops) (ok-injective (sym r ∙ e)) h
      | Round.malformed reason v d m r ↦
          subst (λ s. IsLog s.db.last_seq s.db.ops) (ok-injective (sym r ∙ e)) h
      | Round.unmarshallable j r ↦ cc
      | Round.taken k r ↦ cc
      | Round.recorded g payload v d m j r ↦
          subst (λ s. IsLog s.db.last_seq s.db.ops) (ok-injective (sym r ∙ e))
            (appended-IsLog op payload now st.db g.mirror j d h)
    ]

    apply_ops-IsLog :
        (site : String) (now : ℤ) (ops : List (Op N)) (st st' : Progress P)
        → IsLog st.db.last_seq st.db.ops
        → apply_ops c site now ops st ≡ ok st'
        → IsLog st'.db.last_seq st'.db.ops
    unfolding apply_ops
    apply_ops-IsLog site now [] st st' h e =
        subst (λ s. IsLog s.db.last_seq s.db.ops) (ok-injective e) h
    apply_ops-IsLog site now (op ∷ ops) st st' h e =
        let (s, f, g) =
          bind-eq-ok (apply_op c site now op st) (λ s. apply_ops c site now ops s) e in
        apply_ops-IsLog site now ops s st' (apply_op-IsLog site now op st s h f) g

    -- Where a payload reads back as its operation, a batch that is applied keeps the invariant of
    -- the store: ascending sequence numbers up to last_seq, no site and number twice in the
    -- changelog, readable payloads, and a mirror that holds the winners of the changelog.
    pub apply_batch-IsWellFormed :
        (site : String) (now : ℤ) (ops : List (Op N)) (db db' : Db P) (res : ApplyResult)
        → IsWellFormed db
        → apply_batch c site now ops db ≡ ok (db', res)
        → IsWellFormed db'
    unfolding apply_batch advance_accepted
    apply_batch-IsWellFormed site now ops db db' res h e =
        let start : Progress P = record {
          db = db;
          rejected = [];
          rejected_seqs = [];
          changed_pages = [];
        } in
        let (st, f, g) = bind-eq-ok (apply_ops c site now ops start) _ e in
        let log : IsLog db'.last_seq db'.ops =
          subst (λ (r : Db P × ApplyResult). IsLog r.0.last_seq r.0.ops) (ok-injective g)
            (apply_ops-IsLog site now ops start st
              (record { ordered = h.ordered; unique = h.unique; readable = h.readable }) f) in
        record {
          ordered = log.ordered;
          unique = log.unique;
          readable = log.readable;
          consistent = apply_batch-IsConsistent c back site now ops db db' res h.consistent e;
        }
