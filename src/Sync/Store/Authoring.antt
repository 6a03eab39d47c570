-- ===== src/Sync/Store/Authoring.antt =====
-- `AuthorOps`: the operations that it logs, their numbers, and the mirror that it leaves.
use boox_bridge.Prelude.{
  ℕ, ◌+◌, String, ◌≡◌, ◌≢◌, refl, sym, ◌∙◌, inl, inr, true, false, none, some, List, [], ◌∷◌, ◌++◌,
  Option-cases, subst, arith,
}
use mathlib.Core.List.{append-nil, append_assoc}
use boox_bridge.Prelude.Int.{ℤ, pos}
use boox_bridge.Prelude.Lists.{length}
use boox_bridge.Prelude.Result.{Result, ok, err, ◌>>=◌, bind-eq-ok, ok-injective}
use boox_bridge.Sync.Op.{Op, normalize}
use boox_bridge.Sync.Codec.{Codec, IsRoundTrip}
use boox_bridge.Sync.Mirror.{Merged, merge_row}
use boox_bridge.Sync.Reconcile.{TablePk}
use boox_bridge.Sync.Store.{Db, validate_op, in_log, append_op, append_op-ok, appended}
use boox_bridge.Sync.Store.Apply.{note_page}
use boox_bridge.Sync.Store.Author.{
  Authoring, stamp, author_merge, author_op, author_each, author_ops,
}
use boox_bridge.Sync.Store.Consistent.{
  IsConsistent, log_ops, log_ops-appended, appended-IsConsistent,
}

-- The stamped operations, numbered from `seq` on.
unfoldable pub stamp_all : {N : Type 0} → String → ℕ → ℤ → List (Op N) → List (Op N)
stamp_all site seq now [] = []
stamp_all site seq now (op ∷ ops) = stamp site (seq + 1) now op ∷ stamp_all site (seq + 1) now ops

module _ {N P : Type 0} (c : Codec N P) where
  -- A round that succeeds.
  record Authored (site : String) (now : ℤ) (op : Op N) (st st' : Authoring P) : Type 0 where
    merged : Merged
    payload : P
    valid : validate_op (stamp site (st.seq + 1) now op) ≡ none
    fresh : in_log site (pos (st.seq + 1)) st.db.ops ≡ false
    won : merge_row c (normalize (stamp site (st.seq + 1) now op)) st.db.mirror ≡ ok merged
    marshalled : c.marshal (stamp site (st.seq + 1) now op) ≡ some payload
    state : st' ≡ record {
      db =
          appended
            (stamp site (st.seq + 1) now op)
            payload
            now
            (record st.db { mirror = merged.mirror });
      seq = st.seq + 1;
      changed_pages = note_page merged st.changed_pages;
    }

  author_merge-ok :
      (now : ℤ) (op : Op N) (m : Result Merged) (seq : ℕ) (st st' : Authoring P)
      → author_merge c now op m seq st ≡ ok st'
      → (g : Merged) × (m ≡ ok g)
        × ((append_op c op now (record st.db { mirror = g.mirror }) >>= λ db.
              ok (record { db = db; seq = seq; changed_pages = note_page g st.changed_pages }))
            ≡ ok st')
  unfolding author_merge
  author_merge-ok now op (ok g) seq st st' h = (g, refl, h)
  author_merge-ok now op (err e) seq st st' h = cc

  authored :
      (site : String) (now : ℤ) (op : Op N) (st st' : Authoring P)
      → author_op c site now op st ≡ ok st'
      → Authored site now op st st'
  unfolding author_op
  authored site now op st st' h =
      elim (Option-cases (validate_op (stamp site (st.seq + 1) now op))) [
        | inr (reason, v) ↦ cc (rw (v, author_op) at h)
        | inl v ↦
            let (g, won, rest) =
              author_merge-ok now _ _ (st.seq + 1) st st' (rw (v, author_op) at h) in
            let (db, app, e) =
              bind-eq-ok (append_op c _ now (record st.db { mirror = g.mirror })) _ rest in
            let (payload, j, d, same) = append_op-ok c _ now _ db app in
            record {
              merged = g;
              payload = payload;
              valid = v;
              fresh = unfold stamp in d;
              won = won;
              marshalled = j;
              state =
                  subst
                    (λ d. st' ≡ record {
                      db = d;
                      seq = st.seq + 1;
                      changed_pages = note_page g st.changed_pages;
                    })
                    same (sym (ok-injective e));
            }
      ]

  module _ (back : IsRoundTrip c) where
    Follows : String → ℤ → List (Op N) → Authoring P → Authoring P → Type 0
    Follows site now ops st st' =
        (IsConsistent c st.db → IsConsistent c st'.db)
        × (log_ops c st'.db.ops ≡ log_ops c st.db.ops ++ stamp_all site st.seq now ops)
        × (st'.seq ≡ st.seq + length ops)

    author_op-Follows :
        (site : String) (now : ℤ) (op : Op N) (st st' : Authoring P)
        → author_op c site now op st ≡ ok st'
        → Follows site now (op ∷ []) st st'
    unfolding Follows stamp_all
    author_op-Follows site now op st st' h =
        let a = authored site now op st st' h in
        let o = stamp site (st.seq + 1) now op in
        let kept =
          log_ops-appended c back o a.payload now (record st.db { mirror = a.merged.mirror })
            a.marshalled in
        subst (Follows site now (op ∷ []) st) (sym a.state) (
          λ i.
              appended-IsConsistent c back o a.payload now st.db a.merged a.valid i a.won
                a.marshalled,
          kept,
          omega arith,
        )

    author_each-Follows :
        (site : String) (now : ℤ) (ops : List (Op N)) (st st' : Authoring P)
        → author_each c site now ops st ≡ ok st'
        → Follows site now ops st st'
    unfolding Follows stamp_all author_each
    author_each-Follows site now [] st st' h =
        subst (Follows site now [] st) (ok-injective h) (λ i. i, sym (append-nil _), omega arith)
    author_each-Follows site now (op ∷ ops) st st' h =
        let (s, f, g) =
          bind-eq-ok (author_op c site now op st) (λ s. author_each c site now ops s) h in
        let one = author_op-Follows site now op st s f in
        let rest = author_each-Follows site now ops s st' g in
        (
          λ i. rest.0 (one.0 i),
          rest.1 ∙ rw (one.1, one.2) (append_assoc (log_ops c st.db.ops) _ _),
          omega (arith, one.2, rest.2),
        )

    -- With a codec that reads back what it writes, a success of AuthorOps on a store whose mirror
    -- holds the winners keeps that, appends all the operations in order to the changelog, stamped
    -- with the server's site, the next numbers and the time, and counts them.
    pub author_ops_lem :
        (now : ℤ) (ops : List (Op N)) (db db' : Db P) (pages : List TablePk)
        → IsConsistent c db
        → author_ops c now ops db ≡ ok (db', pages)
        → IsConsistent c db'
          × (log_ops c db'.ops ≡ log_ops c db.ops ++ stamp_all db.site_id db.last_op_seq now ops)
          × (db'.last_op_seq ≡ db.last_op_seq + length ops)
    unfolding author_ops
    author_ops_lem now [] db db' pages h e =
        subst
          (λ (r : Db P × List TablePk).
            IsConsistent c r.0
            × (log_ops c r.0.ops ≡ log_ops c db.ops ++ stamp_all db.site_id db.last_op_seq now [])
            × (r.0.last_op_seq ≡ db.last_op_seq + 0))
          (ok-injective e) (h, unfold stamp_all in sym (append-nil _), omega arith)
    author_ops_lem now (op ∷ ops) db db' pages h e =
        let start : Authoring P = record { db = db; seq = db.last_op_seq; changed_pages = [] } in
        let (st, f, g) = bind-eq-ok (author_each c db.site_id now (op ∷ ops) start) _ e in
        let all = author_each-Follows db.site_id now (op ∷ ops) start st f in
        subst
          (λ (r : Db P × List TablePk).
            IsConsistent c r.0
            × (log_ops c r.0.ops
                ≡ log_ops c db.ops ++ stamp_all db.site_id db.last_op_seq now (op ∷ ops))
            × (r.0.last_op_seq ≡ db.last_op_seq + length (op ∷ ops)))
          (ok-injective g)
          (unfold Follows in (record { winners = (all.0 h).winners }, all.1, all.2))

  -- AuthorOps on at least one operation does not succeed as long as the changelog holds the
  -- server's site with its next number.
  pub author_ops_blocked :
      (now : ℤ) (op : Op N) (ops : List (Op N)) (db : Db P)
      → in_log db.site_id (pos (db.last_op_seq + 1)) db.ops ≡ true
      → (r : Db P × List TablePk) → author_ops c now (op ∷ ops) db ≢ ok r
  unfolding author_ops author_each
  author_ops_blocked now op ops db taken r e =
      let start : Authoring P = record { db = db; seq = db.last_op_seq; changed_pages = [] } in
      let (st, f, _) = bind-eq-ok (author_each c db.site_id now (op ∷ ops) start) _ e in
      let (s, g, _) = bind-eq-ok (author_op c db.site_id now op start) _ f in
      let free = (authored db.site_id now op start s g).fresh in cc
