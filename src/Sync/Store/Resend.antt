-- ===== src/Sync/Store/Resend.antt =====
-- `ApplyBatch` always returns, and a resent batch is idempotent.
use boox_bridge.Prelude.{
  ◌+◌, String, ◌≡◌, ◌≢◌, refl, sym, ap, ◌∙◌, Bool, true, false, ◌||◌, none, List, [], ◌∷◌, Memᴰ,
  arith, subst,
}
use boox_bridge.Prelude.Text.{eq_iff}
use boox_bridge.Prelude.Int.{ℤ, eqb_int_iff}
use boox_bridge.Prelude.Result.{ok, err, bind-eq-ok, bind-ok, ok-injective}
use boox_bridge.Sync.Op.{Op, normalize}
use boox_bridge.Sync.Codec.{Codec}
use boox_bridge.Sync.Mirror.{Mirror, merge_row}
use boox_bridge.Sync.Store.{LogRow, Db, ApplyResult, validate_op, in_log, appended}
use boox_bridge.Sync.Store.Apply.{
  Progress, reject, advance_accepted, apply_op, apply_ops, apply_batch,
}
use boox_bridge.Sync.Store.Rounds.{Round, round}
use boox_bridge.Sync.Store.WellFormed.{AscendsTo, AscendsTo-snoc, key_free, in_log-append}

or-true : (b : Bool) → (b || true) ≡ true
or-true true = refl
or-true false = refl

module _ {N P : Type 0} (c : Codec N P) where
  module _ (marshals : (op : Op N) → c.marshal op ≢ none) where
    -- A state whose changelog ascends to its counter, after a round or a batch.
    abbrev Ordered : Progress P → Type 0
    Ordered st = AscendsTo 0 st.db.last_seq st.db.ops

    apply_op_total :
        (site : String) (now : ℤ) (op : Op N) (st : Progress P)
        → Ordered st
        → (st' : Progress P) × (apply_op c site now op st ≡ ok st') × Ordered st'
    unfolding reject appended
    apply_op_total site now op st h = elim (round c site now op st) [
      | Round.invalid reason v r ↦ (_, r, h)
      | Round.duplicate v d r ↦ (_, r, h)
      | Round.malformed reason v d m r ↦ (_, r, h)
      | Round.unmarshallable j r ↦ absurd (marshals op j)
      | Round.taken k r ↦ cc (key_free 0 st.db.last_seq st.db.ops h)
      | Round.recorded g payload v d m j r ↦
          (_, r, AscendsTo-snoc 0 st.db.last_seq st.db.ops _ h refl)
    ]

    apply_ops_total :
        (site : String) (now : ℤ) (ops : List (Op N)) (st : Progress P)
        → Ordered st
        → (st' : Progress P) × (apply_ops c site now ops st ≡ ok st') × Ordered st'
    unfolding apply_ops
    apply_ops_total site now [] st h = (st, refl, h)
    apply_ops_total site now (op ∷ ops) st h =
        let (s, f, k) = apply_op_total site now op st h in
        let (s', g, l) = apply_ops_total site now ops s k in (s', rw f g, l)

    -- Where every operation can be marshalled and the numbers of the changelog ascend up to
    -- last_seq, a batch of any operations, malformed ones too, is applied, and the numbers then
    -- ascend up to the new last_seq.
    pub apply_batch_total :
        (site : String) (now : ℤ) (ops : List (Op N)) (db : Db P)
        → AscendsTo 0 db.last_seq db.ops
        → (r : Db P × ApplyResult) × (apply_batch c site now ops db ≡ ok r)
          × AscendsTo 0 r.0.last_seq r.0.ops
    unfolding apply_batch advance_accepted
    apply_batch_total site now ops db h =
        let start : Progress P = record {
          db = db;
          rejected = [];
          rejected_seqs = [];
          changed_pages = [];
        } in
        let (st, f, k) = apply_ops_total site now ops start h in (_, bind-ok _ f, k)

  in_log_self : (r : LogRow P) → in_log r.site_id r.op_seq (r ∷ []) ≡ true
  unfolding in_log
  in_log_self r = ground (arith, eq_iff r.site_id r.site_id, eqb_int_iff r.op_seq r.op_seq)

  in_log-appended :
      (op : Op N) (payload : P) (now : ℤ) (db : Db P)
      → in_log op.site_id op.op_seq (appended op payload now db).ops ≡ true
  unfolding appended
  in_log-appended op payload now db =
      in_log-append op.site_id op.op_seq db.ops (row ∷ [])
      ∙ rw (in_log_self row) (or-true (in_log op.site_id op.op_seq db.ops))
    where
      row : LogRow P
      row = record {
        seq = db.last_seq + 1;
        site_id = op.site_id;
        op_seq = op.op_seq;
        table_name = op.table;
        pk = op.pk;
        wall_ts = op.wall_ts;
        payload = payload;
        applied_at = now;
      }

  -- A valid operation is in the changelog.
  abbrev pub IsSettled : List (LogRow P) → Op N → Type 0
  IsSettled rows op = validate_op op ≡ none → in_log op.site_id op.op_seq rows ≡ true

  -- The columns of a valid operation have the types of its table, whatever the mirror holds.
  abbrev pub IsTyped : Op N → Type 0
  IsTyped op =
      validate_op op ≡ none → (m : Mirror) (e : String) → merge_row c (normalize op) m ≢ err e

  module _ (site : String) (now : ℤ) where
    apply_op_settled :
        (op : Op N) (st st' : Progress P)
        → IsSettled st.db.ops op
        → apply_op c site now op st ≡ ok st'
        → (st'.db ≡ st.db) × (st'.changed_pages ≡ st.changed_pages)
    unfolding reject
    apply_op_settled op st st' s e = elim (round c site now op st) [
      | Round.invalid reason v r ↦
          subst (λ (s : Progress P). (s.db ≡ st.db) × (s.changed_pages ≡ st.changed_pages))
            (ok-injective (sym r ∙ e)) (refl, refl)
      | Round.duplicate v d r ↦
          subst (λ (s : Progress P). (s.db ≡ st.db) × (s.changed_pages ≡ st.changed_pages))
            (ok-injective (sym r ∙ e)) (refl, refl)
      | Round.malformed reason v d m r ↦ cc (s v)
      | Round.unmarshallable j r ↦ cc
      | Round.taken k r ↦ cc
      | Round.recorded g payload v d m j r ↦ cc (s v)
    ]

    apply_ops_settled :
        (ops : List (Op N)) (st st' : Progress P)
        → ((op : Op N) → Memᴰ op ops → IsSettled st.db.ops op)
        → apply_ops c site now ops st ≡ ok st'
        → (st'.db ≡ st.db) × (st'.changed_pages ≡ st.changed_pages)
    unfolding apply_ops
    apply_ops_settled [] st st' h e =
        subst (λ (s : Progress P). (s.db ≡ st.db) × (s.changed_pages ≡ st.changed_pages))
          (ok-injective e) (refl, refl)
    apply_ops_settled (op ∷ ops) st st' h e =
        let (s, f, g) =
          bind-eq-ok (apply_op c site now op st) (λ s. apply_ops c site now ops s) e in
        let one = apply_op_settled op st s (h op (Memᴰ.head refl)) f in
        let rest = apply_ops_settled ops s st' (λ o m. rw one.0 (h o (Memᴰ.tail m))) g in
        (rest.0 ∙ one.0, rest.1 ∙ one.1)

    -- Settled operations stay settled.
    apply_op_grows :
        (op : Op N) (st st' : Progress P) (s : String) (n : ℤ)
        → apply_op c site now op st ≡ ok st'
        → in_log s n st.db.ops ≡ true
        → in_log s n st'.db.ops ≡ true
    unfolding reject appended
    apply_op_grows op st st' s n e h = elim (round c site now op st) [
      | Round.invalid reason v r ↦
          subst (λ (x : Progress P). in_log s n x.db.ops ≡ true) (ok-injective (sym r ∙ e)) h
      | Round.duplicate v d r ↦
          subst (λ (x : Progress P). in_log s n x.db.ops ≡ true) (ok-injective (sym r ∙ e)) h
      | Round.malformed reason v d m r ↦
          subst (λ (x : Progress P). in_log s n x.db.ops ≡ true) (ok-injective (sym r ∙ e)) h
      | Round.unmarshallable j r ↦ cc
      | Round.taken k r ↦ cc
      | Round.recorded g payload v d m j r ↦
          subst (λ (x : Progress P). in_log s n x.db.ops ≡ true) (ok-injective (sym r ∙ e))
            (in_log-append s n st.db.ops _ ∙ rw h)
    ]

    apply_ops_grows :
        (ops : List (Op N)) (st st' : Progress P) (s : String) (n : ℤ)
        → apply_ops c site now ops st ≡ ok st'
        → in_log s n st.db.ops ≡ true
        → in_log s n st'.db.ops ≡ true
    unfolding apply_ops
    apply_ops_grows [] st st' s n e h =
        subst (λ (x : Progress P). in_log s n x.db.ops ≡ true) (ok-injective e) h
    apply_ops_grows (op ∷ ops) st st' s n e h =
        let (x, f, g) =
          bind-eq-ok (apply_op c site now op st) (λ s. apply_ops c site now ops s) e in
        apply_ops_grows ops x st' s n g (apply_op_grows op st x s n f h)

    apply_op_settles :
        (op : Op N) (st st' : Progress P)
        → IsTyped op
        → apply_op c site now op st ≡ ok st'
        → IsSettled st'.db.ops op
    unfolding appended
    apply_op_settles op st st' t e v = elim (round c site now op st) [
      | Round.invalid reason w r ↦ cc
      | Round.duplicate w d r ↦
          subst (λ (x : Progress P). in_log op.site_id op.op_seq x.db.ops ≡ true)
            (ok-injective (sym r ∙ e)) d
      | Round.malformed reason w d m r ↦ absurd (t w _ _ m)
      | Round.unmarshallable j r ↦ cc
      | Round.taken k r ↦ cc
      | Round.recorded g payload w d m j r ↦
          subst (λ (x : Progress P). in_log op.site_id op.op_seq x.db.ops ≡ true)
            (ok-injective (sym r ∙ e))
            (in_log-appended op payload now (record st.db { mirror = g.mirror }))
    ]

    apply_ops_settle :
        (ops : List (Op N)) (st st' : Progress P)
        → ((op : Op N) → Memᴰ op ops → IsTyped op)
        → apply_ops c site now ops st ≡ ok st'
        → (op : Op N) → Memᴰ op ops
        → IsSettled st'.db.ops op
    unfolding apply_ops
    apply_ops_settle [] st st' t e op m v = elim m [ ]
    apply_ops_settle (o ∷ ops) st st' t e op (Memᴰ.head p) v =
        let (x, f, g) = bind-eq-ok (apply_op c site now o st) (λ s. apply_ops c site now ops s) e in
        apply_ops_grows ops x st' op.site_id op.op_seq g
          (subst (IsSettled x.db.ops) (sym p) (apply_op_settles o st x (t o (Memᴰ.head refl)) f) v)
    apply_ops_settle (o ∷ ops) st st' t e op (Memᴰ.tail m) v =
        let (x, f, g) = bind-eq-ok (apply_op c site now o st) (λ s. apply_ops c site now ops s) e in
        apply_ops_settle ops x st' (λ p n. t p (Memᴰ.tail n)) g op m v

  batch_parts :
      (site : String) (now : ℤ) (ops : List (Op N)) (db db' : Db P) (res : ApplyResult)
      → apply_batch c site now ops db ≡ ok (db', res)
      → (st : Progress P) × (apply_ops c site now ops
            (record { db = db; rejected = []; rejected_seqs = []; changed_pages = [] })
          ≡ ok st)
        × (db'.ops ≡ st.db.ops)
        × (db'.mirror ≡ st.db.mirror)
        × (db'.last_seq ≡ st.db.last_seq)
        × (res.changed_pages ≡ st.changed_pages)
  unfolding apply_batch advance_accepted
  batch_parts site now ops db db' res e =
      let start : Progress P = record {
        db = db;
        rejected = [];
        rejected_seqs = [];
        changed_pages = [];
      } in
      let (st, f, g) = bind-eq-ok (apply_ops c site now ops start) _ e in
      let same = ok-injective g in
      (
        st,
        f,
        ap (λ (r : Db P × ApplyResult). r.0.ops) (sym same),
        ap (λ (r : Db P × ApplyResult). r.0.mirror) (sym same),
        ap (λ (r : Db P × ApplyResult). r.0.last_seq) (sym same),
        ap (λ (r : Db P × ApplyResult). r.1.changed_pages) (sym same),
      )

  -- A batch that has been applied and is applied again, at any time, leaves the changelog, the
  -- mirror and last_seq as they were and touches no page, if its valid operations have the types of
  -- their columns.
  pub resend_idempotent :
      (site : String) (now later : ℤ) (ops : List (Op N)) (db db₁ db₂ : Db P) (r₁ r₂ : ApplyResult)
      → ((op : Op N) → Memᴰ op ops → IsTyped op)
      → apply_batch c site now ops db ≡ ok (db₁, r₁)
      → apply_batch c site later ops db₁ ≡ ok (db₂, r₂)
      → (db₂.ops ≡ db₁.ops)
        × (db₂.mirror ≡ db₁.mirror)
        × (db₂.last_seq ≡ db₁.last_seq)
        × (r₂.changed_pages ≡ [])
  resend_idempotent site now later ops db db₁ db₂ r₁ r₂ t e f =
      let (st₁, a, ops₁, m₁, s₁, p₁) = batch_parts site now ops db db₁ r₁ e in
      let (st₂, b, ops₂, m₂, s₂, p₂) = batch_parts site later ops db₁ db₂ r₂ f in
      let same =
        apply_ops_settled site later ops _ st₂
          (λ o n.
            subst (λ rows. IsSettled rows o) (sym ops₁)
              (apply_ops_settle site now ops _ st₁ t a o n))
          b in
      (
        ops₂ ∙ ap (λ (d : Db P). d.ops) same.0,
        m₂ ∙ ap (λ (d : Db P). d.mirror) same.0,
        s₂ ∙ ap (λ (d : Db P). d.last_seq) same.0,
        p₂ ∙ same.1,
      )
