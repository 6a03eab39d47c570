-- ===== src/Sync/Reconcile/Winner.antt =====
-- What `Merge` returns for one row: the greatest operation of that row under `Less`.
use mathlib.Core.Option.{some-injective}
use boox_bridge.Prelude.{
  subst, ◌≡◌, refl, sym, ap, ◌∙◌, ◌≢◌, ◌⊎◌, inl, inr, true, false, Option, none, some, List, [],
  ◌∷◌, ◌++◌, Memᴰ, if◌then◌else◌, Bool-cases, arith,
}
use boox_bridge.Prelude.Order.{IsKeyOrder}
use boox_bridge.Sync.Op.{Op, normalize}
use boox_bridge.Sync.Reconcile.{
  TablePk, eq_table_pk, eq_table_pk_iff, key_of, less, RowMap, lookup, lookup-insert, wins,
  merge_step, merge_from, merge,
}
use boox_bridge.Sync.Reconcile.KeyOrder.{SameKey, less-IsKeyOrder}

-- The winner `w` of row `k`: an operation of the list, its unknown columns dropped, that no other
-- operation of the row is above.
pub record IsWinner {N : Type 0} (k : TablePk) (ops : List (Op N)) (w : Op N) : Type 0 where
  pub origin : (o : Op N) × Memᴰ o ops × (key_of o ≡ k) × (normalize o ≡ w)
  pub greatest : (o : Op N) → Memᴰ o ops → key_of o ≡ k → less w (normalize o) ≡ false

module _ {N : Type 0} where
  -- The part of the fold that concerns row `k`.
  unfoldable pub pick : TablePk → Option (Op N) → Op N → Option (Op N)
  pick k acc op =
      if eq_table_pk (key_of op) k
      then (if wins acc (normalize op) then some (normalize op) else acc)
      else acc

  unfoldable pub best : TablePk → Option (Op N) → List (Op N) → Option (Op N)
  best k acc [] = acc
  best k acc (op ∷ ops) = best k (pick k acc op) ops

  pub lookup-merge_step :
      (k : TablePk) (m : RowMap (Op N)) (op : Op N)
      → lookup k (merge_step m op) ≡ pick k (lookup k m) op
  unfolding merge_step pick wins normalize
  lookup-merge_step k m op =
      ground (arith, lookup-insert (key_of op) k (normalize op) m, eq_table_pk_iff (key_of op) k)

  pub lookup-merge_from :
      (k : TablePk) (m : RowMap (Op N)) (ops : List (Op N))
      → lookup k (merge_from m ops) ≡ best k (lookup k m) ops
  unfolding merge_from best
  lookup-merge_from k m [] = refl
  lookup-merge_from k m (op ∷ ops) =
      lookup-merge_from k (merge_step m op) ops
      ∙ ap (λ acc. best k acc ops) (lookup-merge_step k m op)

  pub lookup-merge : (k : TablePk) (ops : List (Op N)) → lookup k (merge ops) ≡ best k none ops
  unfolding merge lookup
  lookup-merge k ops = lookup-merge_from k [] ops

  pub best-append :
      (k : TablePk) (acc : Option (Op N)) (xs ys : List (Op N))
      → best k acc (xs ++ ys) ≡ best k (best k acc xs) ys
  unfolding best
  best-append k acc [] ys = refl
  best-append k acc (x ∷ xs) ys = best-append k (pick k acc x) xs ys

  order : IsKeyOrder {A = Op N} less SameKey
  order = less-IsKeyOrder

  same_of_eq : {a b : Op N} → a ≡ b → SameKey a b
  same_of_eq e = record {
    wall = ap (λ o. o.wall_ts) e;
    seq = ap (λ o. o.op_seq) e;
    site = ap (λ o. o.site_id) e;
  }

  -- A step keeps the winner so far or replaces it by a greater one.
  data Picked (k : TablePk) (acc : Option (Op N)) (op : Op N) (next : Option (Op N)) : Type 0 where
    other : key_of op ≢ k → next ≡ acc → Picked k acc op next
    kept :
        (v : Op N)
        → acc ≡ some v
        → less v (normalize op) ≡ false
        → next ≡ acc
        → Picked k acc op next
    first : acc ≡ none → key_of op ≡ k → next ≡ some (normalize op) → Picked k acc op next
    beaten :
        (v : Op N)
        → acc ≡ some v
        → key_of op ≡ k
        → less v (normalize op) ≡ true
        → next ≡ some (normalize op)
        → Picked k acc op next

  picked : (k : TablePk) (acc : Option (Op N)) (op : Op N) → Picked k acc op (pick k acc op)
  unfolding pick wins
  picked k none op = elim (Bool-cases (eq_table_pk (key_of op) k)) [
    | inl e ↦ Picked.first refl ((eq_table_pk_iff _ _).0 e) (rw e)
    | inr e ↦ Picked.other (λ p. cc (e, (eq_table_pk_iff (key_of op) k).1 p)) (rw e)
  ]
  picked k (some v) op = elim (Bool-cases (eq_table_pk (key_of op) k)) [
    | inl e ↦ elim (Bool-cases (less v (normalize op))) [
      | inl l ↦ Picked.beaten v refl ((eq_table_pk_iff _ _).0 e) l (rw (e, l))
      | inr l ↦ Picked.kept v refl l (rw (e, l))
    ]
    | inr e ↦ Picked.other (λ p. cc (e, (eq_table_pk_iff (key_of op) k).1 p)) (rw e)
  ]

  -- Nothing that lost is above what came later.
  not-less_trans : (w x v : Op N) → less w x ≡ false → less v x ≡ true → less w v ≡ false
  not-less_trans w x v h l = elim (Bool-cases (less w v)) [
    | inr e ↦ e
    | inl e ↦ cc (order.trans w v x e l)
  ]

  not-less_trans_not : (w u x : Op N) → less w u ≡ false → less u x ≡ false → less w x ≡ false
  not-less_trans_not w u x h l = elim (Bool-cases (less w x)) [
    | inr e ↦ e
    | inl e ↦ elim (Bool-cases (less x u)) [
      | inl g ↦ cc (order.trans w x u e g)
      | inr g ↦ cc (order.respects w u x (order.total u x l g))
    ]
  ]

  best-ge_acc :
      (k : TablePk) (v w : Op N) (acc : Option (Op N)) (ops : List (Op N))
      → acc ≡ some v
      → best k acc ops ≡ some w
      → less w v ≡ false
  unfolding best
  best-ge_acc k v w acc [] e h = order.irrefl w v (same_of_eq (some-injective w v (sym h ∙ e)))
  best-ge_acc k v w acc (op ∷ ops) e h = elim (picked k acc op) [
    | Picked.other n p ↦ best-ge_acc k v w _ ops (p ∙ e) h
    | Picked.kept u a n p ↦ best-ge_acc k v w _ ops (p ∙ e) h
    | Picked.first a q p ↦ cc (a, e)
    | Picked.beaten u a q l p ↦
        not-less_trans w (normalize op) v (best-ge_acc k (normalize op) w _ ops p h)
          (subst (λ x. less x (normalize op) ≡ true) (some-injective u v (sym a ∙ e)) l)
  ]

  best-ge_mem :
      (k : TablePk) (o w : Op N) (acc : Option (Op N)) (ops : List (Op N))
      → Memᴰ o ops
      → key_of o ≡ k
      → best k acc ops ≡ some w
      → less w (normalize o) ≡ false
  unfolding best
  best-ge_mem k o w acc [] m q h = elim m [ ]
  best-ge_mem k o w acc (op ∷ ops) (Memᴰ.tail m) q h = best-ge_mem k o w (pick k acc op) ops m q h
  best-ge_mem k o w acc (op ∷ ops) (Memᴰ.head e) q h = elim (picked k acc op) [
    | Picked.other n p ↦ absurd (n (ap key_of (sym e) ∙ q))
    | Picked.kept u a n p ↦
        rw e (not-less_trans_not w u (normalize op) (best-ge_acc k u w _ ops (p ∙ a) h) n)
    | Picked.first a _ p ↦ rw e (best-ge_acc k (normalize op) w _ ops p h)
    | Picked.beaten u a _ l p ↦ rw e (best-ge_acc k (normalize op) w _ ops p h)
  ]

  Origin : TablePk → List (Op N) → Op N → Type 0
  Origin k ops w = (o : Op N) × Memᴰ o ops × (key_of o ≡ k) × (normalize o ≡ w)

  Origin-cons :
      (k : TablePk) (op w : Op N) (ops : List (Op N)) → Origin k ops w → Origin k (op ∷ ops) w
  unfolding Origin
  Origin-cons k op w ops (o, m, q, e) = (o, Memᴰ.tail m, q, e)

  best-Origin :
      (k : TablePk) (w : Op N) (acc : Option (Op N)) (ops : List (Op N))
      → best k acc ops ≡ some w
      → (acc ≡ some w) ⊎ Origin k ops w
  unfolding best
  best-Origin k w acc [] h = inl h
  best-Origin k w acc (op ∷ ops) h = elim (best-Origin k w (pick k acc op) ops h) [
    | inr o ↦ inr (Origin-cons k op w ops o)
    | inl e ↦ elim (picked k acc op) [
      | Picked.other n p ↦ inl (sym p ∙ e)
      | Picked.kept u a n p ↦ inl (sym p ∙ e)
      | Picked.first a q p ↦
          inr (unfold Origin in (op, Memᴰ.head refl, q, some-injective _ _ (sym p ∙ e)))
      | Picked.beaten u a q l p ↦
          inr (unfold Origin in (op, Memᴰ.head refl, q, some-injective _ _ (sym p ∙ e)))
    ]
  ]

  -- An operation that Merge returns for a row is a normalized operation of the list for that row,
  -- and no operation of the list for that row is greater.
  pub merge-IsWinner :
      (k : TablePk) (ops : List (Op N)) (w : Op N)
      → lookup k (merge ops) ≡ some w
      → IsWinner k ops w
  unfolding Origin
  merge-IsWinner k ops w h =
      let b = sym (lookup-merge k ops) ∙ h in
      record {
        origin = elim (best-Origin k w none ops b) [ inl e ↦ cc | inr o ↦ o ];
        greatest = λ o m q. best-ge_mem k o w none ops m q b;
      }

  best-some :
      (k : TablePk) (v : Op N) (acc : Option (Op N)) (ops : List (Op N))
      → acc ≡ some v
      → best k acc ops ≢ none
  unfolding best
  best-some k v acc [] e h = cc
  best-some k v acc (op ∷ ops) e h = elim (picked k acc op) [
    | Picked.other n p ↦ best-some k v (pick k acc op) ops (p ∙ e) h
    | Picked.kept u a n p ↦ best-some k v (pick k acc op) ops (p ∙ e) h
    | Picked.first a q p ↦ cc
    | Picked.beaten u a q l p ↦ best-some k (normalize op) (pick k acc op) ops p h
  ]

  best_mem :
      (k : TablePk) (o : Op N) (acc : Option (Op N)) (ops : List (Op N))
      → Memᴰ o ops
      → key_of o ≡ k
      → best k acc ops ≢ none
  unfolding best
  best_mem k o acc [] m q h = elim m [ ]
  best_mem k o acc (op ∷ ops) (Memᴰ.tail m) q h = best_mem k o (pick k acc op) ops m q h
  best_mem k o acc (op ∷ ops) (Memᴰ.head e) q h = elim (picked k acc op) [
    | Picked.other n p ↦ n (ap key_of (sym e) ∙ q)
    | Picked.kept u a n p ↦ best-some k u (pick k acc op) ops (p ∙ a) h
    | Picked.first a _ p ↦ best-some k (normalize op) (pick k acc op) ops p h
    | Picked.beaten u a _ l p ↦ best-some k (normalize op) (pick k acc op) ops p h
  ]

  -- A row that some operation names has a winner.
  pub merge_mem : (o : Op N) (ops : List (Op N)) → Memᴰ o ops → lookup (key_of o) (merge ops) ≢ none
  merge_mem o ops m h =
      best_mem (key_of o) o none ops m refl (sym (lookup-merge (key_of o) ops) ∙ h)
