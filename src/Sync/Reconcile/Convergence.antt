-- ===== src/Sync/Reconcile/Convergence.antt =====
-- The convergence property of `Merge`: the rows depend on the set of operations alone.
use boox_bridge.Prelude.{subst, ◌≡◌, sym, ap, ◌∙◌, inl, inr, false, some, List, Memᴰ, Option-cases}
use boox_bridge.Prelude.Lists.{SameMembers}
use boox_bridge.Sync.Op.{Op, normalize}
use boox_bridge.Sync.Reconcile.{TablePk, less, lookup, merge}
use boox_bridge.Sync.Reconcile.KeyOrder.{SameKey, less-IsKeyOrder}
use boox_bridge.Sync.Reconcile.Winner.{IsWinner, merge-IsWinner, merge_mem}

-- (site_id, op_seq) identifies an operation, which the protocol's section 3 asks of the sites.
abbrev pub HasUniqueIds : {N : Type 0} → List (Op N) → Type 0
HasUniqueIds {N} ops =
    (a b : Op N) → Memᴰ a ops → Memᴰ b ops → a.site_id ≡ b.site_id → a.op_seq ≡ b.op_seq → a ≡ b

module _ {N : Type 0} where
  normalize_ids :
      (a b : Op N)
      → SameKey (normalize a) (normalize b)
      → (a.site_id ≡ b.site_id) × (a.op_seq ≡ b.op_seq)
  unfolding normalize
  normalize_ids a b s = (s.site, s.seq)

  -- A row has at most one winner.
  winner_unique :
      (k : TablePk) (xs ys : List (Op N)) (v w : Op N)
      → SameMembers xs ys
      → HasUniqueIds xs
      → IsWinner k xs v
      → IsWinner k ys w
      → v ≡ w
  winner_unique k xs ys v w same unique hv hw =
      let (a, ma, ka, ea) = hv.origin in
      let (b, mb, kb, eb) = hw.origin in
      let mb' : Memᴰ b xs = (same b).1 mb in
      let v≯w : less v w ≡ false = ap (λ x. less v x) (sym eb) ∙ hv.greatest b mb' kb in
      let w≯v : less w v ≡ false = ap (λ x. less w x) (sym ea) ∙ hw.greatest a ((same a).0 ma) ka in
      let s : SameKey v w = less-IsKeyOrder.total v w v≯w w≯v in
      let ids =
        normalize_ids a b
          (subst (λ x. SameKey x (normalize b)) (sym ea) (subst (SameKey v) (sym eb) s)) in
      sym ea ∙ ap normalize (unique a b ma mb' ids.0 ids.1) ∙ eb

  -- Two lists with the same operations, in any order and with any repetitions, merge to the same
  -- winner of every row, where an operation of them is identified by its site and number.
  pub merge_convergence :
      (xs ys : List (Op N)) (k : TablePk)
      → SameMembers xs ys
      → HasUniqueIds xs
      → lookup k (merge xs) ≡ lookup k (merge ys)
  merge_convergence xs ys k same unique = elim (Option-cases (lookup k (merge xs))) [
    | inl ex ↦ elim (Option-cases (lookup k (merge ys))) [
      | inl ey ↦ ex ∙ sym ey
      | inr (w, ey) ↦
          let (b, mb, kb, eb) = (merge-IsWinner k ys w ey).origin in
          absurd (merge_mem b xs ((same b).1 mb) (ap (λ j. lookup j (merge xs)) kb ∙ ex))
    ]
    | inr (v, ex) ↦ elim (Option-cases (lookup k (merge ys))) [
      | inl ey ↦
          let (a, ma, ka, ea) = (merge-IsWinner k xs v ex).origin in
          absurd (merge_mem a ys ((same a).0 ma) (ap (λ j. lookup j (merge ys)) ka ∙ ey))
      | inr (w, ey) ↦
          ex
          ∙ ap some (
              winner_unique k xs ys v w same unique (merge-IsWinner k xs v ex)
                (merge-IsWinner k ys w ey))
          ∙ sym ey
    ]
  ]
