-- ===== src/Sync/Store/Histories.antt =====
-- What several batches, one after another, leave in the mirror.
use boox_bridge.Prelude.{String, ◌≡◌, List, [], ◌∷◌}
use boox_bridge.Prelude.Int.{ℤ}
use boox_bridge.Prelude.Lists.{SameMembers}
use boox_bridge.Prelude.Result.{Result, ok, ◌>>=◌, bind-eq-ok, ok-injective}
use boox_bridge.Prelude.{subst}
use boox_bridge.Sync.Op.{Op}
use boox_bridge.Sync.Codec.{Codec, IsRoundTrip}
use boox_bridge.Sync.Reconcile.{TablePk, lookup}
use boox_bridge.Sync.Reconcile.Convergence.{HasUniqueIds}
use boox_bridge.Sync.Store.{Db}
use boox_bridge.Sync.Store.Apply.{apply_batch}
use boox_bridge.Sync.Store.Consistent.{log_ops, mirror_convergence}
use boox_bridge.Sync.Store.WellFormed.{IsWellFormed, apply_batch-IsWellFormed}

-- The arguments of a call of ApplyBatch.
pub record Batch (N : Type 0) : Type 0 where
  pub site : String
  pub now : ℤ
  pub ops : List (Op N)

module _ {N P : Type 0} (c : Codec N P) where
  unfoldable pub apply_all : List (Batch N) → Db P → Result (Db P)
  unfolding apply_batch
  apply_all [] db = ok db
  apply_all (b ∷ batches) db = do r ← apply_batch c b.site b.now b.ops db; apply_all batches r.0

  module _ (back : IsRoundTrip c) where
    apply_all-IsWellFormed :
        (batches : List (Batch N)) (db db' : Db P)
        → IsWellFormed c db
        → apply_all batches db ≡ ok db'
        → IsWellFormed c db'
    unfolding apply_all
    apply_all-IsWellFormed [] db db' h e = subst (IsWellFormed c) (ok-injective e) h
    apply_all-IsWellFormed (b ∷ batches) db db' h e =
        let (r, f, g) =
          bind-eq-ok (apply_batch c b.site b.now b.ops db) (λ r. apply_all batches r.0) e in
        apply_all-IsWellFormed batches r.0 db'
          (apply_batch-IsWellFormed c back b.site b.now b.ops db r.0 r.1 h f) g

    -- Where a payload reads back as its operation, two well-formed stores to which any batches are
    -- applied, of any sites, at any times and in any order, show the same row of the mirror under
    -- every key if the changelogs left have the same operations and in the first of them an
    -- operation is identified by its site and number.
    pub histories_converge :
        (hs ks : List (Batch N)) (a b a' b' : Db P) (k : TablePk)
        → IsWellFormed c a
        → IsWellFormed c b
        → apply_all hs a ≡ ok a'
        → apply_all ks b ≡ ok b'
        → SameMembers (log_ops c a'.ops) (log_ops c b'.ops)
        → HasUniqueIds (log_ops c a'.ops)
        → lookup k a'.mirror ≡ lookup k b'.mirror
    histories_converge hs ks a b a' b' k ha hb e f same unique =
        mirror_convergence c a' b' k (apply_all-IsWellFormed hs a a' ha e).consistent
          (apply_all-IsWellFormed ks b b' hb f).consistent same unique
