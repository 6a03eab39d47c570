-- ===== src/Sync/Tests/Merge.antt =====
-- The merge at concrete operations.
use boox_bridge.Prelude.{◌≡◌, refl, some, [], ◌∷◌}
use boox_bridge.Prelude.Text.{str_lt}
use boox_bridge.Sync.Op.{normalize, known_cols, lookup_col}
use boox_bridge.Sync.Reconcile.{key_of, less, lookup, insert, merge}
use boox_bridge.Sync.Reconcile.Convergence.{merge_convergence}
use boox_bridge.Sync.Tests.{first, second, swapped-SameMembers, two-HasUniqueIds}

newer_wins : lookup (key_of first) (merge (second ∷ first ∷ [])) ≡ some (normalize second)
unfolding merge lookup insert less normalize known_cols lookup_col str_lt
newer_wins = refl

merge_convergence_example :
    lookup (key_of first) (merge (first ∷ second ∷ []))
    ≡ lookup (key_of first) (merge (second ∷ first ∷ []))
merge_convergence_example =
    merge_convergence (first ∷ second ∷ []) (second ∷ first ∷ []) (key_of first) swapped-SameMembers
      two-HasUniqueIds
