-- ===== src/Sync/Reconcile.antt =====
-- internal/syncstore/reconcile.go: the key of a mirror row, the last-writer-wins order of
-- operations, and `Merge`, the pure fold that picks the winner of each row. Go's map of winners is
-- an association list.
use text.Mathlib.Text.{◌==◌}
use boox_bridge.Prelude.{
  String, ◌≡◌, refl, ap, ◌↔◌, Bool, true, false, ◌&&◌, Option, none, some, List, [], ◌∷◌,
  if◌then◌else◌, arith,
}
use boox_bridge.Prelude.Int.{ltb_int, eqb_int}
use boox_bridge.Prelude.Text.{str_lt, eq_iff}
use boox_bridge.Sync.Op.{Op, normalize}
pub mod KeyOrder
pub mod Winner
pub mod Convergence

pub record TablePk : Type 0 where
  pub table : String
  pub pk : String

-- Go's == on the struct.
abbrev pub eq_table_pk : TablePk → TablePk → Bool
eq_table_pk a b = a.table == b.table && a.pk == b.pk

pub eq_table_pk_iff : (a b : TablePk) → (eq_table_pk a b ≡ true) ↔ (a ≡ b)
eq_table_pk_iff a b = ground (arith, eq_iff a.table b.table, eq_iff a.pk b.pk)

abbrev pub key_of : {N : Type 0} → Op N → TablePk
key_of op = record { table = op.table; pk = op.pk }

unfoldable pub less : {N : Type 0} → Op N → Op N → Bool
less a b =
    if eqb_int a.wall_ts b.wall_ts
    then (if eqb_int a.op_seq b.op_seq
        then str_lt a.site_id b.site_id
        else ltb_int a.op_seq b.op_seq)
    else ltb_int a.wall_ts b.wall_ts

abbrev pub RowMap : Type 0 → Type 0
RowMap V = List (TablePk × V)

-- m[k], and m[k] = v. The first entry of a key counts, as `insert` replaces it in place.
unfoldable pub lookup : {V : Type 0} → TablePk → RowMap V → Option V
lookup k [] = none
lookup k ((j, v) ∷ m) = if eq_table_pk j k then some v else lookup k m

unfoldable pub insert : {V : Type 0} → TablePk → V → RowMap V → RowMap V
insert k v [] = (k, v) ∷ []
insert k v ((j, w) ∷ m) = if eq_table_pk j k then (k, v) ∷ m else (j, w) ∷ insert k v m

pub lookup-insert :
    {V : Type 0} (k j : TablePk) (v : V) (m : RowMap V)
    → lookup j (insert k v m) ≡ (if eq_table_pk k j then some v else lookup j m)
unfolding lookup insert
lookup-insert k j v [] = refl
lookup-insert k j v ((i, w) ∷ m) =
    ground
      (arith, eq_table_pk_iff k j, eq_table_pk_iff i k, eq_table_pk_iff i j, lookup-insert k j v m)

-- !ok || Less(cur, n)
unfoldable pub wins : {N : Type 0} → Option (Op N) → Op N → Bool
wins none n = true
wins (some cur) n = less cur n

unfoldable pub merge_step : {N : Type 0} → RowMap (Op N) → Op N → RowMap (Op N)
unfolding wins
merge_step winners op =
    let n = normalize op in
    if wins (lookup (key_of n) winners) n then insert (key_of n) n winners else winners

unfoldable pub merge_from : {N : Type 0} → RowMap (Op N) → List (Op N) → RowMap (Op N)
merge_from winners [] = winners
merge_from winners (op ∷ ops) = merge_from (merge_step winners op) ops

unfoldable pub merge : {N : Type 0} → List (Op N) → RowMap (Op N)
unfolding merge_from merge_step
merge ops = merge_from [] ops
