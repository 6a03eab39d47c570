-- ===== src/Sync/Tests/Batches.antt =====
-- Batches and answers at concrete inputs.
use boox_bridge.Prelude.{String, ◌≡◌, refl, sym, true, List, [], ◌∷◌, Memᴰ, arith, subst}
use boox_bridge.Prelude.Int.{ℤ, pos}
use boox_bridge.Prelude.Result.{Result, ok}
use boox_bridge.Sync.Op.{Op, known_cols, lookup_col, normalize}
use boox_bridge.Sync.Op.Ulid.{is_ulid, all_in_alphabet, contains}
use boox_bridge.Sync.Columns.{col_int, col_null_int, col_string, col_null_string, value_at}
use boox_bridge.Sync.Mirror.{upsert, upsert_folder, write_row, merge_row, stored_op}
use boox_bridge.Sync.Reconcile.{lookup, insert, less, key_of, merge}
use boox_bridge.Prelude.Text.{str_lt}
use boox_bridge.Sync.Store.{
  Db, ApplyResult, validate_op, in_log, has_key, has_seq, append_op, appended,
}
use boox_bridge.Sync.Store.Apply.{
  reject, note_page, acked, set_acked, settled, walk, advance_accepted, record_op, apply_op,
  apply_ops, apply_batch,
}
use boox_bridge.Prelude.Lists.{SameMembers}
use boox_bridge.Sync.Mirror.Winners.{HoldsWinners, row_of_winner}
use boox_bridge.Sync.Reconcile.Convergence.{HasUniqueIds}
use boox_bridge.Sync.Store.Consistent.{log_ops}
use boox_bridge.Sync.Store.WellFormed.{
  IsWellFormed, AscendsTo, AscendsTo-Ascends, apply_batch-IsWellFormed,
}
use boox_bridge.Sync.Store.Accepted.{IsHighWater, advance_accepted_lem}
use boox_bridge.Sync.Store.Relay.{Page, ops_since}
use boox_bridge.Sync.Store.Paging.{IsPage, ops_since_lem}
use boox_bridge.Sync.Store.Resend.{IsTyped, apply_batch_total, resend_idempotent}
use boox_bridge.Sync.Store.Histories.{apply_all, histories_converge}
use boox_bridge.Sync.Tests.{
  sample_codec, sample_back, sample_marshals, site_a, site_b, swapped-SameMembers, two-HasUniqueIds,
  first, second, broken, empty_db, db_of, result_of, batch,
}

-- Everything that a batch computes with.
run : String → List (Op ℤ) → Result (Db (Op ℤ) × ApplyResult)
unfolding batch apply_ops apply_op record_op advance_accepted walk settled set_acked acked note_page
    reject append_op appended in_log has_key has_seq validate_op merge_row write_row stored_op
    upsert upsert_folder insert lookup less str_lt col_int col_null_int col_string col_null_string
    value_at lookup_col known_cols normalize is_ulid all_in_alphabet contains
run = batch

abbrev send : String → List (Op ℤ) → Db (Op ℤ) → Result (Db (Op ℤ) × ApplyResult)
send site ops db = apply_batch sample_codec site (pos 1000) ops db

abbrev db₁ : Db (Op ℤ)
db₁ = db_of (send site_a (first ∷ second ∷ []) empty_db)

abbrev db₂ : Db (Op ℤ)
db₂ = db_of (send site_b (second ∷ first ∷ []) empty_db)

abbrev result₁ : ApplyResult
result₁ = result_of (send site_a (first ∷ second ∷ []) empty_db)

sent₁ : send site_a (first ∷ second ∷ []) empty_db ≡ ok (db₁, result₁)
unfolding run
sent₁ = refl

sent₂ :
    send site_b (second ∷ first ∷ []) empty_db
    ≡ ok (db₂, result_of (send site_b (second ∷ first ∷ []) empty_db))
unfolding run
sent₂ = refl

-- The malformed operation is rejected, counts as settled and is not logged.
rejected_test : (result_of (send site_a (first ∷ broken ∷ []) empty_db)).accepted_through ≡ 2
unfolding run
rejected_test = refl

empty_db-HoldsWinners : HoldsWinners sample_codec [] []
empty_db-HoldsWinners = record {
  rows = λ k. unfold lookup merge row_of_winner in refl;
  written = λ k w h. unfold lookup merge in cc;
}

pub empty_db-IsWellFormed : IsWellFormed sample_codec empty_db
empty_db-IsWellFormed = record {
  ordered = omega arith;
  unique = tt;
  readable = tt;
  consistent = record { winners = unfold log_ops in empty_db-HoldsWinners };
}

db₁-IsWellFormed : IsWellFormed sample_codec db₁
db₁-IsWellFormed =
    apply_batch-IsWellFormed sample_codec sample_back site_a (pos 1000) (first ∷ second ∷ [])
      empty_db db₁ result₁ empty_db-IsWellFormed sent₁

db₂-IsWellFormed : IsWellFormed sample_codec db₂
db₂-IsWellFormed =
    apply_batch-IsWellFormed sample_codec sample_back site_b (pos 1000) (second ∷ first ∷ [])
      empty_db db₂ _ empty_db-IsWellFormed sent₂

apply_batch-IsWellFormed_example : IsWellFormed sample_codec db₂
apply_batch-IsWellFormed_example =
    apply_batch-IsWellFormed sample_codec sample_back site_b (pos 1000) (second ∷ first ∷ [])
      empty_db db₂ _ empty_db-IsWellFormed sent₂

log₁ : log_ops sample_codec db₁.ops ≡ first ∷ second ∷ []
unfolding run log_ops
log₁ = refl

log₂ : log_ops sample_codec db₂.ops ≡ second ∷ first ∷ []
unfolding run log_ops
log₂ = refl

history₁ :
    apply_all sample_codec
      (record { site = site_a; now = pos 1000; ops = first ∷ second ∷ [] } ∷ [])
      empty_db
    ≡ ok db₁
unfolding apply_all run
history₁ = refl

history₂ :
    apply_all sample_codec
      (record { site = site_b; now = pos 1000; ops = second ∷ first ∷ [] } ∷ [])
      empty_db
    ≡ ok db₂
unfolding apply_all run
history₂ = refl

histories_converge_example : lookup (key_of first) db₁.mirror ≡ lookup (key_of first) db₂.mirror
histories_converge_example =
    histories_converge sample_codec sample_back
      (record { site = site_a; now = pos 1000; ops = first ∷ second ∷ [] } ∷ [])
      (record { site = site_b; now = pos 1000; ops = second ∷ first ∷ [] } ∷ []) empty_db empty_db
      db₁ db₂ (key_of first) empty_db-IsWellFormed empty_db-IsWellFormed history₁ history₂
      (subst (λ l. SameMembers l (log_ops sample_codec db₂.ops)) (sym log₁)
        (subst (SameMembers (first ∷ second ∷ [])) (sym log₂) swapped-SameMembers))
      (subst HasUniqueIds (sym log₁) two-HasUniqueIds)

first-IsTyped : IsTyped sample_codec first
unfolding merge_row write_row upsert upsert_folder col_int col_null_int col_string col_null_string
    value_at lookup_col known_cols normalize
first-IsTyped v m e h = ground arith

second-IsTyped : IsTyped sample_codec second
unfolding merge_row write_row upsert upsert_folder col_int col_null_int col_string col_null_string
    value_at lookup_col known_cols normalize
second-IsTyped v m e h = ground arith

both-IsTyped : (op : Op ℤ) → Memᴰ op (first ∷ second ∷ []) → IsTyped sample_codec op
both-IsTyped op (Memᴰ.head p) = rw p first-IsTyped
both-IsTyped op (Memᴰ.tail (Memᴰ.head p)) = rw p second-IsTyped
both-IsTyped op (Memᴰ.tail (Memᴰ.tail m)) = elim m [ ]

sent_again :
    send site_a (first ∷ second ∷ []) db₁
    ≡ ok (
      db_of (send site_a (first ∷ second ∷ []) db₁),
      result_of (send site_a (first ∷ second ∷ []) db₁),
    )
unfolding run
sent_again = refl

resend_idempotent_example :
    let again = db_of (send site_a (first ∷ second ∷ []) db₁) in
    (again.ops ≡ db₁.ops)
    × (again.mirror ≡ db₁.mirror)
    × (again.last_seq ≡ db₁.last_seq)
    × ((result_of (send site_a (first ∷ second ∷ []) db₁)).changed_pages ≡ [])
resend_idempotent_example =
    resend_idempotent sample_codec site_a (pos 1000) (pos 1000) (first ∷ second ∷ []) empty_db db₁
      (db_of (send site_a (first ∷ second ∷ []) db₁)) result₁
      (result_of (send site_a (first ∷ second ∷ []) db₁)) both-IsTyped sent₁ sent_again

apply_batch_total_example :
    (r : Db (Op ℤ) × ApplyResult) × (send site_a (broken ∷ first ∷ []) empty_db ≡ ok r)
    × AscendsTo 0 r.0.last_seq r.0.ops
apply_batch_total_example =
    apply_batch_total sample_codec sample_marshals site_a (pos 1000) (broken ∷ first ∷ []) empty_db
      (omega arith)

-- After `second`, the malformed operation no longer wins, and is recorded.
recorded_test :
    in_log broken.site_id broken.op_seq (db_of (send site_a (broken ∷ []) db₁)).ops ≡ true
unfolding run
recorded_test = refl

advance_accepted_lem_example :
    IsHighWater site_a
      (pos 3 ∷ [])
      db₁
      (advance_accepted site_a (pos 3 ∷ []) (pos 1000) db₁).0
      (advance_accepted site_a (pos 3 ∷ []) (pos 1000) db₁).1
advance_accepted_lem_example = advance_accepted_lem site_a (pos 3 ∷ []) (pos 1000) db₁

ops_since_lem_example :
    (p : Page ℤ) × (ops_since sample_codec (pos 0) site_b (pos 1) db₁ ≡ ok p)
    × IsPage sample_codec (pos 0) site_b (pos 1) db₁ p
ops_since_lem_example =
    ops_since_lem sample_codec (pos 0) site_b (pos 1) db₁
      (AscendsTo-Ascends 0 db₁.last_seq db₁.ops db₁-IsWellFormed.ordered) db₁-IsWellFormed.readable
