-- ===== src/Sync/Tests/Sessions.antt =====
-- Calls of /sync/v1 and operations of the server at concrete inputs.
use boox_bridge.Prelude.{◌+◌, ◌≡◌, ◌≢◌, refl, true, List, [], ◌∷◌, ◌++◌}
use boox_bridge.Prelude.Int.{ℤ, pos}
use boox_bridge.Prelude.Lists.{length}
use boox_bridge.Prelude.Result.{Result, ok, err}
use boox_bridge.Sync.Op.{Op, known_cols, lookup_col, normalize, accepts_schema_hash}
use boox_bridge.Sync.Op.Ulid.{is_ulid, all_in_alphabet, contains}
use boox_bridge.Sync.Columns.{col_int, col_null_int, col_string, col_null_string, value_at}
use boox_bridge.Sync.Mirror.{upsert, upsert_folder, write_row, merge_row, stored_op}
use boox_bridge.Sync.Reconcile.{TablePk, lookup, insert, less}
use boox_bridge.Prelude.Text.{str_lt}
use boox_bridge.Sync.Store.{
  Db, ApplyResult, validate_op, in_log, has_key, has_seq, append_op, appended,
}
use boox_bridge.Sync.Store.Apply.{note_page}
use boox_bridge.Sync.Store.Author.{stamp, author_merge, author_op, author_each, author_ops}
use boox_bridge.Sync.Store.Consistent.{IsConsistent, log_ops}
use boox_bridge.Sync.Store.Authoring.{stamp_all, author_ops_lem, author_ops_blocked}
use boox_bridge.Sync.Service.{Request, Response, SyncError, Outcome, sync}
use boox_bridge.Sync.Service.Session.{IsAccepted, IsAnswer, sync_answers, sync_refuses}
use boox_bridge.Sync.Tests.{
  sample_codec, sample_back, sample_marshals, site_a, server_site, first, second, empty_db,
}
use boox_bridge.Sync.Tests.Batches.{empty_db-IsWellFormed}

author : List (Op ℤ) → Db (Op ℤ) → Result (Db (Op ℤ) × List TablePk)
unfolding author_ops author_each author_op author_merge stamp note_page append_op appended in_log
    has_key has_seq validate_op merge_row write_row stored_op upsert upsert_folder insert lookup
    less str_lt col_int col_null_int col_string col_null_string value_at lookup_col known_cols
    normalize is_ulid all_in_alphabet contains
author ops db = author_ops sample_codec (pos 1000) ops db

abbrev authored_result : Result (Db (Op ℤ) × List TablePk)
authored_result = author_ops sample_codec (pos 1000) (first ∷ second ∷ []) empty_db

abbrev db_or : Result (Db (Op ℤ) × List TablePk) → Db (Op ℤ)
db_or (ok r) = r.0
db_or (err e) = empty_db

abbrev authored_db : Db (Op ℤ)
authored_db = db_or authored_result

authors : authored_result ≡ ok (authored_db, [])
unfolding author
authors = refl

author_ops_lem_example :
    IsConsistent sample_codec authored_db
    × (log_ops sample_codec authored_db.ops
        ≡ log_ops sample_codec empty_db.ops
          ++ stamp_all empty_db.site_id empty_db.last_op_seq (pos 1000) (first ∷ second ∷ []))
    × (authored_db.last_op_seq ≡ empty_db.last_op_seq + length (first ∷ second ∷ []))
author_ops_lem_example =
    author_ops_lem sample_codec sample_back (pos 1000) (first ∷ second ∷ []) empty_db authored_db []
      empty_db-IsWellFormed.consistent authors

-- A device has pushed an operation with the server's site and its next number.
abbrev taken_db : Db (Op ℤ)
taken_db =
    appended (record first { site_id = server_site }) (record first { site_id = server_site })
      (pos 1000) empty_db

taken : in_log taken_db.site_id (pos (taken_db.last_op_seq + 1)) taken_db.ops ≡ true
unfolding author
taken = refl

author_ops_blocked_example :
    author_ops sample_codec (pos 1000) (second ∷ []) taken_db ≢ ok (taken_db, [])
author_ops_blocked_example =
    author_ops_blocked sample_codec (pos 1000) second [] taken_db taken (taken_db, [])

abbrev request : Request ℤ
request = record {
  protocol_version = pos 1;
  schema_hash = "";
  site_id = site_a;
  cursor = pos 0;
  ops = first ∷ second ∷ [];
}

-- The hash that sends every text to the empty one.
request-IsAccepted : IsAccepted sample_codec (λ s. "") request
unfolding is_ulid all_in_alphabet contains accepts_schema_hash
request-IsAccepted = record { version = refl; schema = refl; site = refl; cursor = refl }

sync_answers_example :
    (db' : Db (Op ℤ)) × (r : Response ℤ) × (res : ApplyResult) × (sync sample_codec
        (λ s. "")
        (pos 0)
        (pos 1000)
        request
        empty_db
      ≡ (db', Outcome.responded r res.changed_pages))
    × IsAnswer sample_codec (λ s. "") request empty_db db' r
sync_answers_example =
    sync_answers sample_codec (λ s. "") sample_back sample_marshals (pos 0) (pos 1000) request
      empty_db request-IsAccepted empty_db-IsWellFormed

abbrev wrong_version : Request ℤ
wrong_version = record request { protocol_version = pos 2 }

refused :
    (sync sample_codec (λ s. "") (pos 0) (pos 1000) wrong_version empty_db).1
    ≡ Outcome.failed SyncError.unsupported_version
unfolding sync
refused = refl

sync_refuses_example :
    (sync sample_codec (λ s. "") (pos 0) (pos 1000) wrong_version empty_db).0 ≡ empty_db
sync_refuses_example =
    sync_refuses sample_codec (λ s. "") (pos 0) (pos 1000) wrong_version empty_db
      SyncError.unsupported_version (λ z. z) refused
