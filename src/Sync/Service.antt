-- ===== src/Sync/Service.antt =====
-- internal/syncsvc/service.go: the request and response of /sync/v1 and `Sync`. The pages that are
-- handed to the bridge are the second part of a response; the bridge itself runs off the request's
-- path. RecordCursor is best effort in the code, and its success is assumed.
use boox_bridge.Prelude.{
  ℕ, String, Bool, true, false, Option, none, some, List, [], ◌∷◌, if◌then◌else◌,
}
use boox_bridge.Prelude.Int.{ℤ, pos, negsuc, ltb_int, eqb_int}
use boox_bridge.Prelude.Result.{Result, ok, err}
use boox_bridge.Sync.Op.{Op, accepts_schema_hash}
use boox_bridge.Sync.Op.Ulid.{is_ulid}
use boox_bridge.Sync.Codec.{Codec}
use boox_bridge.Sync.Reconcile.{TablePk}
use boox_bridge.Sync.Store.{Db, RejectedOp, ApplyResult}
use boox_bridge.Sync.Store.Apply.{apply_batch}
use boox_bridge.Sync.Store.Relay.{Page, ops_since, record_cursor}
pub mod Session

pub record Request (N : Type 0) : Type 0 where
  pub protocol_version : ℤ
  pub schema_hash : String
  pub site_id : String
  pub cursor : ℤ
  pub ops : List (Op N)

pub record Response (N : Type 0) : Type 0 where
  pub protocol_version : ℤ
  pub accepted_through : ℕ
  pub rejected : List RejectedOp
  pub ops : List (Op N)
  pub cursor : ℤ
  pub has_more : Bool

-- The sentinel errors, and an error of the store.
pub data SyncError : Type 0 where
  unsupported_version schema_mismatch bad_site bad_cursor : SyncError
  internal : String → SyncError

pub data Outcome (N : Type 0) : Type 0 where
  responded : Response N → List TablePk → Outcome N
  failed : SyncError → Outcome N

abbrev pub protocol_version : ℤ
protocol_version = pos 1

-- New: if batchLimit <= 0 { batchLimit = 500 }
unfoldable pub batch_limit : ℤ → ℤ
batch_limit n = if ltb_int (pos 0) n then n else pos 500

module _ {N P : Type 0} (c : Codec N P) (hash : String → String) where
  -- What follows a successful ApplyBatch; the batch stays applied if the relay fails.
  unfoldable pub relay : ℤ → ℤ → Request N → Db P → ApplyResult → Result (Page N) → Db P × Outcome N
  relay limit now req db res (err e) = (db, Outcome.failed (SyncError.internal e))
  relay limit now req db res (ok p) = (
    record_cursor req.site_id p.cursor now db,
    Outcome.responded
        (record {
          protocol_version = protocol_version;
          accepted_through = res.accepted_through;
          rejected = res.rejected;
          ops = p.ops;
          cursor = p.cursor;
          has_more = p.has_more;
        })
        res.changed_pages,
  )

  unfoldable pub ingest : ℤ → ℤ → Request N → Db P → Result (Db P × ApplyResult) → Db P × Outcome N
  ingest limit now req db (err e) = (db, Outcome.failed (SyncError.internal e))
  ingest limit now req db (ok (db', res)) =
      relay limit now req db' res (ops_since c req.cursor req.site_id (batch_limit limit) db')

  unfoldable pub sync : ℤ → ℤ → Request N → Db P → Db P × Outcome N
  sync limit now req db =
      if eqb_int req.protocol_version protocol_version
      then (if accepts_schema_hash hash req.schema_hash
          then (if is_ulid req.site_id
              then (if ltb_int req.cursor (pos 0)
                  then (db, Outcome.failed SyncError.bad_cursor)
                  else ingest limit now req db (apply_batch c req.site_id now req.ops db))
              else (db, Outcome.failed SyncError.bad_site))
          else (db, Outcome.failed SyncError.schema_mismatch))
      else (db, Outcome.failed SyncError.unsupported_version)
