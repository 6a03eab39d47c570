-- ===== src/Sync/Service/Session.antt =====
-- What a device may rely on after a call of /sync/v1.
use boox_bridge.Prelude.{String, ◌≡◌, ◌≢◌, refl, ap, ◌∙◌, true, false, none, ◌++◌, arith, subst}
use boox_bridge.Prelude.Int.{ℤ, pos, ltb_int, eqb_int}
use boox_bridge.Prelude.Result.{Result, ok, err}
use boox_bridge.Sync.Op.{Op, accepts_schema_hash}
use boox_bridge.Sync.Op.Ulid.{is_ulid}
use boox_bridge.Sync.Codec.{Codec, IsRoundTrip}
use boox_bridge.Sync.Store.{Db, ApplyResult}
use boox_bridge.Sync.Store.Apply.{apply_batch}
use boox_bridge.Sync.Store.Relay.{Page, relayed, record_cursor}
use boox_bridge.Sync.Store.Consistent.{log_ops}
use boox_bridge.Sync.Store.WellFormed.{IsWellFormed, AscendsTo-Ascends, apply_batch-IsWellFormed}
use boox_bridge.Sync.Store.Resend.{apply_batch_total}
use boox_bridge.Sync.Store.Paging.{ops_since_lem}
use boox_bridge.Sync.Store.Selection.{nonempty}
use boox_bridge.Sync.Service.{
  Request, Response, SyncError, Outcome, protocol_version, batch_limit, relay, ingest, sync,
}

failed-injective :
    {N : Type 0} {a b : SyncError}
    → ◌≡◌ {A = Outcome N} (Outcome.failed a) (Outcome.failed b)
    → a ≡ b
failed-injective h = cc

module _ {N P : Type 0} (c : Codec N P) (hash : String → String) where
  -- The envelope that the service accepts.
  pub record IsAccepted (req : Request N) : Type 0 where
    pub version : req.protocol_version ≡ protocol_version
    pub schema : accepts_schema_hash hash req.schema_hash ≡ true
    pub site : is_ulid req.site_id ≡ true
    pub cursor : ltb_int req.cursor (pos 0) ≡ false

  -- What a response says of the database that the call leaves.
  pub record IsAnswer (req : Request N) (db db' : Db P) (r : Response N) : Type 0 where
    pub well_formed : IsWellFormed c db'
    pub delivered :
        log_ops c (relayed req.cursor req.site_id db'.ops)
        ≡ r.ops ++ log_ops c (relayed r.cursor req.site_id db'.ops)
    pub more : r.has_more ≡ nonempty (relayed r.cursor req.site_id db'.ops)

  module _ (back : IsRoundTrip c) (marshals : (op : Op N) → c.marshal op ≢ none) where
    accepted_ingests :
        (limit now : ℤ) (req : Request N) (db : Db P)
        → IsAccepted req
        → sync c hash limit now req db
          ≡ ingest c hash limit now req db (apply_batch c req.site_id now req.ops db)
    unfolding sync
    accepted_ingests limit now req db a =
        rw (ap (λ v. eqb_int v protocol_version) a.version, a.schema, a.site, a.cursor) refl

    response : Page N → ApplyResult → Response N
    response p res = record {
      protocol_version = protocol_version;
      accepted_through = res.accepted_through;
      rejected = res.rejected;
      ops = p.ops;
      cursor = p.cursor;
      has_more = p.has_more;
    }

    -- With a codec that reads back what it writes and writes every operation, an accepted envelope
    -- to a well-formed store is answered: the store left is well formed, the operations of the
    -- response followed by those relayed from its cursor on are those relayed from the request's
    -- cursor on, and has_more says whether any are left.
    pub sync_answers :
        (limit now : ℤ) (req : Request N) (db : Db P)
        → IsAccepted req
        → IsWellFormed c db
        → (db' : Db P) × (r : Response N) × (res : ApplyResult) × (sync c hash limit now req db
            ≡ (db', Outcome.responded r res.changed_pages))
          × IsAnswer req db db' r
    unfolding ingest relay response record_cursor
    sync_answers limit now req db a h =
        let ((db₁, res), applied, _) =
          apply_batch_total c marshals req.site_id now req.ops db h.ordered in
        let wf = apply_batch-IsWellFormed c back req.site_id now req.ops db db₁ res h applied in
        let (p, found, page) =
          ops_since_lem c req.cursor req.site_id (batch_limit limit) db₁
            (AscendsTo-Ascends 0 db₁.last_seq db₁.ops wf.ordered) wf.readable in
        (
          record_cursor req.site_id p.cursor now db₁,
          response p res,
          res,
          accepted_ingests limit now req db a
              ∙ ap (ingest c hash limit now req db) applied
              ∙ ap (relay c hash limit now req db₁ res) found,
          record {
            well_formed = record {
              ordered = wf.ordered;
              unique = wf.unique;
              readable = wf.readable;
              consistent = record { winners = wf.consistent.winners };
            };
            delivered = page.split;
            more = page.more;
          },
        )

  abbrev pub IsInternal : SyncError → Type 0
  IsInternal (SyncError.internal e) = Unit
  IsInternal _ = ⊥

  relay_fails :
      (limit now : ℤ) (req : Request N) (db : Db P) (res : ApplyResult) (m : Result (Page N))
      (e : SyncError)
      → (relay c hash limit now req db res m).1 ≡ Outcome.failed e
      → IsInternal e
  unfolding relay
  relay_fails limit now req db res (ok p) e h = cc
  relay_fails limit now req db res (err s) e h = subst IsInternal (failed-injective h) tt

  ingest_fails :
      (limit now : ℤ) (req : Request N) (db : Db P) (m : Result (Db P × ApplyResult))
      (e : SyncError)
      → (ingest c hash limit now req db m).1 ≡ Outcome.failed e
      → IsInternal e
  unfolding ingest
  ingest_fails limit now req db (ok (db', res)) e h = relay_fails limit now req db' res _ e h
  ingest_fails limit now req db (err s) e h = subst IsInternal (failed-injective h) tt

  -- A call of Sync that fails with another error than one of the store leaves the database as it
  -- was.
  pub sync_refuses :
      (limit now : ℤ) (req : Request N) (db : Db P) (e : SyncError)
      → ¬ IsInternal e
      → (sync c hash limit now req db).1 ≡ Outcome.failed e
      → (sync c hash limit now req db).0 ≡ db
  unfolding sync
  sync_refuses limit now req db e k h =
      ground (arith, ingest_fails limit now req db (apply_batch c req.site_id now req.ops db) e)
