-- ===== src/Sync/Store/Relay.antt =====
-- internal/syncstore/store.go: `OpsSince`, `LastSeq` and `RecordCursor`, the relay of the changelog.
use text.Mathlib.Text.{◌==◌ as str_eq}
use boox_bridge.Prelude.{
  ℕ, zero, suc, ◌+◌, String, Bool, true, false, ◌&&◌, not, none, some, List, [], ◌∷◌, ◌++◌, ◌==◌,
  if◌then◌else◌,
}
use boox_bridge.Prelude.Int.{ℤ, pos, negsuc, ltb_int}
use boox_bridge.Prelude.Lists.{length}
use boox_bridge.Prelude.Result.{Result, ok, err}
use boox_bridge.Sync.Op.{Op}
use boox_bridge.Sync.Codec.{Codec}
use boox_bridge.Sync.Store.{LogRow, Cursor, Db}

-- seq > ? AND site_id <> ?
unfoldable pub is_relayed : {P : Type 0} → ℤ → String → LogRow P → Bool
is_relayed cursor site r = ltb_int cursor (pos r.seq) && not (str_eq r.site_id site)

unfoldable pub relayed : {P : Type 0} → ℤ → String → List (LogRow P) → List (LogRow P)
relayed cursor site [] = []
relayed cursor site (r ∷ rs) =
    let rest = relayed cursor site rs in if is_relayed cursor site r then r ∷ rest else rest

-- LIMIT n
unfoldable pub take {ℓ} : {A : Type ℓ} → ℕ → List A → List A
take zero xs = []
take (suc n) [] = []
take (suc n) (x ∷ xs) = x ∷ take n xs

-- if limit <= 0 { limit = 500 }
unfoldable pub page_limit : ℤ → ℕ
page_limit (pos zero) = 500
page_limit (pos (suc n)) = suc n
page_limit (negsuc n) = 500

pub record Page (N : Type 0) : Type 0 where
  pub ops : List (Op N)
  pub cursor : ℤ
  pub has_more : Bool

module _ {N P : Type 0} (c : Codec N P) where
  -- The loop over the rows.
  unfoldable pub scan_rows : ℕ → List (LogRow P) → List (Op N) → ℤ → Result (Page N)
  scan_rows limit [] ops cursor = ok (record { ops = ops; cursor = cursor; has_more = false })
  scan_rows limit (r ∷ rs) ops cursor = elim (length ops == limit) [
    | true ↦ ok (record { ops = ops; cursor = cursor; has_more = true })
    | false ↦ elim (c.unmarshal r.payload) [
      | none ↦ err "unmarshal op"
      | some op ↦ scan_rows limit rs (ops ++ op ∷ []) (pos r.seq)
    ]
  ]

  unfoldable pub ops_since : ℤ → String → ℤ → Db P → Result (Page N)
  ops_since cursor site limit db =
      let n = page_limit limit in scan_rows n (take (n + 1) (relayed cursor site db.ops)) [] cursor

unfoldable pub last_seq : {P : Type 0} → Db P → ℕ
last_seq db = db.last_seq

-- INSERT … ON CONFLICT(site_id) DO UPDATE SET last_pull_seq, updated_at
unfoldable pub set_pulled : String → ℤ → ℤ → List (String × Cursor) → List (String × Cursor)
set_pulled site n now [] =
    (site, record { last_pull_seq = n; acked_op_seq = 0; updated_at = now }) ∷ []
set_pulled site n now ((s, cur) ∷ rest) =
    if str_eq s site
    then (s, record cur { last_pull_seq = n; updated_at = now }) ∷ rest
    else (s, cur) ∷ set_pulled site n now rest

unfoldable pub record_cursor : {P : Type 0} → String → ℤ → ℤ → Db P → Db P
record_cursor site n now db = record db { cursors = set_pulled site n now db.cursors }
