-- ===== src/Digest.antt =====
-- internal/spcserver/digesttomb/store.go: the queue of notices that a digest is deleted. The table
-- spc_digest_tombstones is a list of its rows in the order of insertion. The clock is the argument
-- `now`, in milliseconds. SQLite's errors are not modelled.
use boox_bridge.Prelude.{
  ℕ, suc, String, Bool, true, false, not, ◌&&◌, List, [], ◌∷◌, ◌++◌, map, if◌then◌else◌,
}
use boox_bridge.Prelude.Int.{ℤ, pos, ltb_int, eqb_int}
use boox_bridge.Prelude.Lists.{length, keep, any}
pub mod Queue
pub mod Delivery
pub mod Tests

pub record Tombstone : Type 0 where
  pub user_id : ℤ
  pub digest_id : ℤ
  pub data_type : String

-- A row of spc_digest_tombstones; its key is (user_id, digest_id).
pub record TombRow : Type 0 where
  pub user_id : ℤ
  pub digest_id : ℤ
  pub data_type : String
  pub created_at : ℤ
  pub sent_at : ℤ

unfoldable pub is_for : ℤ → ℤ → TombRow → Bool
is_for user digest r = eqb_int r.user_id user && eqb_int r.digest_id digest

unfoldable pub enqueue : ℤ → ℤ → ℤ → String → List TombRow → List TombRow
unfolding is_for
enqueue now user digest data_type rows =
    if any (is_for user digest) rows
    then rows
    else rows
      ++ record {
        user_id = user;
        digest_id = digest;
        data_type = data_type;
        created_at = now;
        sent_at = pos 0;
      }
        ∷ []

-- ORDER BY created_at, digest_id
unfoldable pub comes_before : TombRow → TombRow → Bool
comes_before a b =
    if eqb_int a.created_at b.created_at
    then ltb_int a.digest_id b.digest_id
    else ltb_int a.created_at b.created_at

unfoldable pub place : TombRow → List TombRow → List TombRow
place r [] = r ∷ []
place r (s ∷ rows) = if comes_before s r then s ∷ place r rows else r ∷ s ∷ rows

unfoldable pub in_order : List TombRow → List TombRow
unfolding place
in_order [] = []
in_order (r ∷ rows) = place r (in_order rows)

unfoldable pub notice : ℤ → TombRow → Tombstone
notice user r = record { user_id = user; digest_id = r.digest_id; data_type = r.data_type }

-- The SELECT of Pending.
unfoldable pub select_pending : ℤ → List TombRow → List Tombstone
unfolding notice in_order
select_pending user rows = map (notice user) (in_order (keep (λ r. eqb_int r.user_id user) rows))

unfoldable pub mark_row : ℤ → ℤ → TombRow → TombRow
mark_row now user r =
    if eqb_int r.user_id user && eqb_int r.sent_at (pos 0) then record r { sent_at = now } else r

-- The UPDATE of Pending.
unfoldable pub mark_sent : ℤ → ℤ → List TombRow → List TombRow
unfolding mark_row
mark_sent now user rows = map (mark_row now user) rows

-- if len(out) > 0 { UPDATE … }
unfoldable pub mark_if_any : List Tombstone → ℤ → ℤ → List TombRow → List TombRow
mark_if_any [] now user rows = rows
mark_if_any (_ ∷ _) now user rows = mark_sent now user rows

-- The two statements are no transaction; here nothing comes between them.
unfoldable pub pending : ℤ → ℤ → List TombRow → List Tombstone × List TombRow
unfolding mark_if_any
pending now user rows = let out = select_pending user rows in (out, mark_if_any out now user rows)

unfoldable pub is_delivered : ℤ → TombRow → Bool
is_delivered user r = eqb_int r.user_id user && ltb_int (pos 0) r.sent_at

unfoldable pub ack : ℤ → List TombRow → List TombRow
unfolding is_delivered
ack user rows = keep (λ r. not (is_delivered user r)) rows

unfoldable pub sweep : ℤ → List TombRow → ℕ × List TombRow
sweep before rows = (
  length (keep (λ r. ltb_int r.created_at before) rows),
  keep (λ r. not (ltb_int r.created_at before)) rows,
)
