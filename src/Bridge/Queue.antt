-- ===== src/Bridge/Queue.antt =====
-- internal/syncbridge/bridge.go: the queue of changed pages and the counters.
use text.Mathlib.Text.{◌==◌}
use boox_bridge.Prelude.{
  ℕ, ◌+◌, ◌-◌, String, Bool, not, ◌&&◌, Option, none, some, if◌then◌else◌, List, [], ◌∷◌, ◌++◌, ltb,
}
use boox_bridge.Prelude.Text.{eq_iff}
use boox_bridge.Prelude.Lists.{length}
use boox_bridge.Prelude.Keys.{has}
use boox_bridge.Sync.Reconcile.{TablePk}

-- The channel of New holds 256 pages.
abbrev pub queue_capacity : ℕ
queue_capacity = 256

pub record Bridge : Type 0 where
  pub queue : List String
  pub in_flight : ℕ
  pub processed : ℕ
  pub dropped : ℕ

-- A send that does not wait.
unfoldable pub offer : String → Bridge → Bridge
offer pk b =
    if ltb (length b.queue) queue_capacity
    then record b { queue = b.queue ++ pk ∷ [] }
    else record b { dropped = b.dropped + 1 }

unfoldable pub is_fresh : List String → TablePk → Bool
is_fresh seen p = p.table == "page" && not (has ◌==◌ eq_iff seen p.pk)

-- The loop of PagesChanged, with its map `seen`.
unfoldable pub offer_pages : List String → List TablePk → Bridge → Bridge
unfolding offer is_fresh
offer_pages seen [] b = b
offer_pages seen (p ∷ ps) b =
    let fresh = is_fresh seen p in
    offer_pages (if fresh then p.pk ∷ seen else seen) ps (if fresh then offer p.pk b else b)

unfoldable pub pages_changed : List TablePk → Bridge → Bridge
unfolding offer_pages
pages_changed ps b = offer_pages [] ps b

-- The worker takes a page, and is done with it.
unfoldable pub take_page : Bridge → Option (String × Bridge)
take_page b = elim b.queue [
  | [] ↦ none
  | pk ∷ queue ↦ some (pk, record b { queue = queue; in_flight = b.in_flight + 1 })
]

unfoldable pub finish_page : Bridge → Bridge
finish_page b = record b { in_flight = b.in_flight - 1; processed = b.processed + 1 }

pub record Status : Type 0 where
  pub pending : ℕ
  pub in_flight : ℕ
  pub processed : ℕ
  pub dropped : ℕ
  pub capacity : ℕ

unfoldable pub bridge_status : Option Bridge → Status
bridge_status none = record { pending = 0; in_flight = 0; processed = 0; dropped = 0; capacity = 0 }
bridge_status (some b) = record {
  pending = length b.queue;
  in_flight = b.in_flight;
  processed = b.processed;
  dropped = b.dropped;
  capacity = queue_capacity;
}
