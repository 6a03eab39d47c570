-- ===== src/Digest/Tests.antt =====
-- The queue at concrete inputs: two digests of one user, and a third that is deleted meanwhile.
use boox_bridge.Prelude.{◌≡◌, ◌≢◌, refl, false, List, [], ◌∷◌}
use boox_bridge.Prelude.Int.{ℤ, pos}
use boox_bridge.Prelude.Lists.{any, keep}
use boox_bridge.Digest.{
  TombRow, is_for, enqueue, place, in_order, comes_before, notice, mark_if_any, select_pending,
  pending, ack,
}
use boox_bridge.Digest.Queue.{IsQueue, Step, Step-IsQueue}
use boox_bridge.Digest.Delivery.{sends, IsDrain, pending_lem, enqueued_within-drain}

abbrev user : ℤ
user = pos 1

abbrev row : ℤ → ℤ → ℤ → TombRow
row digest created sent = record {
  user_id = user;
  digest_id = digest;
  data_type = "2";
  created_at = created;
  sent_at = sent;
}

abbrev queue : List TombRow
queue = row (pos 8) (pos 30) (pos 0) ∷ row (pos 7) (pos 20) (pos 25) ∷ []

queue-IsQueue : IsQueue queue
unfolding any is_for
queue-IsQueue = record { unique = (refl, (refl, tt)); timed = (refl, (refl, tt)) }

-- The older notice is sent first, again, although it was sent before.
drained_test :
    (pending (pos 40) user queue).0
    ≡ record { user_id = user; digest_id = pos 7; data_type = "2" }
      ∷ record { user_id = user; digest_id = pos 8; data_type = "2" }
      ∷ []
unfolding pending select_pending notice in_order place comes_before keep
drained_test = refl

Step-IsQueue_example : IsQueue (pending (pos 40) user queue).1
Step-IsQueue_example = Step-IsQueue queue _ (Step.drained (pos 40) user refl) queue-IsQueue

pending_lem_example : IsDrain (pos 40) user queue
pending_lem_example = pending_lem (pos 40) user queue queue-IsQueue refl

not_queued : any (is_for user (pos 9)) queue ≡ false
unfolding any is_for
not_queued = refl

some_sent : select_pending user queue ≢ []
unfolding select_pending notice in_order place comes_before keep
some_sent e = cc

longer-IsQueue : IsQueue (enqueue (pos 39) user (pos 9) "2" queue)
longer-IsQueue = Step-IsQueue queue _ (Step.enqueued (pos 39) user (pos 9) "2") queue-IsQueue

enqueued_within-drain_example :
    (sends (pos 9) (select_pending user queue) ≡ false)
    × (any (is_for user (pos 9)) (
          ack user (
            mark_if_any
              (select_pending user queue)
              (pos 40)
              user
              (enqueue (pos 39) user (pos 9) "2" queue)))
        ≡ false)
enqueued_within-drain_example =
    enqueued_within-drain (pos 40) (pos 39) user (pos 9) "2" queue longer-IsQueue refl some_sent
      not_queued
