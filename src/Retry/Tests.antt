-- ===== src/Retry/Tests.antt =====
-- A note that has waited twice, and a configuration that allows two attempts.
use boox_bridge.Prelude.{◌≡◌, refl, none, some, [], ◌∷◌, arith}
use boox_bridge.Prelude.Int.{pos}
use boox_bridge.Prelude.Lists.{keep}
use boox_bridge.Retry.{
  Spool, Config, Place, Scheduled, remove, move_to, file_at, requeue, stay, visit, visit_all,
  sidecar, schedule, process_due, known_record, into_retry, delay_or,
}
use boox_bridge.Retry.Due.{IsScan, process_due_lem}
use boox_bridge.Retry.Budget.{requeue_restarts}

abbrev cfg : Config
cfg = record { default_retry_after = 60000; max_retries = 2 }

abbrev spool : Spool
spool = record {
  inbox = ("a.note", "new") ∷ ("b.note", "other") ∷ [];
  waiting = ("a.note", "old") ∷ [];
  sidecars =
      (
        "a.note",
        some (record {
          base_name = "a.note";
          attempt_count = 2;
          next_attempt_at = 500;
          last_error = "rate limited";
          first_queued_at = 100;
        }),
      )
      ∷ ("c.note", none)
      ∷ [];
}

-- The note of the inbox is replaced by the one that waited.
requeued_test : process_due 1000 spool ≡ (
  31000,
  record {
    inbox = ("a.note", "old") ∷ ("b.note", "other") ∷ [];
    waiting = [];
    sidecars = ("c.note", none) ∷ [];
  },
)
unfolding process_due visit_all visit requeue stay remove move_to file_at keep
requeued_test = refl

-- Without the scan the third attempt is refused.
exhausted_test :
    schedule cfg Place.in_inbox "a.note" (pos 0) "rate limited" 1000 spool
    ≡ Scheduled.exhausted 3 spool
unfolding schedule sidecar known_record into_retry delay_or
exhausted_test = refl

process_due_lem_example : IsScan 1000 spool (process_due 1000 spool)
process_due_lem_example = process_due_lem 1000 spool

requeue_restarts_example :
    (sp' : Spool) × (schedule cfg Place.in_inbox "a.note"
        (pos 0)
        "rate limited"
        2000
        (process_due 1000 spool).1
      ≡ Scheduled.scheduled 1 sp')
requeue_restarts_example =
    requeue_restarts cfg Place.in_inbox "a.note" (pos 0) "rate limited" 1000 2000 spool
      (omega arith) (refl, tt)
