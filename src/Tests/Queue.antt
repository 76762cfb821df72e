-- ===== src/Tests/Queue.antt =====
-- The queue with the accounts of the request tests: the worker is started, one batch is queued, and
-- the worker runs it.
use my_tracks.Base.{String, some, [], ◌∷◌, true, false, ◌≡◌, refl, arith, subst}
use my_tracks.Base.Table.{get, put, pop}
use my_tracks.Text.{strip, span_slash}
use my_tracks.Requests.{
  BatchResult, validate_reason, is_valid_reason, active_user, find_active,
  mqtt_device_id_for_device, cooldown_until_for_user,
}
use my_tracks.Requests.Settings.{user_cooldown_seconds_for_reason, user_cooldown_end}
use my_tracks.Requests.Effects.{ok}
use my_tracks.Queue.{
  batch_job, accept_batch, enqueue_batch_location_request, enqueue_for_worker_batch,
  enqueue_device_location_request, reject_if_user_cooldown_active,
}
use my_tracks.Queue.State.{Job, idle, Service, contains}
use my_tracks.Queue.Steps.{
  Reach, here, next, start, enqueue_batch, start_location_request_worker, fresh,
}
use my_tracks.Queue.Enqueue.{IsTimed, BatchQueued, enqueue_batch_location_request-BatchQueued}
use my_tracks.Queue.EnqueueDevice.{DeviceQueued, enqueue_device_location_request-DeviceQueued}
use my_tracks.Queue.Books.{IsConsistent}
use my_tracks.Queue.Reachable.{Reach-IsConsistent}
use my_tracks.Queue.Promises.{quiet-Reach, Refused, open_batch-Refused}
use my_tracks.Queue.Drain.{Rounds, drain-Reach}
use my_tracks.Tests.Requests.{accounts, config, world, alice}

abbrev begun : Service
begun = record { queue = record fresh { started = true; worker = idle }; world = world }

begun-Reach : Reach world begun
unfolding start_location_request_worker
begun-Reach = next here (start _)

abbrev job : Job
job = batch_job "alice" "deferred_edge"

abbrev waiting : Service
waiting = record {
  queue = record begun.queue {
    jobs = some job ∷ [];
    pending_user_requested_at = ("alice", 1000) ∷ [];
    pending_user_in_flight = ("alice", tt) ∷ [];
  };
  world = record world { readings = 2 };
}

abbrev result : BatchResult
result = record {
  user_id = "alice";
  device_ids = "alice/phone" ∷ "al/tablet" ∷ [];
  requested_at = 1000;
  cooldown_until = 60001000;
  reason = "deferred_edge";
}

enqueued :
    enqueue_batch_location_request accounts config "alice" "deferred_edge" begun
    ≡ (ok result, waiting)
unfolding enqueue_batch_location_request enqueue_for_worker_batch validate_reason is_valid_reason
    active_user find_active strip span_slash mqtt_device_id_for_device
    reject_if_user_cooldown_active cooldown_until_for_user user_cooldown_end
    user_cooldown_seconds_for_reason accept_batch get put pop
enqueued = refl

waiting-Reach : Reach world waiting
waiting-Reach =
    subst (λ p. Reach world p.1) enqueued
      (next begun-Reach (enqueue_batch accounts config "alice" "deferred_edge" begun))

alice_found : find_active accounts (strip " alice ") ≡ some alice
unfolding find_active strip span_slash
alice_found = refl

Reach-IsConsistent_example : IsConsistent waiting.queue
Reach-IsConsistent_example = Reach-IsConsistent waiting-Reach

quiet-Reach_example :
    (contains begun.queue.pending_user_in_flight "alice" ≡ false)
    × (contains begun.queue.pending_user_requested_at "alice" ≡ false)
    × (contains begun.queue.pending_device_in_flight "alice" ≡ false)
    × (contains begun.queue.pending_device_cooldown_until "alice" ≡ false)
quiet-Reach_example = quiet-Reach begun-Reach refl refl "alice"

open_batch-Refused_example :
    Refused waiting
      (enqueue_batch_location_request accounts config " alice " "stale_watchdog" waiting)
    × Refused waiting
        (enqueue_device_location_request accounts config " alice " "phone" "stale_watchdog" waiting)
open_batch-Refused_example =
    open_batch-Refused alice waiting-Reach refl (omega arith) accounts config " alice " "phone"
      "stale_watchdog" alice_found

drain-Reach_example :
    (t : Service) × Rounds accounts (job ∷ []) waiting t
    × (t.queue.worker ≡ idle)
    × (t.queue.jobs ≡ [])
    × ((key : String)
        → (contains t.queue.pending_user_in_flight key ≡ false)
          × (contains t.queue.pending_device_in_flight key ≡ false))
drain-Reach_example = drain-Reach accounts (job ∷ []) waiting waiting-Reach refl refl

begun-IsTimed : IsTimed begun.queue
unfolding get
begun-IsTimed user_id = refl

enqueue_batch_location_request-BatchQueued_example :
    BatchQueued accounts "alice" "deferred_edge" begun
      (enqueue_batch_location_request accounts config "alice" "deferred_edge" begun).0
      (enqueue_batch_location_request accounts config "alice" "deferred_edge" begun).1
enqueue_batch_location_request-BatchQueued_example =
    enqueue_batch_location_request-BatchQueued accounts config "alice" "deferred_edge" begun
      begun-IsTimed

enqueue_device_location_request-DeviceQueued_example :
    DeviceQueued accounts config "alice" "phone" "deferred_edge" begun
      (enqueue_device_location_request accounts config "alice" "phone" "deferred_edge" begun).0
      (enqueue_device_location_request accounts config "alice" "phone" "deferred_edge" begun).1
enqueue_device_location_request-DeviceQueued_example =
    enqueue_device_location_request-DeviceQueued accounts config "alice" "phone" "deferred_edge"
      begun
