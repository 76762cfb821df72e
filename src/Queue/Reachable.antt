-- ===== src/Queue/Reachable.antt =====
-- What holds in every state that the handlers and the worker can reach.
use my_tracks.Base.{
  String, none, List, [], ◌∷◌, true, false, ◌||◌, ◌≡◌, refl, arith, sym, subst, if-cases,
}
use my_tracks.Base.Table.{get}
use my_tracks.Requests.{Account, BatchResult, DeviceResult}
use my_tracks.Requests.Settings.{Config}
use my_tracks.Requests.Effects.{World, Outcome}
use my_tracks.Queue.{accept_batch, accept_device}
use my_tracks.Queue.State.{absent, idle, exited, running, finishing, Queue, Service}
use my_tracks.Queue.Steps.{
  Step, Reach, here, next, enqueue_batch, enqueue_device, take, take_stop, process, finish, start,
  stop, stopped, inline, outside, start_location_request_worker, request_stop, forget_worker,
  set_inline_processing, fresh,
}
use my_tracks.Queue.Enqueue.{BatchQueued, enqueue_batch_location_request-BatchQueued}
use my_tracks.Queue.EnqueueDevice.{DeviceQueued, enqueue_device_location_request-DeviceQueued}
use my_tracks.Queue.Books.{count-append, IsConsistent}
use my_tracks.Queue.Invariant.{
  accept_batch-IsConsistent, accept_device-IsConsistent, moved-IsConsistent,
  clear_pending-IsConsistent,
}

fresh-IsConsistent : IsConsistent fresh
unfolding get
fresh-IsConsistent = record {
  timed = λ u. refl;
  timed_device = λ id. refl;
  one_batch = λ u. refl;
  one_device = λ id. refl;
  unstarted = λ e. refl;
}

BatchQueued-IsConsistent :
    {accounts : List Account} {user_id reason : String} {s s' : Service} {out : Outcome BatchResult}
    → BatchQueued accounts user_id reason s out s'
    → IsConsistent s.queue
    → IsConsistent s'.queue
unfolding accept_batch
BatchQueued-IsConsistent (BatchQueued.not_queued e status same) c = subst IsConsistent (sym same) c
BatchQueued-IsConsistent (BatchQueued.done_inline r in_place same) c =
    subst IsConsistent (sym same) c
BatchQueued-IsConsistent {reason} {s}
      (BatchQueued.queued user r background found free name marks kept) c =
    subst IsConsistent (sym marks.written)
      (accept_batch-IsConsistent s.queue c user.username reason r.requested_at free)

DeviceQueued-IsConsistent :
    {accounts : List Account} {config : Config} {user_id device_id reason : String} {s s' : Service}
    {out : Outcome DeviceResult}
    → DeviceQueued accounts config user_id device_id reason s out s'
    → IsConsistent s.queue
    → IsConsistent s'.queue
unfolding accept_device
DeviceQueued-IsConsistent (DeviceQueued.not_queued e status same) c =
    subst IsConsistent (sym same) c
DeviceQueued-IsConsistent (DeviceQueued.done_inline r in_place same) c =
    subst IsConsistent (sym same) c
DeviceQueued-IsConsistent {reason} {s}
      (DeviceQueued.queued user d r background found owned landed free until marks kept) c =
    subst IsConsistent (sym marks.written)
      (accept_device-IsConsistent s.queue c user.username reason _ r.cooldown_until d landed)

module _ (queue : Queue) (c : IsConsistent queue) where
  start-IsConsistent : IsConsistent (start_location_request_worker queue)
  unfolding start_location_request_worker
  start-IsConsistent =
      if-cases IsConsistent (queue.started || queue.inline_processing) (λ idle_call. c)
        (λ begins.
          let never : queue.started ≡ false = ground arith in
          moved-IsConsistent queue c queue.jobs true idle (λ p. rw (c.unstarted never) refl)
            (λ e. (cc)))

  request_stop-IsConsistent : IsConsistent (request_stop queue)
  unfolding request_stop
  request_stop-IsConsistent =
      if-cases IsConsistent queue.started
        (λ begun.
          moved-IsConsistent queue c _ _ _
            (λ p. omega (arith, count-append p queue.jobs (none ∷ []))) c.unstarted)
        (λ never. c)

Step-IsConsistent : {s t : Service} → Step s t → IsConsistent s.queue → IsConsistent t.queue
unfolding set_inline_processing forget_worker
Step-IsConsistent (enqueue_batch accounts config user_id reason s) c =
    BatchQueued-IsConsistent
      (enqueue_batch_location_request-BatchQueued accounts config user_id reason s c.timed) c
Step-IsConsistent (enqueue_device accounts config user_id device_id reason s) c =
    DeviceQueued-IsConsistent
      (enqueue_device_location_request-DeviceQueued accounts config user_id device_id reason s) c
Step-IsConsistent (take s job rest free jobs) c =
    moved-IsConsistent s.queue c rest s.queue.started (running job)
      (λ p. rw (free, jobs) (omega arith)) (λ e. (let a = c.unstarted e in cc))
Step-IsConsistent (take_stop s rest free jobs) c =
    moved-IsConsistent s.queue c rest s.queue.started exited (λ p. rw (free, jobs) refl)
      (λ e. (let a = c.unstarted e in cc))
Step-IsConsistent (process accounts s job working) c =
    moved-IsConsistent s.queue c s.queue.jobs s.queue.started (finishing job) (λ p. rw working refl)
      (λ e. (let a = c.unstarted e in cc))
Step-IsConsistent (finish s job working) c = clear_pending-IsConsistent s.queue c job working
Step-IsConsistent (start s) c = start-IsConsistent s.queue c
Step-IsConsistent (stop s) c = request_stop-IsConsistent s.queue c
Step-IsConsistent (stopped s over) c =
    moved-IsConsistent s.queue c s.queue.jobs false absent (λ p. rw over refl) (λ e. refl)
Step-IsConsistent (inline s enabled) c = record {
  timed = c.timed;
  timed_device = c.timed_device;
  one_batch = c.one_batch;
  one_device = c.one_device;
  unstarted = c.unstarted;
}
Step-IsConsistent (outside s w) c = c

-- In every state that the handlers, the worker and the world outside can reach, in whatever order
-- their steps come: a user is in flight exactly if there is an instant for it, and a device exactly if
-- there is an end of cooldown for it; the open jobs, in the queue or with the worker, hold one batch of
-- each user in flight and none of any other, and one job of each device in flight and none of any
-- other; and there is no worker that was not started.
pub Reach-IsConsistent : {w : World} {s : Service} → Reach w s → IsConsistent s.queue
Reach-IsConsistent here = fresh-IsConsistent
Reach-IsConsistent (next r step) = Step-IsConsistent step (Reach-IsConsistent r)
