-- ===== src/Queue/Steps.antt =====
-- What can happen to the queue, one step at a time and in any order: calls of the handlers, which run
-- their block under `_domesti_location_request_lock`, the worker's loop, and changes of the world
-- outside. Each step may see other accounts.
use my_tracks.Base.{
  String, Option, none, some, List, [], ◌∷◌, ◌++◌, Bool, true, false, ◌||◌, if◌then◌else◌, ◌≡◌,
}
use my_tracks.Requests.{Account}
use my_tracks.Requests.Settings.{Config}
use my_tracks.Requests.Effects.{World}
use my_tracks.Queue.{
  execute_batch_job, execute_device_job, enqueue_batch_location_request,
  enqueue_device_location_request, clear_pending_for_job,
}
use my_tracks.Queue.State.{
  Kind, batch, device, Job, absent, idle, exited, running, finishing, Queue, Service,
}

unfoldable pub set_inline_processing : Bool → Queue → Queue
set_inline_processing enabled queue = record queue { inline_processing = enabled }

unfoldable pub start_location_request_worker : Queue → Queue
start_location_request_worker queue =
    if queue.started || queue.inline_processing
    then queue
    else record queue { started = true; worker = idle }

-- the sentinel of `stop_location_request_worker`
unfoldable pub request_stop : Queue → Queue
request_stop queue =
    if queue.started then record queue { jobs = queue.jobs ++ none ∷ [] } else queue

-- its last two lines, once the thread has returned
unfoldable pub forget_worker : Queue → Queue
forget_worker queue = record queue { started = false; worker = absent }

-- `_process_batch_job` or `_process_device_job`, with the configuration of the moment; what they
-- raise is logged and dropped.
abbrev pub process_of : Kind → List Account → Job → World → World
process_of batch accounts job w = (execute_batch_job accounts w.row job w).1
process_of device accounts job w = (execute_device_job accounts w.row job w).1

unfoldable pub process_job : List Account → Job → World → World
process_job accounts job = process_of job.kind accounts job

pub data Step : Service → Service → Type 0 where
  enqueue_batch :
      (accounts : List Account) (config : Config) (user_id reason : String) (s : Service)
      → Step s (enqueue_batch_location_request accounts config user_id reason s).1
  enqueue_device :
      (accounts : List Account) (config : Config) (user_id device_id reason : String) (s : Service)
      → Step s (enqueue_device_location_request accounts config user_id device_id reason s).1
  take :
      (s : Service) (job : Job) (rest : List (Option Job))
      → s.queue.worker ≡ idle
      → s.queue.jobs ≡ some job ∷ rest
      → Step s (record s { queue = record s.queue { jobs = rest; worker = running job } })
  take_stop :
      (s : Service) (rest : List (Option Job))
      → s.queue.worker ≡ idle
      → s.queue.jobs ≡ none ∷ rest
      → Step s (record s { queue = record s.queue { jobs = rest; worker = exited } })
  process :
      (accounts : List Account) (s : Service) (job : Job)
      → s.queue.worker ≡ running job
      → Step s (record {
        queue = record s.queue { worker = finishing job };
        world = process_job accounts job s.world;
      })
  finish :
      (s : Service) (job : Job)
      → s.queue.worker ≡ finishing job
      → Step s (record s { queue = record (clear_pending_for_job job s.queue) { worker = idle } })
  start : (s : Service) → Step s (record s { queue = start_location_request_worker s.queue })
  stop : (s : Service) → Step s (record s { queue = request_stop s.queue })
  stopped :
      (s : Service) → s.queue.worker ≡ exited → Step s (record s { queue = forget_worker s.queue })
  inline :
      (s : Service) (enabled : Bool)
      → Step s (record s { queue = set_inline_processing enabled s.queue })
  outside : (s : Service) (w : World) → Step s (record s { world = w })

-- `_LocationRequestQueueState()`
abbrev pub fresh : Queue
fresh = record {
  jobs = [];
  inline_processing = false;
  started = false;
  pending_user_requested_at = [];
  pending_user_in_flight = [];
  pending_device_cooldown_until = [];
  pending_device_in_flight = [];
  worker = absent;
}

pub data Reach (w : World) : Service → Type 0 where
  here : Reach w (record { queue = fresh; world = w })
  next : {s t : Service} → Reach w s → Step s t → Reach w t
