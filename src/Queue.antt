-- ===== src/Queue.antt =====
-- The in-process queue of location requests: app/domesti_location_request_queue.py. The fields
-- `rule_id` and `geofence_id` of a job, which both requests drop (`del rule_id, geofence_id`), are left out.
pub mod State
pub mod Steps
pub mod Rejections
pub mod Marks
pub mod Enqueue
pub mod EnqueueDevice
pub mod Books
pub mod Invariant
pub mod Reachable
pub mod Promises
pub mod Drain
use my_tracks.Base.{
  ℕ, ◌+◌, String, Option, none, some, List, [], ◌∷◌, ◌++◌, map, Bool, true, false, leb,
  if◌then◌else◌,
}
use my_tracks.Base.Table.{Table, get, put, pop}
use my_tracks.Requests.{
  Account, Device, mqtt_device_id_for_device, device_for_user, validate_reason, active_user,
  cooldown_until_for_user, cooldown_until_for_device, user_cooldown_error, device_cooldown_error,
  BatchResult, DeviceResult, require_devices, require_device, request_all_devices_location,
  request_single_device_location,
}
use my_tracks.Requests.Settings.{Config, seconds, user_cooldown_seconds_for_reason}
use my_tracks.Requests.Effects.{
  World, batch_in_progress, missing_device_id, missing_pending_key, Request, now as read_clock,
  error, fail as refuse, return as give,
}
use my_tracks.Requests.Effects as Effects
use State.{
  Kind, batch, device, Job, Queue, contains, Service, Action, ◌>>=◌, ◌>>◌, return, lift, queue_now,
  set_queue,
}

-- `pending_until if pending_until > now else now + timedelta(seconds=1)`
abbrev pub at_least_a_second : ℕ → ℕ → ℕ
at_least_a_second until t = if leb until t then t + seconds 1 else until

-- A subscript of a missing key is a KeyError, which nothing on the way of the request catches.
abbrev pub pending_user_end : Config → String → ℕ → Option ℕ → Request (Option ℕ)
pending_user_end config reason t none = refuse (error missing_pending_key 500)
pending_user_end config reason t (some requested_at) = give (
    some (
      at_least_a_second (requested_at + seconds (user_cooldown_seconds_for_reason config reason))
        t))

abbrev pub raise_active : (ℕ → Request (Unit {0})) → Option ℕ → Request (Unit {0})
raise_active raise none = give tt
raise_active raise (some until) = raise until

unfoldable pub reject_if_user_cooldown_active :
    Queue → Config → String → String → Request (Unit {0})
reject_if_user_cooldown_active queue config user_id reason = Effects.◌>>=◌ read_clock (λ t.
    Effects.◌>>=◌
      (if contains queue.pending_user_in_flight user_id
        then pending_user_end config reason t (get queue.pending_user_requested_at user_id)
        else cooldown_until_for_user config user_id reason)
      (raise_active (λ until. refuse (user_cooldown_error config until))))

abbrev pub batch_end : Config → Option ℕ → Request (Unit {0})
batch_end config none = refuse (error batch_in_progress 409)
batch_end config (some requested_at) =
    refuse (user_cooldown_error config (requested_at + seconds config.user_cooldown))

unfoldable pub reject_if_user_batch_in_flight : Queue → Config → String → Request (Unit {0})
reject_if_user_batch_in_flight queue config user_id =
    if contains queue.pending_user_in_flight user_id
    then batch_end config (get queue.pending_user_requested_at user_id)
    else give tt

-- `None` and an instant that is over both become one second from now.
abbrev pub pending_device_end : Option ℕ → ℕ → ℕ
pending_device_end none t = t + seconds 1
pending_device_end (some until) t = at_least_a_second until t

unfoldable pub reject_if_device_cooldown_active : Queue → Config → String → Request (Unit {0})
reject_if_device_cooldown_active queue config mqtt_device_id = Effects.◌>>=◌ read_clock (λ t.
    Effects.◌>>=◌
      (if contains queue.pending_device_in_flight mqtt_device_id
        then give
            (some (pending_device_end (get queue.pending_device_cooldown_until mqtt_device_id) t))
        else cooldown_until_for_device config mqtt_device_id)
      (raise_active (λ until. refuse (device_cooldown_error until))))

unfoldable pub execute_batch_job : List Account → Config → Job → Request BatchResult
execute_batch_job accounts config job =
    request_all_devices_location accounts config job.user_id job.reason

unfoldable pub execute_device_job : List Account → Config → Job → Request DeviceResult
execute_device_job accounts config job = elim job.device_id [
  | none ↦ refuse (error missing_device_id 500)
  | some device_id ↦ request_single_device_location accounts config job.user_id device_id job.reason
]

abbrev pub batch_job : String → String → Job
batch_job user_id reason = record {
  kind = batch;
  user_id = user_id;
  reason = reason;
  device_id = none;
  mqtt_device_id = none;
}

abbrev pub device_job : String → String → Device → String → Job
device_job user_id reason d mqtt_device_id = record {
  kind = device;
  user_id = user_id;
  reason = reason;
  device_id = some d.device_id;
  mqtt_device_id = some mqtt_device_id;
}

-- What the lock's block writes for an accepted job.
unfoldable pub accept_batch : String → ℕ → Job → Queue → Queue
accept_batch user_id requested_at job queue = record queue {
  pending_user_requested_at = put queue.pending_user_requested_at user_id requested_at;
  pending_user_in_flight = put queue.pending_user_in_flight user_id tt;
  jobs = queue.jobs ++ some job ∷ [];
}

unfoldable pub accept_device : String → ℕ → Job → Queue → Queue
accept_device mqtt_device_id cooldown_until job queue = record queue {
  pending_device_cooldown_until =
      put queue.pending_device_cooldown_until mqtt_device_id cooldown_until;
  pending_device_in_flight = put queue.pending_device_in_flight mqtt_device_id tt;
  jobs = queue.jobs ++ some job ∷ [];
}

unfoldable pub enqueue_inline_batch : List Account → Config → Job → Queue → Request BatchResult
enqueue_inline_batch accounts config job queue =
    Effects.◌>>◌ (reject_if_user_cooldown_active queue config job.user_id job.reason)
      (execute_batch_job accounts config job)

unfoldable pub enqueue_inline_device :
    List Account → Config → String → Job → Queue → Request DeviceResult
enqueue_inline_device accounts config mqtt_device_id job queue =
    Effects.◌>>◌ (reject_if_device_cooldown_active queue config mqtt_device_id) (
      Effects.◌>>◌ (reject_if_user_batch_in_flight queue config job.user_id)
        (execute_device_job accounts config job))

-- the part behind the test of `inline_processing`
unfoldable pub enqueue_for_worker_batch :
    Config → Account → List Device → String → Queue → Action BatchResult
enqueue_for_worker_batch config user devices reason queue = do
  requested_at ← lift read_clock
  lift (reject_if_user_cooldown_active queue config user.username reason)
  set_queue (accept_batch user.username requested_at (batch_job user.username reason) queue)
  return (record {
    user_id = user.username;
    device_ids = map (mqtt_device_id_for_device user) devices;
    requested_at = requested_at;
    cooldown_until = requested_at + seconds (user_cooldown_seconds_for_reason config reason);
    reason = reason;
  })

unfoldable pub enqueue_for_worker_device :
    Config → Account → Device → String → Queue → Action DeviceResult
enqueue_for_worker_device config user d reason queue = do
  requested_at ← lift read_clock
  let id = mqtt_device_id_for_device user d
  let cooldown_until = requested_at + seconds config.device_cooldown
  lift (reject_if_device_cooldown_active queue config id)
  lift (reject_if_user_batch_in_flight queue config user.username)
  set_queue (accept_device id cooldown_until (device_job user.username reason d id) queue)
  return (record {
    user_id = user.username;
    device_id = id;
    requested_at = requested_at;
    cooldown_until = cooldown_until;
    reason = reason;
  })

unfoldable pub enqueue_batch_location_request :
    List Account → Config → String → String → Action BatchResult
enqueue_batch_location_request accounts config user_id reason = do
  lift (validate_reason reason)
  user ← lift (active_user accounts user_id)
  devices ← lift (require_devices user user.devices)
  queue ← queue_now
  (if queue.inline_processing
      then lift (enqueue_inline_batch accounts config (batch_job user.username reason) queue)
      else enqueue_for_worker_batch config user devices reason queue)

unfoldable pub enqueue_device_location_request :
    List Account → Config → String → String → String → Action DeviceResult
enqueue_device_location_request accounts config user_id device_id reason = do
  lift (validate_reason reason)
  user ← lift (active_user accounts user_id)
  d ← lift (require_device user (device_for_user user device_id))
  queue ← queue_now
  let id = mqtt_device_id_for_device user d
  (if queue.inline_processing
      then lift
          (enqueue_inline_device accounts config id (device_job user.username reason d id) queue)
      else enqueue_for_worker_device config user d reason queue)

abbrev pub clear_pending_device : Option String → Queue → Queue
clear_pending_device none queue = queue
clear_pending_device (some id) queue = record queue {
  pending_device_cooldown_until = pop queue.pending_device_cooldown_until id;
  pending_device_in_flight = pop queue.pending_device_in_flight id;
}

abbrev pub clear_pending_of : Kind → Job → Queue → Queue
clear_pending_of batch job queue = record queue {
  pending_user_requested_at = pop queue.pending_user_requested_at job.user_id;
  pending_user_in_flight = pop queue.pending_user_in_flight job.user_id;
}
clear_pending_of device job queue = clear_pending_device job.mqtt_device_id queue

unfoldable pub clear_pending_for_job : Job → Queue → Queue
clear_pending_for_job job = clear_pending_of job.kind job
