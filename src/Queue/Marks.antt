-- ===== src/Queue/Marks.antt =====
-- What the two `enqueue_…` handlers write for an accepted job.
use my_tracks.Base.Table.{Table, get, put, get-put}
use my_tracks.Base.{
  ℕ, String, Option, none, some, [], ◌∷◌, ◌++◌, Bool, true, false, ◌||◌, ◌==◌, compared_texts,
  if◌then◌else◌, ◌≡◌, refl,
}
use my_tracks.Requests.{Device}
use my_tracks.Queue.{batch_job, device_job, accept_batch, accept_device}
use my_tracks.Queue.State.{batch, device, holds, Queue, contains}

holds_chosen :
    {A : Type 0} (b : Bool) (value : A) (o : Option A)
    → holds (if b then some value else o) ≡ (b || holds o)
holds_chosen true value o = refl
holds_chosen false value o = refl

contains-put :
    {A : Type 0} (table : Table A) (name key : String) (value : A)
    → contains (put table name value) key ≡ (name == key || contains table key)
contains-put table name key value =
    rw (get-put table name key value) (holds_chosen (name == key) value (get table key))

-- What a queued batch has written: one job at the end, an instant and a mark for the user.
pub record BatchMarks (name reason : String) (requested_at : ℕ) (queue after : Queue) : Type 0 where
  pub written : after ≡ record queue {
    pending_user_requested_at = put queue.pending_user_requested_at name requested_at;
    pending_user_in_flight = put queue.pending_user_in_flight name tt;
    jobs =
        queue.jobs
        ++ some (record {
          kind = batch;
          user_id = name;
          reason = reason;
          device_id = none;
          mqtt_device_id = none;
        })
          ∷ [];
  }
  pub requested :
      (key : String)
      → get after.pending_user_requested_at key
        ≡ (if name == key then some requested_at else get queue.pending_user_requested_at key)
  pub flying :
      (key : String)
      → contains after.pending_user_in_flight key
        ≡ (name == key || contains queue.pending_user_in_flight key)

pub accept_batch-BatchMarks :
    (name reason : String) (requested_at : ℕ) (queue : Queue)
    → BatchMarks name reason requested_at queue
        (accept_batch name requested_at (batch_job name reason) queue)
unfolding accept_batch
accept_batch-BatchMarks name reason requested_at queue = record {
  written = refl;
  requested = λ key. get-put queue.pending_user_requested_at name key requested_at;
  flying = λ key. contains-put queue.pending_user_in_flight name key tt;
}

-- What a queued device request has written: one job at the end, an end of cooldown and a mark for the
-- device.
pub record DeviceMarks (name reason : String) (d : Device) (id : String) (cooldown_until : ℕ)
    (queue after : Queue) : Type 0 where
  pub written : after ≡ record queue {
    pending_device_cooldown_until = put queue.pending_device_cooldown_until id cooldown_until;
    pending_device_in_flight = put queue.pending_device_in_flight id tt;
    jobs =
        queue.jobs
        ++ some (record {
          kind = device;
          user_id = name;
          reason = reason;
          device_id = some d.device_id;
          mqtt_device_id = some id;
        })
          ∷ [];
  }
  pub until :
      (key : String)
      → get after.pending_device_cooldown_until key
        ≡ (if id == key then some cooldown_until else get queue.pending_device_cooldown_until key)
  pub flying :
      (key : String)
      → contains after.pending_device_in_flight key
        ≡ (id == key || contains queue.pending_device_in_flight key)

pub accept_device-DeviceMarks :
    (name reason : String) (d : Device) (id : String) (cooldown_until : ℕ) (queue : Queue)
    → DeviceMarks name reason d id cooldown_until queue
        (accept_device id cooldown_until (device_job name reason d id) queue)
unfolding accept_device
accept_device-DeviceMarks name reason d id cooldown_until queue = record {
  written = refl;
  until = λ key. get-put queue.pending_device_cooldown_until id key cooldown_until;
  flying = λ key. contains-put queue.pending_device_in_flight id key tt;
}
