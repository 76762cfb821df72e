-- ===== src/Queue/EnqueueDevice.antt =====
-- What `enqueue_device_location_request` does to the queue.
use my_tracks.Base.{
  compared_texts, ℕ, ◌+◌, String, Option, none, some, List, Bool, true, false, if◌then◌else◌, ◌≡◌,
  refl, arith, inl, inr, Bool-cases, Option-cases, if-cases,
}
use my_tracks.Text.{strip}
use my_tracks.Requests.{
  Account, Device, DeviceResult, mqtt_device_id_for_device, device_for_user, is_valid_reason,
  find_active, require_device,
}
use my_tracks.Requests.Settings.{Config, seconds}
use my_tracks.Requests.Effects.{World, Outcome, ok, raised, RequestError}
use my_tracks.Requests.Effects.{and_then as then_request}
use my_tracks.Requests.Checks.{
  validate_reason-true, validate_reason-false, active_user-some, active_user-none,
}
use my_tracks.Requests.Batch.{bad_request, not_found, conflict}
use my_tracks.Requests.Single.{DeviceEffect, request_single_device_location-Effect}
use my_tracks.Queue.{
  device_job, accept_device, execute_device_job, enqueue_inline_device, enqueue_for_worker_device,
  enqueue_device_location_request, reject_if_user_batch_in_flight,
}
use my_tracks.Queue.Marks.{DeviceMarks, accept_device-DeviceMarks}
use my_tracks.Queue.State.{
  Job, contains, Service, Action, ◌>>=◌, ◌>>◌, return, and_then, with_queue, lift, set_queue,
  queue_now,
}
use my_tracks.Queue.Rejections.{
  SameWorld, SameWorld-trans, Checked, passed, refused, reject_if_user_batch_in_flight-Checked,
  reject_if_device_cooldown_active-Checked,
}
use my_tracks.Queue.Enqueue.{IsAnswer, by_check, unavailable}

pub data DeviceQueued (accounts : List Account) (config : Config)
    (user_id device_id reason : String) (s : Service)
    : Outcome DeviceResult → Service → Type 0 where
  not_queued :
      {s' : Service} (e : RequestError)
      → IsAnswer e.status_code
      → s'.queue ≡ s.queue
      → DeviceQueued accounts config user_id device_id reason s (raised e) s'
  done_inline :
      {s' : Service} (r : DeviceResult)
      → s.queue.inline_processing ≡ true
      → s'.queue ≡ s.queue
      → DeviceQueued accounts config user_id device_id reason s (ok r) s'
  queued :
      {s' : Service} (user : Account) (d : Device) (r : DeviceResult)
      → s.queue.inline_processing ≡ false
      → find_active accounts (strip user_id) ≡ some user
      → device_for_user user device_id ≡ some d
      → contains s.queue.pending_device_in_flight (mqtt_device_id_for_device user d) ≡ false
      → contains s.queue.pending_user_in_flight user.username ≡ false
      → r.cooldown_until ≡ r.requested_at + seconds config.device_cooldown
      → DeviceMarks user.username reason d
          (mqtt_device_id_for_device user d)
          r.cooldown_until
          s.queue
          s'.queue
      → SameWorld s.world s'.world
      → DeviceQueued accounts config user_id device_id reason s (ok r) s'

module _ (accounts : List Account) (config : Config) (user_id device_id reason : String)
    (s : Service) where
  abbrev DeviceOf : Outcome DeviceResult × Service → Type 0
  DeviceOf result = DeviceQueued accounts config user_id device_id reason s result.0 result.1

  inline_run-DeviceQueued :
      (name id : String) (inline : s.queue.inline_processing ≡ true) (w w' : World)
      (out : Outcome DeviceResult)
      → DeviceEffect accounts config name id reason w out w'
      → DeviceOf (with_queue s.queue (out, w'))
  inline_run-DeviceQueued name id inline w w' _ (DeviceEffect.refused e status _ _) =
      not_queued e (by_check status) refl
  inline_run-DeviceQueued name id inline w w' _
        (DeviceEffect.fulfilled _ _ _ _ _ _ _ _ _ _ _ _ _ _) =
      done_inline _ inline refl
  inline_run-DeviceQueued name id inline w w' _ (DeviceEffect.unsent _ _ e status _ _ _ _ _) =
      not_queued e (rw status unavailable) refl

  module _ (user : Account) (d : Device) where
    abbrev id : String
    id = mqtt_device_id_for_device user d

    abbrev job : Job
    job = device_job user.username reason d id

    inline_device-DeviceQueued :
        (inline : s.queue.inline_processing ≡ true) (flying : Bool) (w₁ : World)
        (out : Outcome (Unit {0})) (w' : World)
        → Checked flying w₁ out w'
        → DeviceOf (
            with_queue s.queue
              (then_request (λ _. execute_device_job accounts config job) (out, w')))
    unfolding execute_device_job
    inline_device-DeviceQueued inline flying w₁ _ w' (passed free same) =
        inline_run-DeviceQueued user.username d.device_id inline w' _ _ (
          request_single_device_location-Effect accounts config user.username d.device_id reason w')
    inline_device-DeviceQueued inline flying w₁ _ w' (refused e status same) =
        not_queued e (rw status (by_check conflict)) refl

    inline_landed-DeviceQueued :
        (inline : s.queue.inline_processing ≡ true) (flying : Bool) (out : Outcome (Unit {0}))
        (w' : World)
        → Checked flying s.world out w'
        → DeviceOf (
            with_queue s.queue (
              then_request
                (λ _ v.
                  then_request
                    (λ _. execute_device_job accounts config job)
                    (reject_if_user_batch_in_flight s.queue config user.username v))
                (out, w')))
    inline_landed-DeviceQueued inline flying _ w' (passed free same) =
        inline_device-DeviceQueued inline _ w' _ _
          (reject_if_user_batch_in_flight-Checked s.queue config w' user.username)
    inline_landed-DeviceQueued inline flying _ w' (refused e status same) =
        not_queued e (rw status (by_check conflict)) refl

    module _ (found : find_active accounts (strip user_id) ≡ some user)
        (owned : device_for_user user device_id ≡ some d)
        (background : s.queue.inline_processing ≡ false) where
      abbrev device_result : ℕ → DeviceResult
      device_result t = record {
        user_id = user.username;
        device_id = id;
        requested_at = t;
        cooldown_until = t + seconds config.device_cooldown;
        reason = reason;
      }

      abbrev accept : ℕ → Action DeviceResult
      accept t =
          set_queue (accept_device id (t + seconds config.device_cooldown) job s.queue)
          >> return (device_result t)

      accepted-DeviceQueued :
          (t : ℕ) (w₁ w' : World) (out : Outcome (Unit {0}))
          → contains s.queue.pending_device_in_flight id ≡ false
          → SameWorld s.world w₁
          → Checked (contains s.queue.pending_user_in_flight user.username) w₁ out w'
          → DeviceOf (and_then (λ _. accept t) (with_queue s.queue (out, w')))
      accepted-DeviceQueued t w₁ w' _ idle same (passed free kept) =
          queued user d (device_result t) background found owned idle free refl
            (accept_device-DeviceMarks user.username reason d id
              (t + seconds config.device_cooldown) s.queue)
            (SameWorld-trans same kept)
      accepted-DeviceQueued t w₁ w' _ idle same (refused e status kept) =
          not_queued e (rw status (by_check conflict)) refl

      landed-DeviceQueued :
          (t : ℕ) (w₁ w' : World) (out : Outcome (Unit {0}))
          → SameWorld s.world w₁
          → Checked (contains s.queue.pending_device_in_flight id) w₁ out w'
          → DeviceOf (
              and_then
                (λ _.
                  lift (reject_if_user_batch_in_flight s.queue config user.username) >> accept t)
                (with_queue s.queue (out, w')))
      landed-DeviceQueued t w₁ w' _ same (passed idle kept) =
          accepted-DeviceQueued t w' _ _ idle (SameWorld-trans same kept)
            (reject_if_user_batch_in_flight-Checked s.queue config w' user.username)
      landed-DeviceQueued t w₁ w' _ same (refused e status kept) =
          not_queued e (rw status (by_check conflict)) refl

    choice-DeviceQueued :
        find_active accounts (strip user_id) ≡ some user
        → device_for_user user device_id ≡ some d
        → DeviceOf (
            (if s.queue.inline_processing
                then lift (enqueue_inline_device accounts config id job s.queue)
                else enqueue_for_worker_device config user d reason s.queue)
              s)
    unfolding enqueue_inline_device enqueue_for_worker_device
    choice-DeviceQueued found owned =
        if-cases {A = Action DeviceResult} (λ m. DeviceOf (m s)) s.queue.inline_processing
          (λ inline.
            inline_landed-DeviceQueued inline _ _ _
              (reject_if_device_cooldown_active-Checked s.queue config s.world id))
          (λ background.
            landed-DeviceQueued found owned background _ _ _ _ (ground arith)
              (reject_if_device_cooldown_active-Checked s.queue config _ id))

  abbrev sought_device : Account → Option Device → Action DeviceResult
  sought_device user sought = do
    d ← lift (require_device user sought)
    queue ← queue_now
    let id = mqtt_device_id_for_device user d
    (if queue.inline_processing
        then lift
            (enqueue_inline_device accounts config id (device_job user.username reason d id) queue)
        else enqueue_for_worker_device config user d reason queue)

  sought-DeviceQueued :
      (user : Account) (sought : Option Device)
      → find_active accounts (strip user_id) ≡ some user
      → device_for_user user device_id ≡ sought
      → DeviceOf (sought_device user sought s)
  sought-DeviceQueued user none found owned = not_queued _ (by_check not_found) refl
  sought-DeviceQueued user (some d) found owned = choice-DeviceQueued user d found owned

-- A call of `enqueue_device_location_request` ends in one of three ways. It is answered with 400, 404,
-- 409 or 503, and the queue has not changed. Or the job was run in place, which only happens under
-- inline processing, and the queue has not changed either. Or neither the device nor its owner's
-- batch was in flight: the device is put in flight with the end of cooldown that the result states,
-- one job for it is put at the end of the queue, and neither the row nor the wire has changed.
pub enqueue_device_location_request-DeviceQueued :
    (accounts : List Account) (config : Config) (user_id device_id reason : String) (s : Service)
    → DeviceQueued accounts config user_id device_id reason s
        (enqueue_device_location_request accounts config user_id device_id reason s).0
        (enqueue_device_location_request accounts config user_id device_id reason s).1
unfolding enqueue_device_location_request
enqueue_device_location_request-DeviceQueued accounts config user_id device_id reason s =
    elim (Bool-cases (is_valid_reason reason)) [
      | inr invalid ↦
          rw (validate_reason-false reason s.world invalid)
            (not_queued _ (by_check bad_request) refl)
      | inl valid ↦ elim (Option-cases (find_active accounts (strip user_id))) [
        | inl unknown ↦
            rw
              (
                validate_reason-true reason s.world valid,
                active_user-none accounts user_id s.world unknown,
              )
              (not_queued _ (by_check not_found) refl)
        | inr (user, found) ↦
            rw
              (
                validate_reason-true reason s.world valid,
                active_user-some accounts user_id s.world user found,
              )
              (sought-DeviceQueued accounts config user_id device_id reason s user _ found refl)
      ]
    ]
