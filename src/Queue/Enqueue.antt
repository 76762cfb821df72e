-- ===== src/Queue/Enqueue.antt =====
-- What the two `enqueue_…` handlers do to the queue.
use my_tracks.Base.{
  compared_texts, ℕ, ◌+◌, String, some, List, map, Bool, true, false, if◌then◌else◌, ◌≡◌, refl,
  arith, inl, inr, Bool-cases, Option-cases, List-cases, if-cases,
}
use my_tracks.Text.{strip}
use my_tracks.Requests.{
  Account, Device, BatchResult, mqtt_device_id_for_device, is_valid_reason, find_active,
}
use my_tracks.Requests.Settings.{Config, seconds, user_cooldown_seconds_for_reason}
use my_tracks.Requests.Effects.{World, RequestError, Outcome, ok, raised}
use my_tracks.Requests.Effects.{and_then as then_request}
use my_tracks.Requests.Checks.{
  validate_reason-true, validate_reason-false, active_user-some, active_user-none,
  require_devices_some, require_devices_none,
}
use my_tracks.Requests.Batch.{
  IsRefusal, bad_request, not_found, conflict, BatchEffect, request_all_devices_location-Effect,
}
use my_tracks.Queue.{
  batch_job, accept_batch, execute_batch_job, enqueue_inline_batch, enqueue_for_worker_batch,
  enqueue_batch_location_request,
}
use my_tracks.Queue.Marks.{BatchMarks, accept_batch-BatchMarks}
use my_tracks.Queue.State.{
  Queue, contains, Service, Action, ◌>>◌, return, and_then, with_queue, lift, set_queue,
}
use my_tracks.Queue.Rejections.{
  SameWorld, SameWorld-trans, Checked, passed, refused, reject_if_user_cooldown_active-Checked,
}

-- The statuses that a request can be answered with; a KeyError or a job without its device would be 500.
pub data IsAnswer : ℕ → Type 0 where
  by_check : {status : ℕ} → IsRefusal status → IsAnswer status
  unavailable : IsAnswer 503

-- A user is in flight exactly if there is an instant for it.
abbrev pub IsTimed : Queue → Type 0
IsTimed queue =
    (user_id : String)
    → contains queue.pending_user_requested_at user_id
      ≡ contains queue.pending_user_in_flight user_id

pub data BatchQueued (accounts : List Account) (user_id reason : String) (s : Service)
    : Outcome BatchResult → Service → Type 0 where
  not_queued :
      {s' : Service} (e : RequestError)
      → IsAnswer e.status_code
      → s'.queue ≡ s.queue
      → BatchQueued accounts user_id reason s (raised e) s'
  done_inline :
      {s' : Service} (r : BatchResult)
      → s.queue.inline_processing ≡ true
      → s'.queue ≡ s.queue
      → BatchQueued accounts user_id reason s (ok r) s'
  queued :
      {s' : Service} (user : Account) (r : BatchResult)
      → s.queue.inline_processing ≡ false
      → find_active accounts (strip user_id) ≡ some user
      → contains s.queue.pending_user_in_flight user.username ≡ false
      → r.user_id ≡ user.username
      → BatchMarks user.username reason r.requested_at s.queue s'.queue
      → SameWorld s.world s'.world
      → BatchQueued accounts user_id reason s (ok r) s'

module _ (accounts : List Account) (config : Config) (user_id reason : String) (s : Service) where
  abbrev BatchOf : Outcome BatchResult × Service → Type 0
  BatchOf result = BatchQueued accounts user_id reason s result.0 result.1

  inline_run-BatchQueued :
      (name : String) (inline : s.queue.inline_processing ≡ true) (w w' : World)
      (out : Outcome BatchResult)
      → BatchEffect accounts config name reason w out w'
      → BatchOf (with_queue s.queue (out, w'))
  inline_run-BatchQueued name inline w w' _ (BatchEffect.refused e status _ _) =
      not_queued e (by_check status) refl
  inline_run-BatchQueued name inline w w' _ (BatchEffect.fulfilled _ _ _ _ _ _ _ _ _ _ _ _ _) =
      done_inline _ inline refl
  inline_run-BatchQueued name inline w w' _ (BatchEffect.failed _ e _ _ _ status _ _ _ _ _ _ _) =
      not_queued e (rw status unavailable) refl

  module _ (name : String) where
    inline_batch-BatchQueued :
        (inline : s.queue.inline_processing ≡ true) (flying : Bool) (out : Outcome (Unit {0}))
        (w' : World)
        → Checked flying s.world out w'
        → BatchOf (
            with_queue s.queue (
              then_request
                (λ _. execute_batch_job accounts config (batch_job name reason))
                (out, w')))
    unfolding execute_batch_job
    inline_batch-BatchQueued inline flying _ w' (passed free same) =
        inline_run-BatchQueued name inline w' _ _
          (request_all_devices_location-Effect accounts config name reason w')
    inline_batch-BatchQueued inline flying _ w' (refused e status same) =
        not_queued e (rw status (by_check conflict)) refl

  module _ (user : Account) (devices : List Device)
      (found : find_active accounts (strip user_id) ≡ some user)
      (background : s.queue.inline_processing ≡ false) where
    abbrev batch_result : ℕ → BatchResult
    batch_result t = record {
      user_id = user.username;
      device_ids = map (mqtt_device_id_for_device user) devices;
      requested_at = t;
      cooldown_until = t + seconds (user_cooldown_seconds_for_reason config reason);
      reason = reason;
    }

    accepted-BatchQueued :
        (t : ℕ) (w₁ w' : World) (out : Outcome (Unit {0}))
        → SameWorld s.world w₁
        → Checked (contains s.queue.pending_user_in_flight user.username) w₁ out w'
        → BatchOf (
            and_then
              (λ _.
                set_queue (accept_batch user.username t (batch_job user.username reason) s.queue)
                >> return (batch_result t))
              (with_queue s.queue (out, w')))
    accepted-BatchQueued t w₁ w' _ same (passed free kept) =
        queued user (batch_result t) background found free refl
          (accept_batch-BatchMarks user.username reason t s.queue) (SameWorld-trans same kept)
    accepted-BatchQueued t w₁ w' _ same (refused e status kept) =
        not_queued e (rw status (by_check conflict)) refl

  choice-BatchQueued :
      IsTimed s.queue
      → (user : Account) (devices : List Device) → find_active accounts (strip user_id) ≡ some user
      → BatchOf (
          (if s.queue.inline_processing
              then lift
                  (enqueue_inline_batch accounts config (batch_job user.username reason) s.queue)
              else enqueue_for_worker_batch config user devices reason s.queue)
            s)
  unfolding enqueue_inline_batch enqueue_for_worker_batch
  choice-BatchQueued timed user devices found =
      if-cases {A = Action BatchResult} (λ m. BatchOf (m s)) s.queue.inline_processing
        (λ inline. inline_batch-BatchQueued user.username inline _ _ _ (
          reject_if_user_cooldown_active-Checked s.queue config s.world user.username reason
            (timed user.username)))
        (λ background. accepted-BatchQueued user devices found background _ _ _ _ (ground arith) (
          reject_if_user_cooldown_active-Checked s.queue config _ user.username reason
            (timed user.username)))

-- A call of `enqueue_batch_location_request`, in a state where the users in flight are those with an
-- instant, ends in one of three ways. It is answered with 400, 404, 409 or 503, and the queue has not
-- changed. Or the job was run in place, which only happens under inline processing, and the queue has
-- not changed either. Or the user, an active one that was not in flight, is put in flight with the
-- instant that the result states, one batch job of this user and reason is put at the end of the
-- queue, and neither the row nor the wire has changed.
pub enqueue_batch_location_request-BatchQueued :
    (accounts : List Account) (config : Config) (user_id reason : String) (s : Service)
    → IsTimed s.queue
    → BatchQueued accounts user_id reason s
        (enqueue_batch_location_request accounts config user_id reason s).0
        (enqueue_batch_location_request accounts config user_id reason s).1
unfolding enqueue_batch_location_request
enqueue_batch_location_request-BatchQueued accounts config user_id reason s timed =
    elim (Bool-cases (is_valid_reason reason)) [
      | inr invalid ↦
          rw (validate_reason-false reason s.world invalid)
            (not_queued _ (by_check bad_request) refl)
      | inl valid ↦ elim (Option-cases (find_active accounts (strip user_id))) [
        | inl unknown ↦
            rw
              (
                validate_reason-true reason s.world valid,
                active_user-none accounts user_id s.world unknown,
              )
              (not_queued _ (by_check not_found) refl)
        | inr (user, found) ↦ elim (List-cases user.devices) [
          | inl empty ↦
              rw
                (
                  validate_reason-true reason s.world valid,
                  active_user-some accounts user_id s.world user found,
                  require_devices_none user user.devices s.world empty,
                )
                (not_queued _ (by_check not_found) refl)
          | inr full ↦
              rw
                (
                  validate_reason-true reason s.world valid,
                  active_user-some accounts user_id s.world user found,
                  require_devices_some user user.devices s.world full,
                )
                (choice-BatchQueued accounts config user_id reason s timed user user.devices found)
        ]
      ]
    ]
