-- ===== src/Queue/Promises.antt =====
-- What the books of the queue promise its callers.
use my_tracks.Base.{◌≤◌, String, some, List, [], Bool, true, false, ◌≡◌, refl, arith, ap, sym, ◌∙◌}
use my_tracks.Base.Table.{Table}
use mathlib.Core.Option.{some-injective}
use my_tracks.Text.{strip}
use my_tracks.Requests.{Account, BatchResult, DeviceResult, find_active}
use my_tracks.Requests.Settings.{Config}
use my_tracks.Requests.Effects.{World, RequestError, Outcome, raised}
use my_tracks.Queue.{enqueue_batch_location_request, enqueue_device_location_request}
use my_tracks.Queue.State.{Job, idle, Service, contains}
use my_tracks.Queue.Steps.{Reach}
use my_tracks.Queue.Enqueue.{BatchQueued, IsAnswer, enqueue_batch_location_request-BatchQueued}
use my_tracks.Queue.EnqueueDevice.{DeviceQueued, enqueue_device_location_request-DeviceQueued}
use my_tracks.Queue.Books.{bit, is_batch_for, is_job_for_device, open_jobs}
use my_tracks.Queue.Reachable.{Reach-IsConsistent}

bit-zero : (b : Bool) → bit b ≡ 0 → b ≡ false
bit-zero true e = absurd (omega (arith, e))
bit-zero false e = refl

-- In a reachable state in which the worker waits and no job is queued, no user and no device is in
-- flight, and no instant and no end of cooldown is left behind.
pub quiet-Reach :
    {w : World} {s : Service}
    → Reach w s
    → s.queue.worker ≡ idle
    → s.queue.jobs ≡ []
    → (key : String)
    → (contains s.queue.pending_user_in_flight key ≡ false)
      × (contains s.queue.pending_user_requested_at key ≡ false)
      × (contains s.queue.pending_device_in_flight key ≡ false)
      × (contains s.queue.pending_device_cooldown_until key ≡ false)
quiet-Reach {s} r free empty key =
    let c = Reach-IsConsistent r in
    let none_of : (p : Job → Bool) → open_jobs p s.queue ≡ 0 = λ p. rw (free, empty) refl in
    let user = bit-zero _ (sym (c.one_batch key) ∙ none_of (is_batch_for key)) in
    let landed = bit-zero _ (sym (c.one_device key) ∙ none_of (is_job_for_device key)) in
    (user, c.timed key ∙ user, landed, c.timed_device key ∙ landed)

bool_clash : {b : Bool} → b ≡ true → b ≡ false → ¬ (true ≡ true)
bool_clash p q _ = cc

abbrev pub Refused : {A : Type 0} → Service → Outcome A × Service → Type 0
Refused {A} s result =
    (e : RequestError) × (result.0 ≡ raised e) × IsAnswer e.status_code × (result.1.queue ≡ s.queue)

same_account :
    (accounts : List Account) (user_id : String) (flying : Table (Unit {0})) {user other : Account}
    → find_active accounts (strip user_id) ≡ some other
    → find_active accounts (strip user_id) ≡ some user
    → contains flying other.username ≡ false
    → contains flying user.username ≡ false
same_account accounts user_id flying known found free =
    ap (λ a. contains flying a.username) (some-injective _ _ (sym found ∙ known)) ∙ free

batch-Refused :
    {accounts : List Account} {user_id reason : String} {s : Service} (out : Outcome BatchResult)
    (s' : Service) (user : Account)
    → BatchQueued accounts user_id reason s out s'
    → find_active accounts (strip user_id) ≡ some user
    → s.queue.inline_processing ≡ false
    → contains s.queue.pending_user_in_flight user.username ≡ true
    → Refused s (out, s')
batch-Refused _ s' user (BatchQueued.not_queued e status same) found background flying =
    (e, refl, status, same)
batch-Refused _ s' user (BatchQueued.done_inline r in_place same) found background flying =
    absurd (bool_clash in_place background refl)
batch-Refused _ s' user (BatchQueued.queued other r _ known free name same kept) found background
      flying =
    absurd (bool_clash flying (same_account _ _ _ known found free) refl)

device-Refused :
    {accounts : List Account} {config : Config} {user_id device_id reason : String} {s : Service}
    (out : Outcome DeviceResult) (s' : Service) (user : Account)
    → DeviceQueued accounts config user_id device_id reason s out s'
    → find_active accounts (strip user_id) ≡ some user
    → s.queue.inline_processing ≡ false
    → contains s.queue.pending_user_in_flight user.username ≡ true
    → Refused s (out, s')
device-Refused _ s' user (DeviceQueued.not_queued e status same) found background flying =
    (e, refl, status, same)
device-Refused _ s' user (DeviceQueued.done_inline r in_place same) found background flying =
    absurd (bool_clash in_place background refl)
device-Refused _ s' user (DeviceQueued.queued other d r _ known owned landed free until same kept)
      found background flying =
    absurd (bool_clash flying (same_account _ _ _ known found free) refl)

bit-positive : (b : Bool) → 1 ≤ bit b → b ≡ true
bit-positive true h = refl
bit-positive false h = absurd (omega (arith, h))

-- While a batch job of a user is queued or with the worker, in any reachable state without inline
-- processing, every further batch request of that user and every request for one device in that
-- user's name is refused with an ordinary status, and the queue stays as it is.
pub open_batch-Refused :
    {w : World} {s : Service} (user : Account)
    → Reach w s
    → s.queue.inline_processing ≡ false
    → 1 ≤ open_jobs (is_batch_for user.username) s.queue
    → (accounts : List Account) (config : Config) (user_id device_id reason : String)
    → find_active accounts (strip user_id) ≡ some user
    → Refused s (enqueue_batch_location_request accounts config user_id reason s)
      × Refused s (enqueue_device_location_request accounts config user_id device_id reason s)
open_batch-Refused {s} user r background some_open accounts config user_id device_id reason found =
    let c = Reach-IsConsistent r in
    let flying = bit-positive _ (rw (← c.one_batch user.username) some_open) in
    (
      batch-Refused _ _ user
          (enqueue_batch_location_request-BatchQueued accounts config user_id reason s c.timed)
          found background flying,
      device-Refused _ _ user
          (enqueue_device_location_request-DeviceQueued accounts config user_id device_id reason s)
          found background flying,
    )
