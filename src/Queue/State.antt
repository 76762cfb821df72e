-- ===== src/Queue/State.antt =====
-- The state of the queue and of its worker thread, and actions over it and the request's world.
use my_tracks.Base.{ℕ, String, Option, none, some, List, Bool, true, false}
use my_tracks.Base.Table.{Table, get}
use my_tracks.Requests.Effects.{World, Outcome, ok, raised, Request}

pub data Kind : Type 0 where
  batch device : Kind

pub record Job : Type 0 where
  pub kind : Kind
  pub user_id : String
  pub reason : String
  pub device_id : Option String
  pub mqtt_device_id : Option String

-- Where the worker thread stands in `_worker_loop`: blocked in `jobs.get()`, in the `try` block of a
-- job, in front of its `finally` block, or returned. `absent` is `thread is None`.
pub data Worker : Type 0 where
  absent idle exited : Worker
  running finishing : Job → Worker

-- A set of texts is a table without values; `None` in `jobs` is the sentinel that stops the worker.
pub record Queue : Type 0 where
  pub jobs : List (Option Job)
  pub inline_processing : Bool
  pub started : Bool
  pub pending_user_requested_at : Table ℕ
  pub pending_user_in_flight : Table (Unit {0})
  pub pending_device_cooldown_until : Table ℕ
  pub pending_device_in_flight : Table (Unit {0})
  pub worker : Worker

abbrev pub holds {ℓ} : {V : Type ℓ} → Option V → Bool
holds none = false
holds (some v) = true

abbrev pub contains {ℓ} : {V : Type ℓ} → Table V → String → Bool
contains table key = holds (get table key)

pub record Service : Type 0 where
  pub queue : Queue
  pub world : World

abbrev pub Action : Type 0 → Type 0
Action A = Service → Outcome A × Service

abbrev pub and_then : {A B : Type 0} → (A → Action B) → Outcome A × Service → Outcome B × Service
and_then k (ok a, s) = k a s
and_then k (raised e, s) = (raised e, s)

infixl 5 ◌>>=◌ ◌>>◌
abbrev pub ◌>>=◌ : {A B : Type 0} → Action A → (A → Action B) → Action B
◌>>=◌ m k s = and_then k (m s)

abbrev pub ◌>>◌ : {B : Type 0} → Action (Unit {0}) → Action B → Action B
m >> k = m >>= λ _. k

abbrev pub return : {A : Type 0} → A → Action A
return a s = (ok a, s)

-- An action that does not touch the queue.
abbrev pub with_queue : {A : Type 0} → Queue → Outcome A × World → Outcome A × Service
with_queue queue (out, w) = (out, record { queue = queue; world = w })

abbrev pub lift : {A : Type 0} → Request A → Action A
lift m s = with_queue s.queue (m s.world)

abbrev pub queue_now : Action Queue
queue_now s = (ok s.queue, s)

abbrev pub set_queue : Queue → Action (Unit {0})
set_queue queue s = (ok tt, record s { queue = queue })
