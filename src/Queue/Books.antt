-- ===== src/Queue/Books.antt =====
-- The books of the queue: the jobs that are open and the entries kept for them.
use my_tracks.Base.{
  ℕ, ◌+◌, String, Option, none, some, List, [], ◌∷◌, ◌++◌, Bool, true, false, ◌==◌, compared_texts,
  if◌then◌else◌, ◌≡◌, refl, arith, ap, eq_iff,
}
use my_tracks.Base.Table.{Table, put, pop, get-put, get-pop}
use my_tracks.Queue.State.{
  Kind, batch, device, Job, Worker, absent, idle, exited, running, finishing, Queue, contains,
}
use my_tracks.Queue.Enqueue.{IsTimed}

abbrev pub bit : Bool → ℕ
bit true = 1
bit false = 0

abbrev pub batch_for : Kind → String → String → Bool
batch_for batch name user_id = name == user_id
batch_for device name user_id = false

-- The job is the batch of this user.
abbrev pub is_batch_for : String → Job → Bool
is_batch_for user_id job = batch_for job.kind job.user_id user_id

abbrev pub device_for : Kind → Option String → String → Bool
device_for batch sought id = false
device_for device none id = false
device_for device (some sought) id = sought == id

-- The job is for this device alone.
abbrev pub is_job_for_device : String → Job → Bool
is_job_for_device id job = device_for job.kind job.mqtt_device_id id

abbrev pub count : (Job → Bool) → List (Option Job) → ℕ
count p [] = 0
count p (none ∷ rest) = count p rest
count p (some job ∷ rest) = bit (p job) + count p rest

abbrev pub in_worker : (Job → Bool) → Worker → ℕ
in_worker p absent = 0
in_worker p idle = 0
in_worker p exited = 0
in_worker p (running job) = bit (p job)
in_worker p (finishing job) = bit (p job)

-- The jobs that are in the queue or with the worker.
abbrev pub open_jobs : (Job → Bool) → Queue → ℕ
open_jobs p queue = in_worker p queue.worker + count p queue.jobs

pub count-append :
    (p : Job → Bool) (xs ys : List (Option Job)) → count p (xs ++ ys) ≡ count p xs + count p ys
count-append p [] ys = omega arith
count-append p (none ∷ xs) ys = count-append p xs ys
count-append p (some job ∷ xs) ys = omega (arith, count-append p xs ys)

pub record IsConsistent (queue : Queue) : Type 0 where
  pub timed : IsTimed queue
  pub timed_device :
      (id : String)
      → contains queue.pending_device_cooldown_until id ≡ contains queue.pending_device_in_flight id
  pub one_batch :
      (user_id : String)
      → open_jobs (is_batch_for user_id) queue ≡ bit (contains queue.pending_user_in_flight user_id)
  pub one_device :
      (id : String)
      → open_jobs (is_job_for_device id) queue ≡ bit (contains queue.pending_device_in_flight id)
  pub unstarted : queue.started ≡ false → queue.worker ≡ absent

module _ {V : Type 0} (table : Table V) (key other : String) where
  pub contains-put :
      (v : V)
      → contains (put table key v) other ≡ (if key == other then true else contains table other)
  contains-put v = rw (get-put table key other v) (ground arith)

  pub contains-pop :
      contains (pop table key) other ≡ (if key == other then false else contains table other)
  contains-pop = rw (get-pop table key other) (ground arith)

pub same_key :
    (table : Table (Unit {0})) (key other : String)
    → key == other ≡ true
    → contains table key ≡ contains table other
same_key table key other e = ap (λ k. contains table k) ((eq_iff key other).0 e)

-- One more open job for a key that was not in flight, or one less for a key that was.
pub raised_bit :
    (n : ℕ) (b held : Bool)
    → n ≡ bit held
    → (b ≡ true → held ≡ false)
    → n + bit b ≡ bit (if b then true else held)
raised_bit n true held e free = rw (e, free refl) refl
raised_bit n false held e free = omega (arith, e)

pub lowered_bit :
    (n : ℕ) (b held : Bool) → bit b + n ≡ bit held → n ≡ bit (if b then false else held)
lowered_bit n true true e = omega (arith, e)
lowered_bit n true false e = omega (arith, e)
lowered_bit n false held e = omega (arith, e)

pub open_jobs-append :
    (p : Job → Bool) (worker : Worker) (jobs : List (Option Job)) (job : Job)
    → in_worker p worker + count p (jobs ++ some job ∷ [])
      ≡ in_worker p worker + count p jobs + bit (p job)
open_jobs-append p worker jobs job = omega (arith, count-append p jobs (some job ∷ []))
