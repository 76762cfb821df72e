-- ===== src/Queue/Drain.antt =====
-- The worker, left alone with the jobs that are queued: _worker_loop of
-- app/domesti_location_request_queue.py.
use my_tracks.Base.{String, Option, none, some, List, [], ◌∷◌, map, false, ◌≡◌, refl, ap}
use my_tracks.Requests.{Account, request_all_devices_location, request_single_device_location}
use my_tracks.Requests.Effects.{World}
use my_tracks.Queue.{
  clear_pending_device, clear_pending_of, clear_pending_for_job, execute_batch_job,
  execute_device_job,
}
use my_tracks.Queue.State.{
  Kind, batch, device, Job, idle, running, finishing, Queue, Service, contains,
}
use my_tracks.Queue.Steps.{Step, Reach, next, take, process, finish, process_of, process_job}
use my_tracks.Queue.Promises.{quiet-Reach}

-- What a job does to the world: the request that it stands for, with the row of the moment. A device job
-- that names no device does nothing.
abbrev pub request_of_kind : Kind → Option String → List Account → Job → World → World
request_of_kind batch device_id accounts job w =
    (request_all_devices_location accounts w.row job.user_id job.reason w).1
request_of_kind device (some device_id) accounts job w =
    (request_single_device_location accounts w.row job.user_id device_id job.reason w).1
request_of_kind device none accounts job w = w

abbrev pub requested : List Account → Job → World → World
requested accounts job w = request_of_kind job.kind job.device_id accounts job w

process_of-request_of_kind :
    (kind : Kind) (device_id : Option String) (accounts : List Account) (job : Job) (w : World)
    → job.device_id ≡ device_id
    → process_of kind accounts job w ≡ request_of_kind kind device_id accounts job w
unfolding execute_batch_job execute_device_job
process_of-request_of_kind batch device_id accounts job w e = refl
process_of-request_of_kind device none accounts job w e = rw e refl
process_of-request_of_kind device (some id) accounts job w e = rw e refl

process_job-requested :
    (accounts : List Account) (job : Job) (w : World)
    → process_job accounts job w ≡ requested accounts job w
unfolding process_job
process_job-requested accounts job w =
    process_of-request_of_kind job.kind job.device_id accounts job w refl

-- One round of the loop, in three steps: the first job of the queue is taken, its request is run, and
-- the worker waits again with the other jobs.
pub record Round (accounts : List Account) (job : Job) (s t : Service) : Type 0 where
  pub taken : Service
  pub processed : Service
  pub take_step : Step s taken
  pub was_idle : s.queue.worker ≡ idle
  pub was_first : s.queue.jobs ≡ some job ∷ taken.queue.jobs
  pub is_running : taken.queue.worker ≡ running job
  pub untouched : taken.world ≡ s.world
  pub process_step : Step taken processed
  pub is_finishing : processed.queue.worker ≡ finishing job
  pub request_run : processed.world ≡ requested accounts job taken.world
  pub rest_kept : processed.queue.jobs ≡ taken.queue.jobs
  pub finish_step : Step processed t
  pub is_idle : t.queue.worker ≡ idle
  pub world_kept : t.world ≡ processed.world
  pub jobs_kept : t.queue.jobs ≡ processed.queue.jobs

-- A round for each job, in order, and nothing else.
pub data Rounds (accounts : List Account) : List Job → Service → Service → Type 0 where
  over : {s : Service} → Rounds accounts [] s s
  round :
      {s middle t : Service} {job : Job} {jobs : List Job}
      → Round accounts job s middle
      → Rounds accounts jobs middle t
      → Rounds accounts (job ∷ jobs) s t

clear_pending_of-jobs :
    (kind : Kind) (job : Job) (sought : Option String) (queue : Queue)
    → job.mqtt_device_id ≡ sought
    → (clear_pending_of kind job queue).jobs ≡ queue.jobs
clear_pending_of-jobs batch job sought queue e = refl
clear_pending_of-jobs device job none queue e = ap (λ o. (clear_pending_device o queue).jobs) e
clear_pending_of-jobs device job (some id) queue e = ap (λ o. (clear_pending_device o queue).jobs) e

-- From every reachable state in which the worker waits and jobs, but no stop, are queued, the worker can
-- run on alone, by one round for each job in the order of the queue, each with the configuration that the
-- one before left. The state in which it then waits has an empty queue, and no user and no device is in
-- flight.
pub drain-Reach :
    {w : World} (accounts : List Account) (jobs : List Job) (s : Service)
    → Reach w s
    → s.queue.worker ≡ idle
    → s.queue.jobs ≡ map some jobs
    → (t : Service) × Rounds accounts jobs s t
      × (t.queue.worker ≡ idle)
      × (t.queue.jobs ≡ [])
      × ((key : String)
          → (contains t.queue.pending_user_in_flight key ≡ false)
            × (contains t.queue.pending_device_in_flight key ≡ false))
unfolding clear_pending_for_job
drain-Reach accounts [] s r free queued =
    (s, over, free, queued, λ key. let q = quiet-Reach r free queued key in (q.0, q.2))
drain-Reach accounts (job ∷ jobs) s r free queued =
    let taken : Service = record s {
      queue = record s.queue { jobs = map some jobs; worker = running job };
    } in
    let processed : Service = record {
      queue = record taken.queue { worker = finishing job };
      world = process_job accounts job taken.world;
    } in
    let take_step : Step s taken = take s job (map some jobs) free queued in
    let process_step : Step taken processed = process accounts taken job refl in
    let finish_step = finish processed job refl in
    let (t, rounds, waits, empty, quiet) =
      drain-Reach accounts jobs _ (next (next (next r take_step) process_step) finish_step) refl
        (clear_pending_of-jobs job.kind job _ _ refl) in
    (
      t,
      round
          (record {
            taken = taken;
            processed = processed;
            take_step = take_step;
            was_idle = free;
            was_first = queued;
            is_running = refl;
            untouched = refl;
            process_step = process_step;
            is_finishing = refl;
            request_run = process_job-requested accounts job taken.world;
            rest_kept = refl;
            finish_step = finish_step;
            is_idle = refl;
            world_kept = refl;
            jobs_kept = clear_pending_of-jobs job.kind job _ _ refl;
          })
          rounds,
      waits,
      empty,
      quiet,
    )
