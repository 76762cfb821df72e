-- ===== src/Queue/Invariant.antt =====
-- Every step keeps the books of the queue.
use my_tracks.Base.{
  ℕ, ◌+◌, String, Option, none, some, List, Bool, true, false, ◌==◌, compared_texts, if◌then◌else◌,
  ◌≡◌, refl, arith, ap, sym, ◌∙◌,
}
use my_tracks.Requests.{Device}
use my_tracks.Queue.{
  accept_batch, accept_device, batch_job, device_job, clear_pending_device, clear_pending_of,
  clear_pending_for_job,
}
use my_tracks.Queue.State.{
  Kind, batch, device, Job, Worker, absent, idle, finishing, Queue, contains,
}
use my_tracks.Queue.Books.{
  bit, batch_for, device_for, is_batch_for, is_job_for_device, count, in_worker, open_jobs,
  open_jobs-append, IsConsistent, contains-put, contains-pop, same_key, raised_bit, lowered_bit,
}

module _ (queue : Queue) (c : IsConsistent queue) where
  pub accept_batch-IsConsistent :
      (user_id reason : String) (t : ℕ)
      → contains queue.pending_user_in_flight user_id ≡ false
      → IsConsistent (accept_batch user_id t (batch_job user_id reason) queue)
  unfolding accept_batch
  accept_batch-IsConsistent user_id reason t free = record {
    timed = λ u.
        contains-put _ user_id u t
        ∙ ap (λ b. if user_id == u then true else b) (c.timed u)
        ∙ sym (contains-put _ user_id u tt);
    timed_device = c.timed_device;
    one_batch = λ u.
        open_jobs-append (is_batch_for u) queue.worker queue.jobs (batch_job user_id reason)
        ∙ raised_bit _ (user_id == u) _ (c.one_batch u) (λ e. sym (same_key _ user_id u e) ∙ free)
        ∙ ap bit (sym (contains-put _ user_id u tt));
    one_device = λ id. omega (
      arith,
      open_jobs-append (is_job_for_device id) queue.worker queue.jobs (batch_job user_id reason),
      c.one_device id,
    );
    unstarted = c.unstarted;
  }

  pub accept_device-IsConsistent :
      (user_id reason id : String) (until : ℕ) (d : Device)
      → contains queue.pending_device_in_flight id ≡ false
      → IsConsistent (accept_device id until (device_job user_id reason d id) queue)
  unfolding accept_device
  accept_device-IsConsistent user_id reason id until d free = record {
    timed = c.timed;
    timed_device = λ k.
        contains-put _ id k until
        ∙ ap (λ b. if id == k then true else b) (c.timed_device k)
        ∙ sym (contains-put _ id k tt);
    one_batch = λ u. omega (
      arith,
      open_jobs-append (is_batch_for u) queue.worker queue.jobs (device_job user_id reason d id),
      c.one_batch u,
    );
    one_device = λ k.
        open_jobs-append (is_job_for_device k) queue.worker queue.jobs
          (device_job user_id reason d id)
        ∙ raised_bit _ (id == k) _ (c.one_device k) (λ e. sym (same_key _ id k e) ∙ free)
        ∙ ap bit (sym (contains-put _ id k tt));
    unstarted = c.unstarted;
  }

  -- A change of the jobs and the worker that leaves the same jobs open.
  pub moved-IsConsistent :
      (jobs : List (Option Job)) (started : Bool) (worker : Worker)
      → ((p : Job → Bool) → in_worker p worker + count p jobs ≡ open_jobs p queue)
      → (started ≡ false → worker ≡ absent)
      → IsConsistent (record queue { jobs = jobs; started = started; worker = worker })
  moved-IsConsistent jobs started worker same unstarted = record {
    timed = c.timed;
    timed_device = c.timed_device;
    one_batch = λ u. same (is_batch_for u) ∙ c.one_batch u;
    one_device = λ id. same (is_job_for_device id) ∙ c.one_device id;
    unstarted = unstarted;
  }

  -- What is open, while the worker is in front of the `finally` block of `job`.
  worker_count :
      {job : Job} (p : Job → Bool) (held : Bool)
      → queue.worker ≡ finishing job
      → open_jobs p queue ≡ bit held
      → bit (p job) + count p queue.jobs ≡ bit held
  worker_count p held working e = ap (λ w. in_worker p w + count p queue.jobs) (sym working) ∙ e

  no_batch :
      (job : Job)
      → job.kind ≡ device
      → queue.worker ≡ finishing job
      → (u : String)
      → 0 + count (is_batch_for u) queue.jobs ≡ bit (contains queue.pending_user_in_flight u)
  no_batch job k working u =
      let counted = worker_count (is_batch_for u) _ working (c.one_batch u) in
      let other = ap (λ z. bit (batch_for z job.user_id u)) k in omega (arith, counted, other)

  not_started : {job : Job} → queue.worker ≡ finishing job → ¬ (queue.started ≡ false)
  not_started working never = (let same = sym working ∙ c.unstarted never in cc)

  -- The job's kind decides which of the two counts it is in.
  clear_pending_device-IsConsistent :
      (sought : Option String) (job : Job)
      → job.kind ≡ device
      → job.mqtt_device_id ≡ sought
      → queue.worker ≡ finishing job
      → IsConsistent (record (clear_pending_device sought queue) { worker = idle })
  clear_pending_device-IsConsistent none job k id_same working = record {
    timed = c.timed;
    timed_device = c.timed_device;
    one_batch = λ u. no_batch job k working u;
    one_device = λ id.
        (let counted = worker_count (is_job_for_device id) _ working (c.one_device id) in
          let none_of =
            ap (λ z. bit (device_for z job.mqtt_device_id id)) k
            ∙ ap (λ z. bit (device_for device z id)) id_same in
          omega (arith, counted, none_of));
    unstarted = λ never. absurd (not_started working never);
  }
  clear_pending_device-IsConsistent (some own) job k id_same working = record {
    timed = c.timed;
    timed_device = λ id.
        contains-pop _ own id
        ∙ ap (λ b. if own == id then false else b) (c.timed_device id)
        ∙ sym (contains-pop _ own id);
    one_batch = λ u. no_batch job k working u;
    one_device = λ id.
        (let counted = worker_count (is_job_for_device id) _ working (c.one_device id) in
          let of_kind =
            ap
              (λ z.
                bit (device_for z job.mqtt_device_id id) + count (is_job_for_device id) queue.jobs)
              (sym k) in
          let of_id =
            ap (λ z. bit (device_for device z id) + count (is_job_for_device id) queue.jobs)
              (sym id_same) in
          let lowered = lowered_bit _ (own == id) _ (of_id ∙ of_kind ∙ counted) in
          omega (arith, lowered) ∙ ap bit (sym (contains-pop _ own id)));
    unstarted = λ never. absurd (not_started working never);
  }

  clear_pending_of-IsConsistent :
      (kind : Kind) (job : Job)
      → job.kind ≡ kind
      → queue.worker ≡ finishing job
      → IsConsistent (record (clear_pending_of kind job queue) { worker = idle })
  clear_pending_of-IsConsistent batch job k working = record {
    timed = λ u.
        contains-pop _ job.user_id u
        ∙ ap (λ b. if job.user_id == u then false else b) (c.timed u)
        ∙ sym (contains-pop _ job.user_id u);
    timed_device = c.timed_device;
    one_batch = λ u.
        (let counted = worker_count (is_batch_for u) _ working (c.one_batch u) in
          let own =
            ap (λ z. bit (batch_for z job.user_id u) + count (is_batch_for u) queue.jobs) (sym k) in
          let lowered = lowered_bit _ (job.user_id == u) _ (own ∙ counted) in
          omega (arith, lowered) ∙ ap bit (sym (contains-pop _ job.user_id u)));
    one_device = λ id.
        (let counted = worker_count (is_job_for_device id) _ working (c.one_device id) in
          let other = ap (λ z. bit (device_for z job.mqtt_device_id id)) k in
          omega (arith, counted, other));
    unstarted = λ never. absurd (not_started working never);
  }
  clear_pending_of-IsConsistent device job k working =
      clear_pending_device-IsConsistent job.mqtt_device_id job k refl working

  pub clear_pending-IsConsistent :
      (job : Job)
      → queue.worker ≡ finishing job
      → IsConsistent (record (clear_pending_for_job job queue) { worker = idle })
  unfolding clear_pending_for_job
  clear_pending-IsConsistent job working = clear_pending_of-IsConsistent job.kind job refl working
