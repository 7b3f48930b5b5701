-- ===== src/Runtime/Supervised/Bounded.antt =====
-- How much one round of the worker takes on.
use aurelix.Base.{
  ℕ, ◌+◌, ◌≤◌, String, Bool, false, ◌≡◌, refl, subst, sym, arith, Option, none, some, List, [], ◌∷◌,
  ◌++◌, values, ltb, length, length-append, Result, ok, err, Bool-cases, Result-cases, inl, inr,
}
use aurelix.Store.Tables.{
  running, Documents, JobRecord, RuntimeStore, StoreError, lease_lost, job_not_found,
  claimed_concurrently, duplicate_id, wrong_state, heartbeat_runtime,
}
use aurelix.Store.Lease.{claim}
use aurelix.Store.Finish.{complete, complete_unwritable, finish}
use aurelix.Store.Calls.Attempts.{
  total_attempts, NoClaims, Started, claim-Started, complete-total, finish-total, run_calls-total,
}
use aurelix.Runtime.Handlers.{Raised, raised, raised_lease_lost, unwritable}
use aurelix.Runtime.Loop.{message}
use aurelix.Runtime.Queue.{QueuedJob, JobExecution, refresh}
use aurelix.Runtime.Supervised.{
  SupervisedWorker, JobRound, heartbeat, skips, gave_up, gives_up, completed_job, unwritten_job,
  ended, claimed_job, try_job, try_jobs, run_once,
}

-- The executions that the worker's store has seen started.
abbrev pub started : {D : Type 0} → SupervisedWorker D → ℕ
started w = total_attempts w.queue.store.jobs

-- A try that finds `n` jobs processed, in a round that began with `base` executions, adds at most one to
-- both, and keeps the limit of the worker.
abbrev AddsOne :
    {D : Type 0} → ℕ → ℕ → ℕ → Result StoreError (List String) × SupervisedWorker D → Type 0
AddsOne base n limit (err e, w) = started w ≤ base + (n + 1)
AddsOne base n limit (ok done, w) =
    (length done ≤ n + 1) × (w.max_jobs ≡ limit) × (started w ≤ base + length done)

one_more : (job : String) (xs : List String) → length (xs ++ (job ∷ [])) ≡ length xs + 1
one_more job xs = omega (arith, length-append xs (job ∷ []))

-- What the loop keeps: each execution that it started is one of a job that it counts as processed.
abbrev Within : {D : Type 0} → ℕ → ℕ → Result StoreError (List String) × SupervisedWorker D → Type 0
Within base limit (err e, w) = started w ≤ base + limit
Within base limit (ok done, w) =
    (length done ≤ limit) × (w.max_jobs ≡ limit) × (started w ≤ base + length done)

AddsOne-Within :
    {D : Type 0} (base n limit : ℕ) (o : Result StoreError (List String) × SupervisedWorker D)
    → n + 1 ≤ limit
    → AddsOne base n limit o
    → Within base limit o
AddsOne-Within base n limit (err e, w) h a = omega (arith, a, h)
AddsOne-Within base n limit (ok done, w) h a = (omega (arith, a.0, h), a.1, a.2)

Within-ok :
    {D : Type 0} (base limit : ℕ) (done : List String)
    (o : Result StoreError (List String) × SupervisedWorker D)
    → o.0 ≡ ok done
    → Within base limit o
    → (length done ≤ limit) × (o.1.max_jobs ≡ limit) × (started o.1 ≤ base + length done)
Within-ok base limit done (err e, w) h i = absurd (ground (arith, h))
Within-ok base limit done (ok xs, w) h i =
    let same : xs ≡ done = ground (arith, h) in
    subst (λ x. (length x ≤ limit) × (w.max_jobs ≡ limit) × (started w ≤ base + length x)) same i

Within-started :
    {D : Type 0} (base limit : ℕ) (o : Result StoreError (List String) × SupervisedWorker D)
    → Within base limit o
    → started o.1 ≤ base + limit
Within-started base limit (err e, w) i = i
Within-started base limit (ok done, w) i = omega (arith, i.0, i.2)

module _ {D : Type 0} (base : ℕ) (job : QueuedJob) (processed : List String)
    (w : SupervisedWorker D) where
  gave_up-AddsOne :
      (retry : Bool) (describe : StoreError → String)
      (o : Result StoreError (Unit {0}) × RuntimeStore D)
      → total_attempts o.1.jobs ≤ base + (length processed + 1)
      → AddsOne base (length processed) w.max_jobs (gave_up job retry describe processed w o)
  unfolding gave_up
  gave_up-AddsOne retry describe (err lease_lost, s) h =
      let n = one_more job.job_id processed in (omega (arith, n), refl, omega (arith, n, h))
  gave_up-AddsOne retry describe (err job_not_found, s) h = h
  gave_up-AddsOne retry describe (err claimed_concurrently, s) h = h
  gave_up-AddsOne retry describe (err duplicate_id, s) h = h
  gave_up-AddsOne retry describe (err (wrong_state x), s) h = h
  gave_up-AddsOne retry describe (ok u, s) h =
      let n = one_more job.job_id processed in (omega (arith, n), refl, omega (arith, n, h))

module _ {D : Type 0} ⦃docs : Documents D⦄ (repr : String → String) (base : ℕ) where
  gives_up-AddsOne :
      (job : QueuedJob) (error : String) (now : ℕ) (processed : List String)
      (w : SupervisedWorker D)
      → started w ≤ base + (length processed + 1)
      → AddsOne base (length processed) w.max_jobs (gives_up repr job error now processed w)
  unfolding gives_up
  gives_up-AddsOne job error now processed w h =
      let retry = ltb job.attempts w.max_attempts in
      let same =
        finish-total job.job_id false (some error) retry none job.worker_id job.lease_token now
          w.queue.store in
      gave_up-AddsOne base job processed w retry (message repr job.job_id)
        (finish job.job_id false (some error) retry none job.worker_id job.lease_token now
          w.queue.store)
        (omega (arith, same, h))

  completed_job-AddsOne :
      (job : QueuedJob) (now : ℕ) (processed : List String) (w : SupervisedWorker D)
      (o : Result StoreError D × RuntimeStore D)
      → total_attempts o.1.jobs ≤ base + (length processed + 1)
      → AddsOne base (length processed) w.max_jobs (completed_job repr job now processed w o)
  unfolding completed_job
  completed_job-AddsOne job now processed w (ok d, s) h =
      let n = one_more job.job_id processed in (omega (arith, n), refl, omega (arith, n, h))
  completed_job-AddsOne job now processed w (err lease_lost, s) h =
      let n = one_more job.job_id processed in (omega (arith, n), refl, omega (arith, n, h))
  completed_job-AddsOne job now processed w (err job_not_found, s) h =
      gives_up-AddsOne job _ now processed _ h
  completed_job-AddsOne job now processed w (err claimed_concurrently, s) h =
      gives_up-AddsOne job _ now processed _ h
  completed_job-AddsOne job now processed w (err duplicate_id, s) h =
      gives_up-AddsOne job _ now processed _ h
  completed_job-AddsOne job now processed w (err (wrong_state x), s) h =
      gives_up-AddsOne job _ now processed _ h

  unwritten_job-AddsOne :
      (job : QueuedJob) (error : String) (now : ℕ) (processed : List String)
      (w : SupervisedWorker D) (o : Option (Result StoreError (Unit {0})))
      → started w ≤ base + (length processed + 1)
      → AddsOne base (length processed) w.max_jobs (unwritten_job repr job error now processed w o)
  unfolding unwritten_job
  unwritten_job-AddsOne job error now processed w none h =
      gives_up-AddsOne job error now processed w h
  unwritten_job-AddsOne job error now processed w (some (ok u)) h =
      completed_job-AddsOne job now processed w (ok docs.success, w.queue.store) h
  unwritten_job-AddsOne job error now processed w (some (err e)) h =
      completed_job-AddsOne job now processed w (err e, w.queue.store) h

  ended-AddsOne :
      (document : JobExecution D → D) (job : QueuedJob) (now : ℕ) (processed : List String)
      (w : SupervisedWorker D) (outcome : Result Raised (JobExecution D))
      → started w ≤ base + (length processed + 1)
      → AddsOne base (length processed) w.max_jobs (ended repr document job now processed w outcome)
  unfolding ended
  ended-AddsOne document job now processed w (ok result) h =
      let given = some (document result) in
      let same = complete-total job.job_id given job.worker_id job.lease_token now w.queue.store in
      completed_job-AddsOne job now processed w
        (complete job.job_id given job.worker_id job.lease_token now w.queue.store)
        (omega (arith, same, h))
  ended-AddsOne document job now processed w (err (raised_lease_lost error)) h =
      let n = one_more job.job_id processed in (omega (arith, n), refl, omega (arith, n, h))
  ended-AddsOne document job now processed w (err (raised error)) h =
      gives_up-AddsOne job error now processed w h
  ended-AddsOne document job now processed w (err (unwritable error)) h =
      unwritten_job-AddsOne job error now processed w
        (complete_unwritable job.job_id job.worker_id job.lease_token w.queue.store) h

module _ {D : Type 0} ⦃docs : Documents D⦄ (repr : String → String) (document : JobExecution D → D)
    (runner : String → String → RuntimeStore D → Result Raised (JobExecution D)) (base : ℕ) where
  claimed_job-AddsOne :
      (job : QueuedJob) (at : JobRound D) (processed : List String) (w : SupervisedWorker D)
      (o : Result StoreError (Option (JobRecord D)) × RuntimeStore D)
      → NoClaims at.others
      → started w ≤ base + length processed
      → Started w.queue.store o
      → AddsOne base
          (length processed)
          w.max_jobs
          (claimed_job repr document runner job at processed w o)
  unfolding claimed_job
  claimed_job-AddsOne job at processed w (err e, s) alone h c =
      gives_up-AddsOne repr base job _ at.ended_at processed _ (omega (arith, h, c))
  claimed_job-AddsOne job at processed w (ok none, s) alone h c =
      (omega arith, refl, omega (arith, h, c))
  claimed_job-AddsOne job at processed w (ok (some r), s) alone h c =
      let same = run_calls-total at.others s alone in
      ended-AddsOne repr base document
        (record job {
          status = running;
          attempts = r.attempts;
          worker_id = r.worker_id;
          lease_token = r.lease_token;
        })
        at.ended_at processed _ _ (omega (arith, h, c, same))

  try_job-Within :
      (at : JobRound D) (job : QueuedJob) (processed : List String) (w : SupervisedWorker D)
      → NoClaims at.others
      → length processed ≤ w.max_jobs
      → started w ≤ base + length processed
      → Within base w.max_jobs (try_job repr document runner at job processed w)
  unfolding try_job
  try_job-Within at job processed w alone h b = elim (Bool-cases (skips processed job w)) [
    | inl skipped ↦ rw (try_job, skipped) (h, refl, b)
    | inr tried ↦
        rw (try_job, tried)
          (AddsOne-Within base (length processed) w.max_jobs _ (ground (arith, tried)) (
            claimed_job-AddsOne job at processed w
              (claim job.job_id w.max_attempts (some w.worker_id) at.token at.claimed_at
                w.queue.store)
              alone b
              (claim-Started job.job_id w.max_attempts (some w.worker_id) at.token at.claimed_at
                w.queue.store)))
  ]

  try_jobs-Within :
      (at : QueuedJob → JobRound D) (jobs : List QueuedJob) (processed : List String)
      (w : SupervisedWorker D)
      → ((job : QueuedJob) → NoClaims (at job).others)
      → length processed ≤ w.max_jobs
      → started w ≤ base + length processed
      → Within base w.max_jobs (try_jobs repr document runner at jobs processed w)
  unfolding try_jobs
  try_jobs-Within at [] processed w alone h b = (h, refl, b)
  try_jobs-Within at (job ∷ jobs) processed w alone h b =
      let o = try_job repr document runner (at job) job processed w in
      let tried = try_job-Within (at job) job processed w (alone job) h b in
      elim (Result-cases o.0) [
        | inr (e, raised_) ↦ rw (try_jobs, raised_) (Within-started base w.max_jobs o tried)
        | inl (done, went) ↦
            let (few, same, bound) = Within-ok base w.max_jobs done o went tried in
            rw (try_jobs, went)
              (subst (λ m. Within base m (try_jobs repr document runner at jobs done o.1)) same
                (try_jobs-Within at jobs done o.1 alone
                  (subst (λ m. length done ≤ m) (sym same) few) bound))
      ]

module _ {D : Type 0} ⦃docs : Documents D⦄ (repr : String → String) (document : JobExecution D → D)
    (runner : String → String → RuntimeStore D → Result Raised (JobExecution D)) where
  -- Where nothing else claims a job of the store while the worker's jobs run, one round starts at most as
  -- many executions as the configuration allows, and a round that raises no more than that: the attempts
  -- of all jobs together grow by at most `max_jobs`. A round that returns gives at most that many jobs as
  -- processed, and at least one for every execution that it started.
  pub run_once-bounded :
      (now : ℕ) (at : QueuedJob → JobRound D) (w : SupervisedWorker D)
      → ((job : QueuedJob) → NoClaims (at job).others)
      → let o = run_once repr document runner now at w in
        let before = total_attempts w.queue.store.jobs in
        let after = total_attempts o.1.queue.store.jobs in
        (after ≤ before + w.max_jobs)
        × ((done : List String)
            → o.0 ≡ ok done
            → (length done ≤ w.max_jobs) × (after ≤ before + length done))
  unfolding run_once heartbeat refresh heartbeat_runtime
  run_once-bounded now at w alone =
      let o = run_once repr document runner now at w in
      let beaten = heartbeat now w in
      let ready : SupervisedWorker D = record beaten { queue = refresh beaten.queue } in
      let base = total_attempts w.queue.store.jobs in
      let i : Within base w.max_jobs o =
        try_jobs-Within repr document runner base at (values ready.queue.jobs) [] ready alone
          (omega arith) (omega arith) in
      (
        Within-started base w.max_jobs o i,
        λ done h. let all = Within-ok base w.max_jobs done o h i in (all.0, all.2),
      )
