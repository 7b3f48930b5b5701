-- ===== src/Runtime/Supervised.antt =====
-- SupervisedWorker of src/aurelix_runtime/supervised_worker.py. The runner is a parameter, and so is the
-- document of its execution, {"ok": True, "status": …, "result": …}. The token of a claim, its times and
-- the calls made on the store while the runner runs are given for each job.
pub mod Bounded
use aurelix.Base.{
  ℕ, ◌+◌, String, Bool, true, false, not, ◌&&◌, ◌||◌, Option, none, some, List, [], ◌∷◌, ◌++◌,
  insert, values, leb, ltb, length, if◌then◌else◌, Result, ok, err,
}
use aurelix.Base.Int.{ℤ}
use aurelix.Governance.Audit.{Meta, text, number}
use aurelix.Store.Tables.{
  Documents, Status, queued, running, completed, failed, is_queued, JobRecord, RuntimeStore,
  StoreError, lease_lost, heartbeat_runtime,
}
use aurelix.Store.Lease.{claim}
use aurelix.Store.Finish.{complete, complete_unwritable, finish}
use aurelix.Store.Calls.{Call, run_calls}
use aurelix.Runtime.Handlers.{Raised, raised, raised_lease_lost, unwritable}
use aurelix.Runtime.Loop.{message}
use aurelix.Runtime.Queue.{
  QueuedJob, PersistentJobQueue, JobExecution, journal, refresh, recover_running,
}

pub record SupervisedWorker (D : Type 0) : Type 0 where
  pub queue : PersistentJobQueue D
  pub max_jobs : ℕ
  pub max_attempts : ℕ
  pub worker_id : String
  pub heartbeat_count : ℕ

pub record JobRound (D : Type 0) : Type 0 where
  pub token : String
  pub claimed_at : ℕ
  pub ended_at : ℕ
  pub others : List (Call D)

module _ {D : Type 0} where
  unfoldable pub heartbeat : ℕ → SupervisedWorker D → SupervisedWorker D
  heartbeat now w =
      let n = w.heartbeat_count + 1 in
      record w {
        heartbeat_count = n;
        queue =
            journal "worker.heartbeat"
              (("worker_id", text w.worker_id) ∷ ("heartbeat", number n) ∷ [])
              (record w.queue { store = heartbeat_runtime now w.queue.store });
      }

  -- The worker with another store, and with an entry of its queue.
  abbrev on_store : RuntimeStore D → SupervisedWorker D → SupervisedWorker D
  on_store s w = record w { queue = record w.queue { store = s } }

  abbrev with_job : QueuedJob → SupervisedWorker D → SupervisedWorker D
  with_job job w = record w { queue = record w.queue { jobs = insert job.job_id job w.queue.jobs } }

  abbrev lease_lost_event : QueuedJob → String → SupervisedWorker D → SupervisedWorker D
  lease_lost_event job error w = record w {
    queue =
        journal "job.lease_lost" (("job_id", text job.job_id) ∷ ("error", text error) ∷ []) w.queue;
  }

  -- The test before a job is tried.
  abbrev pub skips : List String → QueuedJob → SupervisedWorker D → Bool
  skips processed job w =
      leb w.max_jobs (length processed)
      || (not (is_queued job.status) || leb w.max_attempts job.attempts)

  -- After `finish`; what it raises but a lost lease leaves the loop.
  gave_up :
      QueuedJob
      → Bool
      → (StoreError → String)
      → List String
      → SupervisedWorker D
      → Result StoreError (Unit {0}) × RuntimeStore D
      → Result StoreError (List String) × SupervisedWorker D
  gave_up job retry describe processed w (err lease_lost, s) = (
    ok (processed ++ (job.job_id ∷ [])),
    lease_lost_event job (describe lease_lost) (on_store s w),
  )
  gave_up job retry describe processed w (err e, s) = (err e, on_store s w)
  gave_up job retry describe processed w (ok u, s) = (
    ok (processed ++ (job.job_id ∷ [])),
    with_job (record job { status = if retry then queued else failed }) (on_store s w),
  )

module _ {D : Type 0} ⦃docs : Documents D⦄ (repr : String → String) where
  -- `except Exception`
  gives_up :
      QueuedJob
      → String
      → ℕ
      → List String
      → SupervisedWorker D
      → Result StoreError (List String) × SupervisedWorker D
  unfolding gave_up
  gives_up job error now processed w =
      let retry = ltb job.attempts w.max_attempts in
      gave_up job retry (message repr job.job_id) processed w (
        finish job.job_id false (some error) retry none job.worker_id job.lease_token now
          w.queue.store)

  unfoldable pub completed_job :
      QueuedJob
      → ℕ
      → List String
      → SupervisedWorker D
      → Result StoreError D × RuntimeStore D
      → Result StoreError (List String) × SupervisedWorker D
  unfolding gives_up
  completed_job job now processed w (ok d, s) = (
    ok (processed ++ (job.job_id ∷ [])),
    with_job (record job { status = completed }) (on_store s w),
  )
  completed_job job now processed w (err lease_lost, s) = (
    ok (processed ++ (job.job_id ∷ [])),
    lease_lost_event job (message repr job.job_id lease_lost) (on_store s w),
  )
  completed_job job now processed w (err e, s) =
      gives_up job (message repr job.job_id e) now processed (on_store s w)

  -- After `complete` of a result that JSON cannot write.
  unfoldable pub unwritten_job :
      QueuedJob
      → String
      → ℕ
      → List String
      → SupervisedWorker D
      → Option (Result StoreError (Unit {0}))
      → Result StoreError (List String) × SupervisedWorker D
  unfolding completed_job gives_up
  unwritten_job job error now processed w none = gives_up job error now processed w
  unwritten_job job error now processed w (some (ok u)) =
      completed_job job now processed w (ok docs.success, w.queue.store)
  unwritten_job job error now processed w (some (err e)) =
      completed_job job now processed w (err e, w.queue.store)

  -- From the runner's outcome on.
  unfoldable pub ended :
      (JobExecution D → D)
      → QueuedJob
      → ℕ
      → List String
      → SupervisedWorker D
      → Result Raised (JobExecution D)
      → Result StoreError (List String) × SupervisedWorker D
  unfolding completed_job gives_up unwritten_job
  ended document job now processed w (ok result) =
      completed_job job now processed w (
        complete job.job_id (some (document result)) job.worker_id job.lease_token now
          w.queue.store)
  ended document job now processed w (err (raised_lease_lost error)) =
      (ok (processed ++ (job.job_id ∷ [])), lease_lost_event job error w)
  ended document job now processed w (err (raised error)) = gives_up job error now processed w
  ended document job now processed w (err (unwritable error)) =
      unwritten_job job error now processed w
        (complete_unwritable job.job_id job.worker_id job.lease_token w.queue.store)

module _ {D : Type 0} ⦃docs : Documents D⦄ (repr : String → String) (document : JobExecution D → D)
    (runner : String → String → RuntimeStore D → Result Raised (JobExecution D)) where
  unfoldable pub claimed_job :
      QueuedJob
      → JobRound D
      → List String
      → SupervisedWorker D
      → Result StoreError (Option (JobRecord D)) × RuntimeStore D
      → Result StoreError (List String) × SupervisedWorker D
  unfolding ended gives_up
  claimed_job job at processed w (err e, s) =
      gives_up repr job (message repr job.job_id e) at.ended_at processed (on_store s w)
  claimed_job job at processed w (ok none, s) = (ok processed, on_store s w)
  claimed_job job at processed w (ok (some r), s) =
      let job' : QueuedJob = record job {
        status = running;
        attempts = r.attempts;
        worker_id = r.worker_id;
        lease_token = r.lease_token;
      } in
      ended repr document job' at.ended_at processed
        (with_job job' (on_store (run_calls at.others s) w)) (runner job.job_id job.objective s)

  unfoldable pub try_job :
      JobRound D
      → QueuedJob
      → List String
      → SupervisedWorker D
      → Result StoreError (List String) × SupervisedWorker D
  unfolding claimed_job
  try_job at job processed w =
      if skips processed job w
      then (ok processed, w)
      else claimed_job job at processed w
          (claim job.job_id w.max_attempts (some w.worker_id) at.token at.claimed_at w.queue.store)

  -- The loop over the jobs that the queue has at its start.
  unfoldable pub try_jobs :
      (QueuedJob → JobRound D)
      → List QueuedJob
      → List String
      → SupervisedWorker D
      → Result StoreError (List String) × SupervisedWorker D
  unfolding try_job
  try_jobs at [] processed w = (ok processed, w)
  try_jobs at (job ∷ jobs) processed w =
      let (outcome, w') = try_job (at job) job processed w in
      elim outcome [ err e ↦ (err e, w') | ok done ↦ try_jobs at jobs done w' ]

  unfoldable pub run_once :
      ℕ
      → (QueuedJob → JobRound D)
      → SupervisedWorker D
      → Result StoreError (List String) × SupervisedWorker D
  unfolding heartbeat try_jobs
  run_once now at w =
      let beaten = heartbeat now w in
      let ready : SupervisedWorker D = record beaten { queue = refresh beaten.queue } in
      try_jobs at (values ready.queue.jobs) [] ready

-- `recover`
unfoldable pub recover :
    {D : Type 0} ⦃docs : Documents D⦄
    → Option ℤ
    → ℕ
    → ℕ
    → SupervisedWorker D
    → ℕ × SupervisedWorker D
recover stale now_dt now w =
    let (n, q) = recover_running stale now_dt now w.queue in (n, record w { queue = q })
