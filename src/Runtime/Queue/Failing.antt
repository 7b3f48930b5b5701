-- ===== src/Runtime/Queue/Failing.antt =====
-- What `execute` leaves when the runner raises.
use aurelix.Base.{
  ℕ, String, Bool, true, false, ◌≡◌, ap, ◌∙◌, arith, Option, none, some, List, if◌then◌else◌, ltb,
  Result, ok, err, string_eq, str_beq_refl,
}
use aurelix.Store.Tables.{
  Documents, queued, running, failed, Job, JobRecord, RuntimeStore, StoreError, find_job, get,
}
use aurelix.Store.Lease.{owned}
use aurelix.Store.Finish.{released, finish}
use aurelix.Store.Finish.Fencing.{finish-gives_up}
use aurelix.Store.Calls.{Call, run_calls}
use aurelix.Runtime.Queue.{
  QueuedJob, PersistentJobQueue, Failure, run_failed, JobExecution, claim_job,
}
use aurelix.Runtime.Queue.Running.{ran, failed_run, given_up, execute, execute_found, run_claimed}

module _ {D : Type 0} ⦃docs : Documents D⦄ (status_in : D → Option String)
    (result_in : D → Option D) where
  given_up-ok :
      (k : String) (exc : Failure) (retry : Bool) (q : PersistentJobQueue D)
      (o : Result StoreError (Unit {0}) × RuntimeStore D)
      → o.0 ≡ ok tt
      → let o' = given_up status_in result_in k exc retry q o in
        (o'.0 ≡ err (run_failed exc)) × (o'.1.store ≡ o.1)
  unfolding given_up
  given_up-ok k exc retry q o h = ground arith

  ran-gives_up :
      (k : String) (now : ℕ) (exc : Failure) (q : PersistentJobQueue D) (row : Job D) (w t : String)
      → find_job k q.store.jobs ≡ some row
      → row.status ≡ running
      → row.worker_id ≡ some w
      → row.lease_token ≡ some t
      → let o = ran status_in result_in k now (err exc) q in
        (o.0 ≡ err (run_failed exc))
        × (find_job k o.1.store.jobs
            ≡ some (
                released
                  (if ltb row.attempts 3 then queued else failed)
                  now
                  (some exc.message)
                  row))
  unfolding ran failed_run
  ran-gives_up k now exc q row w t found busy worker token =
      let held : owned row.worker_id row.lease_token row ≡ true =
        rw (worker, token) (ground (arith, str_beq_refl w, str_beq_refl t)) in
      let retry = ltb row.attempts 3 in
      let f =
        finish-gives_up k row (some exc.message) retry row.worker_id row.lease_token now q.store
          found busy held in
      let g =
        given_up-ok k exc retry q
          (finish k false (some exc.message) retry none row.worker_id row.lease_token now q.store)
          f.0 in
      rw found (rw busy (g.0, ap (λ (s : RuntimeStore D). find_job k s.jobs) g.1 ∙ f.1))

  -- When `execute` claims a queued job, its runner raises, and the job is running by then, the job is
  -- handed back, or fails with its third attempt, and the exception is raised again. This holds
  -- whichever worker and token the job runs under, also when it is no longer the lease that this call
  -- has claimed.
  pub execute-gives_up :
      (k : String) (runner : String → String → RuntimeStore D → Result Failure (JobExecution D))
      (others : List (Call D)) (token : String) (now ended_at : ℕ) (q q' : PersistentJobQueue D)
      (existing : JobRecord D) (job : QueuedJob) (exc : Failure) (row : Job D) (w t : String)
      → get k q.store ≡ some existing
      → existing.status ≡ queued
      → claim_job k token now q ≡ (ok job, q')
      → runner job.job_id job.objective q'.store ≡ err exc
      → find_job job.job_id (run_calls others q'.store).jobs ≡ some row
      → row.status ≡ running
      → row.worker_id ≡ some w
      → row.lease_token ≡ some t
      → let o = execute status_in result_in k runner others token now ended_at q in
        (o.0 ≡ err (run_failed exc))
        × (find_job job.job_id o.1.store.jobs
            ≡ some (
                released
                  (if ltb row.attempts 3 then queued else failed)
                  ended_at
                  (some exc.message)
                  row))
  unfolding execute execute_found run_claimed
  execute-gives_up k runner others token now ended_at q q' existing job exc row w t known waits mine
        raises found busy worker lease =
      rw (known, waits)
        (rw (mine, raises)
          (ran-gives_up job.job_id ended_at exc (record q' { store = run_calls others q'.store })
            row w t found busy worker lease))
