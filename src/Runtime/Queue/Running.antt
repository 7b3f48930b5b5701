-- ===== src/Runtime/Queue/Running.antt =====
-- `execute` of src/aurelix_runtime/job_queue.py. A runner's outcome is a function of the job and of the
-- store; the calls made on the store while it runs, its own among them, are the list `others`.
use aurelix.Base.{
  ℕ, String, Bool, false, Option, none, some, List, [], ◌∷◌, lookup, insert, ltb, or_default,
  if◌then◌else◌, Result, ok, err,
}
use aurelix.Governance.Audit.{text, flag}
use aurelix.Store.Tables.{
  Documents, Status, queued, completed, failed, is_running, Job, JobRecord, RuntimeStore,
  StoreError, find_job, get, get_result,
}
use aurelix.Store.Finish.{finish, doc_or}
use aurelix.Store.Calls.{Call, run_calls}
use aurelix.Runtime.Queue.{
  QueuedJob, PersistentJobQueue, Failure, QueueError, unknown_job, store_error, run_failed,
  JobExecution, journal, claim_job,
}

-- `status_in` and `result_in` read the keys "status" and "result" of a document.
module _ {D : Type 0} ⦃docs : Documents D⦄ (status_in : D → Option String)
    (result_in : D → Option D) where
  abbrev pub completed_execution : String → Option D → JobExecution D
  completed_execution job_id stored =
      let durable = doc_or stored docs.empty in
      record {
        job_id = job_id;
        status = or_default (status_in durable) "completed";
        result = or_default (result_in durable) docs.empty;
      }

  abbrev pub failed_execution : String → Option D → JobExecution D
  failed_execution job_id stored = record {
    job_id = job_id;
    status = "failed";
    result = doc_or stored (docs.failure "execution failed");
  }

  -- `self.jobs[job_id].status = …`; `claim` has put the job there.
  abbrev with_status : String → Status → PersistentJobQueue D → PersistentJobQueue D
  with_status job_id status q = elim (lookup job_id q.jobs) [
    | none ↦ q
    | some job ↦ record q { jobs = insert job_id (record job { status = status }) q.jobs }
  ]

  -- After `finish` in the handler of an exception, which is then raised again.
  unfoldable pub given_up :
      String
      → Failure
      → Bool
      → PersistentJobQueue D
      → Result StoreError (Unit {0}) × RuntimeStore D
      → Result QueueError (JobExecution D) × PersistentJobQueue D
  given_up job_id exc retry q (err e, s) = (err (store_error e), record q { store = s })
  given_up job_id exc retry q (ok u, s) = (
    err (run_failed exc),
    journal "job.failed"
        (("job_id", text job_id) ∷ ("error", text exc.type_name) ∷ ("retry", flag retry) ∷ [])
        (with_status job_id (if retry then queued else failed) (record q { store = s })),
  )

  unfoldable pub failed_run :
      String
      → Failure
      → ℕ
      → PersistentJobQueue D
      → Option (Job D)
      → Result QueueError (JobExecution D) × PersistentJobQueue D
  unfolding given_up
  failed_run job_id exc now q none = (err (run_failed exc), q)
  failed_run job_id exc now q (some current) =
      let retry = ltb current.attempts 3 in
      if is_running current.status
      then given_up job_id exc retry q (
          finish job_id false (some exc.message) retry none current.worker_id current.lease_token
            now q.store)
      else (err (run_failed exc), q)

  -- The `try` around the runner, over the store as it is when the runner is done.
  unfoldable pub ran :
      String
      → ℕ
      → Result Failure (JobExecution D)
      → PersistentJobQueue D
      → Result QueueError (JobExecution D) × PersistentJobQueue D
  unfolding failed_run
  ran job_id now (ok result) q = (
    ok result,
    with_status job_id completed
        (journal "job.result" (("job_id", text job_id) ∷ ("status", text result.status) ∷ []) q),
  )
  ran job_id now (err exc) q = failed_run job_id exc now q (find_job job_id q.store.jobs)

  unfoldable pub run_claimed :
      (String → String → RuntimeStore D → Result Failure (JobExecution D))
      → List (Call D)
      → ℕ
      → Result QueueError QueuedJob × PersistentJobQueue D
      → Result QueueError (JobExecution D) × PersistentJobQueue D
  unfolding ran
  run_claimed runner others now (err e, q) = (err e, q)
  run_claimed runner others now (ok job, q) =
      ran job.job_id now (runner job.job_id job.objective q.store)
        (record q { store = run_calls others q.store })

  unfoldable pub execute_found :
      String
      → (String → String → RuntimeStore D → Result Failure (JobExecution D))
      → List (Call D)
      → String
      → ℕ
      → ℕ
      → PersistentJobQueue D
      → Option (JobRecord D)
      → Result QueueError (JobExecution D) × PersistentJobQueue D
  unfolding run_claimed
  execute_found job_id runner others token now ended_at q none = (err (unknown_job job_id), q)
  execute_found job_id runner others token now ended_at q (some existing) = elim existing.status [
    | completed ↦ (ok (completed_execution job_id (get_result job_id q.store)), q)
    | failed ↦ (ok (failed_execution job_id (get_result job_id q.store)), q)
    | _ ↦ run_claimed runner others ended_at (claim_job job_id token now q)
  ]

  unfoldable pub execute :
      String
      → (String → String → RuntimeStore D → Result Failure (JobExecution D))
      → List (Call D)
      → String
      → ℕ
      → ℕ
      → PersistentJobQueue D
      → Result QueueError (JobExecution D) × PersistentJobQueue D
  unfolding execute_found
  execute job_id runner others token now ended_at q =
      execute_found job_id runner others token now ended_at q (get job_id q.store)
