-- ===== src/Runtime/Queue.antt =====
-- PersistentJobQueue of src/aurelix_runtime/job_queue.py, over the durable store. The engine store's
-- journal is the list of its events, without their ids and times.
pub mod Running
pub mod Again
pub mod Failing
use aurelix.Base.{
  ℕ, String, Bool, false, not, Option, none, some, List, [], ◌∷◌, ◌++◌, Dict, lookup, insert, ltb,
  or_default, if◌then◌else◌, ◌==◌, nat_eq, string_eq, Result, ok, err,
}
use aurelix.Base.Int.{ℤ}
use aurelix.Governance.Audit.{Meta, text, flag, number}
use aurelix.Store.Tables.{
  Documents, Status, queued, completed, failed, is_running, Job, JobRecord, RuntimeStore,
  StoreError, find_job, queued_job, get, get_result,
}
use aurelix.Store.Lease.{claim, heartbeat}
use aurelix.Store.Finish.{finish, doc_or}
use aurelix.Store.Recovery.{recover_running_jobs}
use aurelix.Store.Calls.{Call, run_calls}

pub record QueuedJob : Type 0 where
  pub job_id : String
  pub objective : String
  pub status : Status
  pub attempts : ℕ
  pub worker_id : Option String
  pub lease_token : Option String

pub record PersistentJobQueue (D : Type 0) : Type 0 where
  pub store : RuntimeStore D
  pub events : List (String × Dict Meta)
  pub worker_id : String
  pub jobs : Dict QueuedJob

-- An exception of a runner: the name of its type, and its text.
pub record Failure : Type 0 where
  pub type_name : String
  pub message : String

pub data QueueError : Type 0 where
  different_objective unknown_job : String → QueueError
  not_claimable : Status → QueueError
  store_error : StoreError → QueueError
  run_failed : Failure → QueueError

pub record JobExecution (D : Type 0) : Type 0 where
  pub job_id : String
  pub status : String
  pub result : D

module _ {D : Type 0} where
  -- `engine_store.record`
  abbrev pub journal : String → Dict Meta → PersistentJobQueue D → PersistentJobQueue D
  journal event data_ q = record q { events = q.events ++ ((event, data_) ∷ []) }

module _ {D : Type 0} ⦃docs : Documents D⦄ where
  abbrev pub queued_of : Job D → QueuedJob
  queued_of r = record {
    job_id = r.job_id;
    objective = docs.objective r.payload;
    status = r.status;
    attempts = r.attempts;
    worker_id = r.worker_id;
    lease_token = r.lease_token;
  }

  abbrev table_of : List (Job D) → Dict QueuedJob
  table_of [] = []
  table_of (r ∷ rs) = (r.job_id, queued_of r) ∷ table_of rs

  unfoldable pub refresh : PersistentJobQueue D → PersistentJobQueue D
  refresh q = record q { jobs = table_of q.store.jobs }

  unfoldable pub new_queue : RuntimeStore D → String → PersistentJobQueue D
  unfolding refresh
  new_queue s worker_id =
      refresh (record { store = s; events = []; worker_id = worker_id; jobs = [] })

  -- The row that `enqueue` finds in its transaction.
  unfoldable pub enqueue_found :
      String
      → String
      → ℕ
      → PersistentJobQueue D
      → Option (Job D)
      → Result QueueError QueuedJob × PersistentJobQueue D
  enqueue_found job_id objective now q none =
      let r = queued_job job_id "autonomy.run" (docs.with_objective objective) now in
      let added : RuntimeStore D = record q.store { jobs = q.store.jobs ++ (r ∷ []) } in
      let job : QueuedJob = record {
        job_id = job_id;
        objective = objective;
        status = queued;
        attempts = 0;
        worker_id = none;
        lease_token = none;
      } in
      (
        ok job,
        journal "job.queued" (("job_id", text job_id) ∷ [])
            (record q { store = added; jobs = insert job_id job q.jobs }),
      )
  enqueue_found job_id objective now q (some r) =
      if not (docs.objective r.payload == objective)
      then (err (different_objective job_id), q)
      else (ok (queued_of r), record q { jobs = insert r.job_id (queued_of r) q.jobs })

  unfoldable pub enqueue :
      String
      → String
      → ℕ
      → PersistentJobQueue D
      → Result QueueError QueuedJob × PersistentJobQueue D
  unfolding enqueue_found
  enqueue job_id objective now q =
      enqueue_found job_id objective now q (find_job job_id q.store.jobs)

  -- The job that `claim` starts from: the queue's own, or else the store's.
  abbrev known_job : String → PersistentJobQueue D → Option QueuedJob
  known_job job_id q = elim (lookup job_id q.jobs) [
    | some job ↦ some job
    | none ↦ elim (find_job job_id q.store.jobs) [ none ↦ none | some r ↦ some (queued_of r) ]
  ]

  claimed_job :
      String
      → QueuedJob
      → PersistentJobQueue D
      → Result StoreError (Option (JobRecord D)) × RuntimeStore D
      → Result QueueError QueuedJob × PersistentJobQueue D
  claimed_job job_id job q (err e, s) = (err (store_error e), record q { store = s })
  claimed_job job_id job q (ok none, s) = (err (not_claimable job.status), record q { store = s })
  claimed_job job_id job q (ok (some r), s) =
      let job' : QueuedJob = record job {
        status = r.status;
        attempts = r.attempts;
        worker_id = r.worker_id;
        lease_token = r.lease_token;
      } in
      (
        ok job',
        journal "job.claimed"
            (("job_id", text job_id)
              ∷ ("attempts", number r.attempts)
              ∷ ("worker_id", text q.worker_id)
              ∷ [])
            (record q { store = s; jobs = insert job_id job' q.jobs }),
      )

  claim_known :
      String
      → String
      → ℕ
      → PersistentJobQueue D
      → Option QueuedJob
      → Result QueueError QueuedJob × PersistentJobQueue D
  unfolding claimed_job
  claim_known job_id token now q none = (err (unknown_job job_id), q)
  claim_known job_id token now q (some job) =
      claimed_job job_id job q (claim job_id 3 (some q.worker_id) token now q.store)

  -- `claim`, with the store's default of three attempts.
  unfoldable pub claim_job :
      String
      → String
      → ℕ
      → PersistentJobQueue D
      → Result QueueError QueuedJob × PersistentJobQueue D
  unfolding claim_known
  claim_job job_id token now q = claim_known job_id token now q (known_job job_id q)

  unfoldable pub heartbeat_job : String → ℕ → PersistentJobQueue D → Bool × PersistentJobQueue D
  heartbeat_job job_id now q = elim (lookup job_id q.jobs) [
    | none ↦ (false, q)
    | some job ↦
        let o = heartbeat (some job_id) (some q.worker_id) job.lease_token now q.store in
        (o.0, record q { store = o.1 })
  ]

  unfoldable pub recover_running :
      Option ℤ → ℕ → ℕ → PersistentJobQueue D → ℕ × PersistentJobQueue D
  unfolding refresh
  recover_running stale now_dt now q =
      let o = recover_running_jobs 3 stale now_dt now q.store in
      let q' = refresh (record q { store = o.0 }) in
      (o.1, if o.1 == 0 then q' else journal "job.recovery" (("recovered", number o.1) ∷ []) q')
