-- ===== src/Runtime/Loop/Settled.antt =====
-- What becomes of the job that a round of the loop claims.
use aurelix.Base.{
  ℕ, String, true, false, ◌≡◌, refl, ap, ◌∙◌, arith, Option, none, some, List, ◌∷◌, Dict, lookup,
  or_default, if◌then◌else◌, ltb, Result, ok, err,
}
use aurelix.Store.Tables.{
  Documents, queued, running, completed, failed, Job, JobRecord, RuntimeStore, StoreError, find_job,
  audit, record_audit, heartbeat_runtime,
}
use aurelix.Store.Tables.Updates.{Unique}
use aurelix.Store.Lease.{owned, claim_next}
use aurelix.Store.Finish.{
  released, complete, complete_unwritable, unwritable_row, finish, result_or_success, error_text,
}
use aurelix.Store.Finish.Fencing.{complete-completes, finish-gives_up}
use aurelix.Store.Calls.{Call, claim_next_call, run_call, run_calls}
use aurelix.Store.Calls.Traces.{run_calls-IsValid}
use aurelix.Store.Invariant.{IsValid}
use aurelix.Runtime.Handlers.{AurelixRuntime, Raised, raised, raised_lease_lost, unwritable}
use aurelix.Runtime.Loop.{
  Round, settle, after_complete, after_unwritable, after_finish, gave_up, handled, attempt,
  run_once,
}

module _ {D : Type 0} ⦃docs : Documents D⦄ (rt : AurelixRuntime D) (r : JobRecord D)
    (at : Round) where
  after_complete-ok :
      (repr : String → String) (d : D) (o : Result StoreError D × RuntimeStore D)
      → o.0 ≡ ok d
      → let o' = after_complete repr rt r at o in
        (o'.0 ≡ ok true) × (o'.1.jobs ≡ o.1.jobs) × (o'.1.results ≡ o.1.results)
  unfolding after_complete audit record_audit
  after_complete-ok repr d o h = ground arith

  after_finish-ok :
      (error : String) (o : Result StoreError (Unit {0}) × RuntimeStore D)
      → o.0 ≡ ok tt
      → let o' = after_finish rt r at error o in
        (o'.0 ≡ ok true) × (o'.1.jobs ≡ o.1.jobs) × (o'.1.results ≡ o.1.results)
  unfolding after_finish audit record_audit
  after_finish-ok error o h = ground arith

  -- The row is held under the record's lease.
  abbrev pub IsHeld : Job D → Type 0
  IsHeld row = (row.status ≡ running) × (owned r.worker_id r.lease_token row ≡ true)

  -- The job is handed back while attempts are left and has failed otherwise, with this error.
  abbrev pub HasGivenUp : String → Job D → Option D → RuntimeStore D → Type 0
  HasGivenUp error row before s =
      let retry = ltb r.attempts rt.config.max_attempts in
      (find_job r.job_id s.jobs
        ≡ some (released (if retry then queued else failed) at.ended_at (some error) row))
      × (lookup r.job_id s.results ≡ (
          if retry
          then before
          else some (or_default before (docs.failure (error_text (some error))))))

  -- What the handler's outcome makes of the row and of its result.
  abbrev pub HasSettled : Result Raised (Option D) → Job D → Option D → RuntimeStore D → Type 0
  HasSettled (ok output) row before s =
      let d = or_default before (result_or_success (some (or_default output docs.success))) in
      (find_job r.job_id s.jobs ≡ some (released completed at.ended_at none row))
      × (lookup r.job_id s.results ≡ some d)
  HasSettled (err (raised error)) row before s = HasGivenUp error row before s
  HasSettled (err (unwritable error)) row before s = HasGivenUp error row before s
  HasSettled (err (raised_lease_lost error)) row before s =
      (find_job r.job_id s.jobs ≡ some row) × (lookup r.job_id s.results ≡ before)

  gave_up-HasGivenUp :
      (error : String) (row : Job D) (s : RuntimeStore D)
      → find_job r.job_id s.jobs ≡ some row
      → IsHeld row
      → let o = gave_up rt r at error s in
        (o.0 ≡ ok true) × HasGivenUp error row (lookup r.job_id s.results) o.1
  unfolding gave_up audit record_audit
  gave_up-HasGivenUp error row s found h =
      let retry = ltb r.attempts rt.config.max_attempts in
      let c =
        finish-gives_up r.job_id row (some error) retry r.worker_id r.lease_token at.ended_at s
          found h.0 h.1 in
      let a =
        after_finish-ok error
          (finish r.job_id false (some error) retry none r.worker_id r.lease_token at.ended_at s)
          c.0 in
      (a.0, (ap (find_job r.job_id) a.1 ∙ c.1, ap (lookup r.job_id) a.2 ∙ c.2))

  settle-settles :
      (repr : String → String) (outcome : Result Raised (Option D)) (row : Job D)
      (s : RuntimeStore D)
      → Unique s.jobs
      → find_job r.job_id s.jobs ≡ some row
      → IsHeld row
      → let o = settle repr rt r at outcome s in
        (o.0 ≡ ok true) × HasSettled outcome row (lookup r.job_id s.results) o.1
  unfolding settle after_unwritable complete_unwritable unwritable_row audit record_audit
  settle-settles repr (ok output) row s u found h =
      let given = some (or_default output docs.success) in
      let c =
        complete-completes r.job_id row given r.worker_id r.lease_token at.ended_at s u found h.0
          h.1 in
      let a =
        after_complete-ok repr _ (complete r.job_id given r.worker_id r.lease_token at.ended_at s)
          c.0 in
      (a.0, (ap (find_job r.job_id) a.1 ∙ c.2, ap (lookup r.job_id) a.2 ∙ c.1))
  settle-settles repr (err (raised error)) row s u found h = gave_up-HasGivenUp error row s found h
  settle-settles repr (err (unwritable error)) row s u found h =
      rw (complete_unwritable, found) (rw (h.0, h.1) (gave_up-HasGivenUp error row s found h))
  settle-settles repr (err (raised_lease_lost error)) row s u found h = (refl, (found, refl))

module _ {D : Type 0} ⦃docs : Documents D⦄ where
  -- The claim of a round.
  abbrev pub claim_of :
      AurelixRuntime D
      → Round
      → RuntimeStore D
      → Result StoreError (Option (JobRecord D)) × RuntimeStore D
  claim_of rt at s =
      claim_next rt.config.max_attempts (some rt.worker_id) at.token at.claimed_at
        (heartbeat_runtime at.beat_at s)

  heartbeat_runtime-IsValid :
      (now : ℕ) (s : RuntimeStore D) → IsValid s → IsValid (heartbeat_runtime now s)
  unfolding heartbeat_runtime
  heartbeat_runtime-IsValid now s v = record {
    jobs_valid = v.jobs_valid;
    unique = v.unique;
    recorded = v.recorded;
  }

  -- The store stays valid through the claim and the calls made meanwhile.
  pub meanwhile-IsValid :
      (rt : AurelixRuntime D) (at : Round) (others : List (Call D)) (s : RuntimeStore D)
      → IsValid s
      → IsValid (run_calls others (claim_of rt at s).1)
  unfolding run_calls run_call
  meanwhile-IsValid rt at others s v =
      run_calls-IsValid
        (claim_next_call rt.config.max_attempts (some rt.worker_id) at.token at.claimed_at ∷ others)
        (heartbeat_runtime at.beat_at s) (heartbeat_runtime-IsValid at.beat_at s v)

module _ {D : Type 0} ⦃docs : Documents D⦄ (texts : D → Dict String) (repr : String → String) where
  attempt-settle :
      (rt : AurelixRuntime D) (at : Round) (others : List (Call D)) (r : JobRecord D)
      (c : Result StoreError (Option (JobRecord D)) × RuntimeStore D)
      → c.0 ≡ ok (some r)
      → attempt texts repr rt at others c
        ≡ settle repr rt r at (handled texts repr rt r c.1) (run_calls others c.1)
  unfolding attempt
  attempt-settle rt at others r c h = ground arith

  -- A round that claims a job settles it on the store that the calls made meanwhile have left.
  pub run_once-settle :
      (rt : AurelixRuntime D) (at : Round) (others : List (Call D)) (s : RuntimeStore D)
      (r : JobRecord D)
      → (claim_of rt at s).0 ≡ ok (some r)
      → run_once texts repr rt at others s
        ≡ settle repr rt r at
            (handled texts repr rt r (claim_of rt at s).1)
            (run_calls others (claim_of rt at s).1)
  unfolding run_once
  run_once-settle rt at others s r c = attempt-settle rt at others r (claim_of rt at s) c

  -- On a valid store, when a round claims a job, and the job is still held under that lease once its
  -- handler is done, whatever calls were made on the store meanwhile, the round returns, and what becomes
  -- of the job depends on the handler. An output that JSON can write completes it, with that output as
  -- its result unless one was recorded before. An exception other than LeaseLostError, or an output that
  -- JSON cannot write, hands it back while attempts are left, and fails it with that error afterwards,
  -- its result being the failure unless one was recorded before. A LeaseLostError, though the lease is still
  -- held, leaves the job running under it and its result as it was.
  pub run_once-settles :
      (rt : AurelixRuntime D) (at : Round) (others : List (Call D)) (s : RuntimeStore D)
      (r : JobRecord D) (row : Job D)
      → IsValid s
      → (claim_of rt at s).0 ≡ ok (some r)
      → find_job r.job_id (run_calls others (claim_of rt at s).1).jobs ≡ some row
      → IsHeld rt r at row
      → let s' = (claim_of rt at s).1 in
        let o = run_once texts repr rt at others s in
        (o.0 ≡ ok true)
        × HasSettled rt r at
            (handled texts repr rt r s')
            row
            (lookup r.job_id (run_calls others s').results)
            o.1
  run_once-settles rt at others s r row v c found held =
      let s' = (claim_of rt at s).1 in
      rw (run_once-settle rt at others s r c) (
        settle-settles rt r at repr (handled texts repr rt r s') row (run_calls others s')
          (meanwhile-IsValid rt at others s v).unique found held)
