-- ===== src/Runtime/Loop/Lost.antt =====
-- What a round does when its job was taken from it while the handler ran.
use aurelix.Base.{
  String, Bool, true, false, ◌≡◌, ◌≢◌, refl, Option, none, some, List, Dict, Result, ok, err,
}
use aurelix.Store.Tables.{
  Documents, queued, running, Job, JobRecord, RuntimeStore, wrong_state, find_job, audit,
  record_audit,
}
use aurelix.Store.Tables.Updates.{Unique}
use aurelix.Store.Finish.{
  complete, complete_row, complete_unwritable, unwritable_row, finish, finish_row,
}
use aurelix.Store.Finish.Fencing.{token_fences, owned-token}
use aurelix.Store.Calls.{Call, run_calls}
use aurelix.Store.Invariant.{IsValid}
use aurelix.Runtime.Handlers.{AurelixRuntime, Raised, raised, raised_lease_lost, unwritable}
use aurelix.Runtime.Loop.{
  Round, settle, after_complete, after_unwritable, after_finish, gave_up, handled, run_once,
}
use aurelix.Runtime.Loop.Settled.{claim_of, run_once-settle, meanwhile-IsValid}

-- The handler did not notice that the lease is lost.
abbrev pub unnoticed : {D : Type 0} → Result Raised (Option D) → Bool
unnoticed (err (raised_lease_lost error)) = false
unnoticed _ = true

module _ {D : Type 0} ⦃docs : Documents D⦄ (repr : String → String) (rt : AurelixRuntime D)
    (r : JobRecord D) (at : Round) where
  settle_fenced :
      (outcome : Result Raised (Option D)) (row : Job D) (old new : String) (s : RuntimeStore D)
      → Unique s.jobs
      → find_job r.job_id s.jobs ≡ some row
      → row.status ≡ running
      → r.lease_token ≡ some old
      → row.lease_token ≡ some new
      → old ≢ new
      → let o = settle repr rt r at outcome s in
        (o.0 ≡ ok true) × (o.1.jobs ≡ s.jobs) × (o.1.results ≡ s.results)
  unfolding settle after_complete after_unwritable complete_unwritable unwritable_row gave_up
      after_finish audit record_audit
  settle_fenced (ok output) row old new s u found busy mine theirs ne =
      let f = token_fences r.job_id row r.worker_id old new at.ended_at s u found busy theirs ne in
      rw mine (rw (f.0 _) (refl, refl, refl))
  settle_fenced (err (raised error)) row old new s u found busy mine theirs ne =
      let f = token_fences r.job_id row r.worker_id old new at.ended_at s u found busy theirs ne in
      rw mine (rw (f.1 false (some error) _ none) (refl, refl, refl))
  settle_fenced (err (raised_lease_lost error)) row old new s u found busy mine theirs ne =
      (refl, refl, refl)
  settle_fenced (err (unwritable error)) row old new s u found busy mine theirs ne =
      let lost = owned-token r.worker_id old new row theirs ne in
      rw mine (rw found (rw (busy, lost) (refl, refl, refl)))

  settle_raises :
      (outcome : Result Raised (Option D)) (row : Job D) (s : RuntimeStore D)
      → find_job r.job_id s.jobs ≡ some row
      → row.status ≡ queued
      → unnoticed outcome ≡ true
      → settle repr rt r at outcome s ≡ (err (wrong_state queued), s)
  unfolding settle after_complete after_unwritable complete_unwritable unwritable_row gave_up
      after_finish complete complete_row finish finish_row
  settle_raises (ok output) row s found waits h = rw (found, waits) (rw (found, waits) refl)
  settle_raises (err (raised error)) row s found waits h = rw (found, waits) refl
  settle_raises (err (raised_lease_lost error)) row s found waits h = cc
  settle_raises (err (unwritable error)) row s found waits h =
      rw (found, waits) (rw (found, waits) refl)

module _ {D : Type 0} ⦃docs : Documents D⦄ (texts : D → Dict String) (repr : String → String)
    (rt : AurelixRuntime D) (at : Round) (others : List (Call D)) (s : RuntimeStore D)
    (r : JobRecord D) (row : Job D) where
  -- On a valid store, when the job that a round has claimed runs under another token by the time its
  -- handler is done, the round returns and leaves every job and every result as it finds them,
  -- whatever the handler gave or raised.
  pub run_once_fenced :
      (old new : String)
      → IsValid s
      → (claim_of rt at s).0 ≡ ok (some r)
      → find_job r.job_id (run_calls others (claim_of rt at s).1).jobs ≡ some row
      → row.status ≡ running
      → r.lease_token ≡ some old
      → row.lease_token ≡ some new
      → old ≢ new
      → let s' = run_calls others (claim_of rt at s).1 in
        let o = run_once texts repr rt at others s in
        (o.0 ≡ ok true) × (o.1.jobs ≡ s'.jobs) × (o.1.results ≡ s'.results)
  run_once_fenced old new v c found busy mine theirs ne =
      let s' = (claim_of rt at s).1 in
      rw (run_once-settle texts repr rt at others s r c) (
        settle_fenced repr rt r at (handled texts repr rt r s') row old new (run_calls others s')
          (meanwhile-IsValid rt at others s v).unique found busy mine theirs ne)

  -- When the job that a round has claimed waits in the queue again by the time its handler is done,
  -- as a recovery leaves it, the round raises, unless the handler itself raised LeaseLostError: the
  -- exception of `finish` is not caught, and the store gets no audit event.
  pub run_once_raises :
      (claim_of rt at s).0 ≡ ok (some r)
      → find_job r.job_id (run_calls others (claim_of rt at s).1).jobs ≡ some row
      → row.status ≡ queued
      → unnoticed (handled texts repr rt r (claim_of rt at s).1) ≡ true
      → run_once texts repr rt at others s
        ≡ (err (wrong_state queued), run_calls others (claim_of rt at s).1)
  run_once_raises c found waits h =
      let s' = (claim_of rt at s).1 in
      rw (run_once-settle texts repr rt at others s r c) (
        settle_raises repr rt r at (handled texts repr rt r s') row (run_calls others s') found
          waits h)
