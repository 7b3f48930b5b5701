-- ===== src/Runtime/Loop.antt =====
-- One round of the loop of AurelixRuntime in src/aurelix_runtime/runtime.py, and the loop.
-- A handler's outcome is a function of the claimed record and of the store. The calls that are made on
-- the store while the handler runs, which are those of the handler itself, of the heartbeat thread and
-- of every other process, are a list, the argument `others`. Ids and times are arguments.
pub mod Settled
pub mod Lost
use Prim.Native.String.{◌++◌ as ◌+++◌}
use aurelix.Base.{
  ℕ, String, Bool, true, false, not, ◌&&◌, Option, none, some, List, [], ◌∷◌, Dict, lookup, insert,
  erase, is_some, or_default, if◌then◌else◌, is_blank, ltb, Result, ok, err,
}
use aurelix.Governance.Audit.{text, number}
use aurelix.Store.Tables.{
  Documents, Status, queued, running, interrupted, completed, failed, JobRecord, RuntimeStore,
  StoreError, job_not_found, lease_lost, wrong_state, claimed_concurrently, duplicate_id, enqueue,
  audit, heartbeat_runtime,
}
use aurelix.Store.Lease.{claim_next}
use aurelix.Store.Finish.{complete, complete_unwritable, finish}
use aurelix.Store.Calls.{Call, run_calls}
use aurelix.Runtime.Handlers.{Raised, raised, raised_lease_lost, unwritable, AurelixRuntime}

-- The ids and times of one round.
pub record Round : Type 0 where
  pub token : String
  pub event_id : String
  pub beat_at : ℕ
  pub claimed_at : ℕ
  pub ended_at : ℕ
  pub audited_at : ℕ

abbrev pub status_text : Status → String
status_text queued = "queued"
status_text running = "running"
status_text interrupted = "interrupted"
status_text completed = "completed"
status_text failed = "failed"

-- `str(exc)` of what `complete` raises; the text of a KeyError is the `repr` of its message.
abbrev pub message : (String → String) → String → StoreError → String
message repr job_id job_not_found = repr ("job not found: " +++ job_id)
message repr job_id lease_lost = "job " +++ (job_id +++ " is no longer owned by this worker")
message repr job_id (wrong_state s) =
    "job " +++ (job_id +++ (" cannot complete from state " +++ status_text s))
message repr job_id claimed_concurrently = "job " +++ (job_id +++ " was claimed concurrently")
message repr job_id duplicate_id = "UNIQUE constraint failed: jobs.job_id"

module _ {D : Type 0} where
  abbrev lost :
      String → JobRecord D → Round → RuntimeStore D → Result StoreError Bool × RuntimeStore D
  lost error r at s = (
    ok true,
    audit at.event_id "job.lease_lost" "runtime" r.job_id "aborted"
        (("kind", text r.name) ∷ ("error", text error) ∷ []) at.audited_at s,
  )

module _ {D : Type 0} ⦃docs : Documents D⦄ where
  -- After `finish`: a lost lease is noted, and any other exception of `finish` leaves the round.
  unfoldable pub after_finish :
      AurelixRuntime D
      → JobRecord D
      → Round
      → String
      → Result StoreError (Unit {0}) × RuntimeStore D
      → Result StoreError Bool × RuntimeStore D
  after_finish rt r at error (err lease_lost, s) = lost error r at s
  after_finish rt r at error (err e, s) = (err e, s)
  after_finish rt r at error (ok u, s) =
      let retry = ltb r.attempts rt.config.max_attempts in
      (
        ok true,
        audit at.event_id (if retry then "job.retry" else "job.failed") "runtime" r.job_id
            (if retry then "queued" else "failed")
            (("kind", text r.name) ∷ ("error", text error) ∷ ("attempt", number r.attempts) ∷ [])
            at.audited_at s,
      )

  -- `except Exception`
  unfoldable pub gave_up :
      AurelixRuntime D
      → JobRecord D
      → Round
      → String
      → RuntimeStore D
      → Result StoreError Bool × RuntimeStore D
  unfolding after_finish
  gave_up rt r at error s = after_finish rt r at error (
      finish r.job_id false (some error) (ltb r.attempts rt.config.max_attempts) none r.worker_id
        r.lease_token at.ended_at s)

module _ {D : Type 0} ⦃docs : Documents D⦄ (repr : String → String) where
  unfoldable pub after_complete :
      AurelixRuntime D
      → JobRecord D
      → Round
      → Result StoreError D × RuntimeStore D
      → Result StoreError Bool × RuntimeStore D
  unfolding gave_up
  after_complete rt r at (ok d, s) = (
    ok true,
    audit at.event_id "job.completed" "runtime" r.job_id "succeeded" (("kind", text r.name) ∷ [])
        at.audited_at s,
  )
  after_complete rt r at (err lease_lost, s) = lost (message repr r.job_id lease_lost) r at s
  after_complete rt r at (err e, s) = gave_up rt r at (message repr r.job_id e) s

  -- After `complete` of an output that JSON cannot write.
  unfoldable pub after_unwritable :
      AurelixRuntime D
      → JobRecord D
      → Round
      → String
      → Option (Result StoreError (Unit {0}))
      → RuntimeStore D
      → Result StoreError Bool × RuntimeStore D
  unfolding after_complete gave_up
  after_unwritable rt r at error none s = gave_up rt r at error s
  after_unwritable rt r at error (some (ok u)) s = after_complete rt r at (ok docs.success, s)
  after_unwritable rt r at error (some (err e)) s = after_complete rt r at (err e, s)

  -- From the handler's outcome on, over the store as it is by then.
  unfoldable pub settle :
      AurelixRuntime D
      → JobRecord D
      → Round
      → Result Raised (Option D)
      → RuntimeStore D
      → Result StoreError Bool × RuntimeStore D
  unfolding after_complete gave_up after_unwritable
  settle rt r at (ok output) s = after_complete rt r at (
      complete r.job_id (some (or_default output docs.success)) r.worker_id r.lease_token
        at.ended_at s)
  settle rt r at (err (raised_lease_lost error)) s = lost error r at s
  settle rt r at (err (raised error)) s = gave_up rt r at error s
  settle rt r at (err (unwritable error)) s =
      after_unwritable rt r at error (complete_unwritable r.job_id r.worker_id r.lease_token s) s

module _ {D : Type 0} ⦃docs : Documents D⦄ (texts : D → Dict String) (repr : String → String) where
  -- The handler of the record's kind; a kind without one raises the KeyError of `handlers[kind]`.
  abbrev pub handled : AurelixRuntime D → JobRecord D → RuntimeStore D → Result Raised (Option D)
  handled rt r s = elim (lookup r.name rt.claimed_handlers) [
    | some handler ↦ handler r s
    | none ↦ elim (lookup r.name rt.handlers) [
      | some handler ↦ handler (texts r.payload) s
      | none ↦ err (raised (repr r.name))
    ]
  ]

  unfoldable pub attempt :
      AurelixRuntime D
      → Round
      → List (Call D)
      → Result StoreError (Option (JobRecord D)) × RuntimeStore D
      → Result StoreError Bool × RuntimeStore D
  unfolding settle
  attempt rt at others (err e, s) = (err e, s)
  attempt rt at others (ok none, s) = (ok false, s)
  attempt rt at others (ok (some r), s) = settle repr rt r at (handled rt r s) (run_calls others s)

  unfoldable pub run_once :
      AurelixRuntime D
      → Round
      → List (Call D)
      → RuntimeStore D
      → Result StoreError Bool × RuntimeStore D
  unfolding attempt
  run_once rt at others s = attempt rt at others (
      claim_next rt.config.max_attempts (some rt.worker_id) at.token at.claimed_at
        (heartbeat_runtime at.beat_at s))

-- A turn of the service: a round, the calls made while its handler runs, and those made before the
-- next turn.
pub record Turn (D : Type 0) : Type 0 where
  pub at : Round
  pub others : List (Call D)
  pub idle : List (Call D)

module _ {D : Type 0} ⦃docs : Documents D⦄ (texts : D → Dict String) (repr : String → String) where
  -- `serve_forever` until `stop` is called, which the end of the list stands for: a round that raises
  -- ends it.
  unfoldable pub serve_forever :
      AurelixRuntime D
      → List (Turn D)
      → RuntimeStore D
      → Result StoreError (Unit {0}) × RuntimeStore D
  serve_forever rt [] s = (ok tt, s)
  serve_forever rt (t ∷ ts) s =
      let (outcome, s') = run_once texts repr rt t.at t.others s in
      let rest = serve_forever rt ts (run_calls t.idle s') in
      elim outcome [ err e ↦ (err e, s') | ok busy ↦ rest ]
