-- ===== src/Runtime/Coordination.antt =====
-- Orchestrator of src/aurelix_runtime/orchestrator.py. It stands on a runtime, or on a queue where it is
-- given no runtime. The id of the payload object, and the ids and times of the calls, are arguments.
use Prim.Native.String.{◌++◌ as ◌+++◌}
use aurelix.Base.{
  not, ℕ, String, Bool, true, false, ◌≡◌, ◌⊎◌, inl, inr, refl, ap, not, Bool-cases, Option, none,
  some, List, [], ◌∷◌, Dict, lookup, insert, is_some, if◌then◌else◌, values, Result, ok, err, is_ok,
}
use aurelix.Base.Int.{ℤ, pos, ◌≤ℤ◌}
use aurelix.Governance.Governor.{
  GovernorRoute, policy_allowed, owner_required, blocked, OrchestrationResult, RouteError, route,
  route_of, route-policy_allowed_iff,
}
use aurelix.Store.Tables.{Documents, RuntimeStore, StoreError, is_queued}
use aurelix.Store.Calls.{Call}
use aurelix.Runtime.Handlers.{Raised, AurelixRuntime, RuntimeError, register, submit}
use aurelix.Runtime.Loop.{Round, run_once}
use aurelix.Runtime.Queue.{
  PersistentJobQueue, QueuedJob, QueueError, Failure, JobExecution, enqueue,
}
use aurelix.Runtime.Queue.Running.{execute}

pub record Capability (D : Type 0) : Type 0 where
  pub name : String
  pub handler : Dict String → RuntimeStore D → Result Raised (Option D)
  pub read_only : Bool

pub data Backend (D : Type 0) : Type 0 where
  on_runtime : AurelixRuntime D → RuntimeStore D → Backend D
  on_queue : PersistentJobQueue D → Backend D

pub record Orchestrator (D : Type 0) : Type 0 where
  pub backend : Backend D
  pub capabilities : Dict (Capability D)

pub data OrchestratorError : Type 0 where
  already_registered unknown_capability : String → OrchestratorError
  routing_error : RouteError → OrchestratorError
  not_permitted : List String → OrchestratorError
  runtime_error : RuntimeError → OrchestratorError
  queue_error : QueueError → OrchestratorError
  round_error : StoreError → OrchestratorError

module _ {D : Type 0} where
  registered_on :
      Capability D
      → Orchestrator D
      → Backend D
      → Result OrchestratorError (Unit {0}) × Orchestrator D
  registered_on c o (on_queue q) = (ok tt, o)
  registered_on c o (on_runtime rt s) = elim (register c.name c.handler rt).0 [
    | err e ↦ (err (runtime_error e), o)
    | ok u ↦ (ok u, record o { backend = on_runtime (register c.name c.handler rt).1 s })
  ]

  -- The capability is stored before the runtime hears of it, and stays where the runtime refuses it.
  unfoldable pub register_capability :
      Capability D → Orchestrator D → Result OrchestratorError (Unit {0}) × Orchestrator D
  unfolding registered_on
  register_capability c o =
      if is_some (lookup c.name o.capabilities)
      then (err (already_registered c.name), o)
      else registered_on c (record o { capabilities = insert c.name c o.capabilities }) o.backend

-- The ids and times of a submission.
pub record Ticket : Type 0 where
  pub request_id : String
  pub payload_id : String
  pub job_id : String
  pub event_id : String
  pub now : ℕ
  pub audited_at : ℕ

module _ {D : Type 0} ⦃docs : Documents D⦄ where
  unfoldable pub submit_to :
      String → D → Ticket → Backend D → Result OrchestratorError String × Backend D
  submit_to capability payload t (on_runtime rt s) =
      let (r, s') = submit rt capability payload t.job_id t.event_id t.now t.audited_at s in
      (elim r [ ok id ↦ ok id | err e ↦ err (runtime_error e) ], on_runtime rt s')
  submit_to capability payload t (on_queue q) =
      let job_id = "orchestrator-" +++ (capability +++ ("-" +++ t.payload_id)) in
      let (r, q') = enqueue job_id (docs.objective payload) t.now q in
      (elim r [ ok job ↦ ok job_id | err e ↦ err (queue_error e) ], on_queue q')

  unfoldable pub submit_routed :
      String
      → D
      → Ticket
      → Orchestrator D
      → Result RouteError OrchestrationResult
      → Result OrchestratorError String × Orchestrator D
  unfolding submit_to
  submit_routed capability payload t o (err e) = (err (routing_error e), o)
  submit_routed capability payload t o (ok r) = elim r.route [
    | policy_allowed ↦
        let (outcome, backend) = submit_to capability payload t o.backend in
        (outcome, record o { backend = backend })
    | _ ↦ (err (not_permitted r.reasons), o)
  ]

  unfoldable pub submit_work :
      String
      → D
      → ℤ
      → Bool
      → Bool
      → Ticket
      → Orchestrator D
      → Result OrchestratorError String × Orchestrator D
  unfolding submit_routed
  submit_work capability payload risk requires_capital production_change t o =
      if not (is_some (lookup capability o.capabilities))
      then (err (unknown_capability capability), o)
      else submit_routed capability payload t o
          (route t.request_id "orchestrator" capability requires_capital risk production_change)

  submit_routed-either :
      (capability : String) (payload : D) (t : Ticket) (o : Orchestrator D)
      (r : Result RouteError OrchestrationResult)
      → let (outcome, o') = submit_routed capability payload t o r in
        ((is_ok outcome ≡ false) × (o' ≡ o)) ⊎ (route_of r ≡ policy_allowed ∷ [])
  unfolding submit_routed
  submit_routed-either capability payload t o (err e) = inl (refl, refl)
  submit_routed-either capability payload t o (ok r) = by_route r.route refl
    where
      by_route :
          (g : GovernorRoute)
          → r.route ≡ g
          → let (outcome, o') = submit_routed capability payload t o (ok r) in
            ((is_ok outcome ≡ false) × (o' ≡ o)) ⊎ (r.route ∷ [] ≡ policy_allowed ∷ [])
      by_route policy_allowed h = inr (ap (λ g. g ∷ []) h)
      by_route owner_required h = unfold submit_routed in rw h (inl (refl, refl))
      by_route blocked h = unfold submit_routed in rw h (inl (refl, refl))

  -- Work is accepted only for a registered capability, with a risk from 0 to 4, no capital asked for and
  -- production left alone: any other work is refused, and the orchestrator and what it stands on stay
  -- unchanged.
  pub submit_work-permitted :
      (capability : String) (payload : D) (risk : ℤ) (capital production : Bool) (t : Ticket)
      (o : Orchestrator D)
      → let (outcome, o') = submit_work capability payload risk capital production t o in
        ((is_ok outcome ≡ false) × (o' ≡ o))
        ⊎ ((is_some (lookup capability o.capabilities) ≡ true)
            × (pos 0 ≤ℤ risk)
            × (risk ≤ℤ pos 4)
            × (capital ≡ false)
            × (production ≡ false))
  unfolding submit_work
  submit_work-permitted capability payload risk capital production t o =
      let r = route t.request_id "orchestrator" capability capital risk production in
      let allowed =
        route-policy_allowed_iff t.request_id "orchestrator" capability capital risk production in
      elim (Bool-cases (is_some (lookup capability o.capabilities))) [
        | inr unknown ↦ rw unknown (inl (refl, refl))
        | inl known ↦ elim (submit_routed-either capability payload t o r) [
          | inl refused ↦ rw known (inl refused)
          | inr through ↦
              let (_, _, low, high, no_capital, no_production) = allowed.0 through in
              inr (known, low, high, no_capital, no_production)
        ]
      ]

-- The first job that waits.
abbrev pub first_queued : List QueuedJob → Option QueuedJob
first_queued [] = none
first_queued (j ∷ js) = if is_queued j.status then some j else first_queued js

module _ {D : Type 0} ⦃docs : Documents D⦄ (texts : D → Dict String) (repr : String → String)
    (status_in : D → Option String) (result_in : D → Option D)
    (runner : String → String → RuntimeStore D → Result Failure (JobExecution D)) where
  run_queued :
      Round
      → List (Call D)
      → PersistentJobQueue D
      → Option QueuedJob
      → Result OrchestratorError Bool × Backend D
  run_queued at others q none = (ok false, on_queue q)
  run_queued at others q (some job) =
      let (r, q') =
        execute status_in result_in job.job_id runner others at.token at.claimed_at at.ended_at q in
      (elim r [ ok x ↦ ok true | err e ↦ err (queue_error e) ], on_queue q')

  run_backend : Round → List (Call D) → Backend D → Result OrchestratorError Bool × Backend D
  unfolding run_queued
  run_backend at others (on_queue q) = run_queued at others q (first_queued (values q.jobs))
  run_backend at others (on_runtime rt s) =
      let (r, s') = run_once texts repr rt at others s in
      (elim r [ ok b ↦ ok b | err e ↦ err (round_error e) ], on_runtime rt s')

  -- `run_once`: a round of the runtime, or the queue's first job that waits, under the queue's runner.
  unfoldable pub run_round :
      Round → List (Call D) → Orchestrator D → Result OrchestratorError Bool × Orchestrator D
  unfolding run_backend
  run_round at others o =
      let (r, backend) = run_backend at others o.backend in (r, record o { backend = backend })
