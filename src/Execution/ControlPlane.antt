-- ===== src/Execution/ControlPlane.antt =====
-- src/aurelix_core/control_plane.py. A plane is one that `create` builds with no arguments: its
-- Governor writes to the plane's own audit log. The budget is the caller's object, and comes back
-- with the plane. The text of a budget's exception, which prints decimals, is the parameter `message`.
pub mod Guards
use aurelix.Base.{
  ℕ, Bool, true, false, not, ◌||◌, ◌≡◌, refl, String, Option, none, some, List, [], ◌∷◌,
  if◌then◌else◌, Result, ok, err,
}
use aurelix.Base.Int.{ℤ}
use aurelix.Governance.Models.{
  DecisionRequest, Decision, DecisionStatus, rejected, status_value, action_value, Amount,
}
use aurelix.Governance.Audit.{AuditEvent, AuditLog, no_events, text, append}
use aurelix.Governance.Governor
use aurelix.Execution.Breaker
use aurelix.Execution.Budget.{Budget, BudgetError, authorize as budget_authorize, consume}
use aurelix.Execution.Runtime.{
  ExecutionRequest, ExecutionResult, ExecutionError, ExecutionRuntime, execute,
}

pub record ControlPlane : Type 0 where
  pub runtime : ExecutionRuntime
  pub audit : AuditLog

pub data PlaneError (X : Type 0) : Type 0 where
  refused : String → PlaneError X
  over_budget : BudgetError → PlaneError X
  not_executed : ExecutionError X → PlaneError X

unfoldable pub create : ControlPlane
create = record { runtime = record { breaker = Breaker.new 3 }; audit = no_events }

abbrev pub blocked_event : String → String → DecisionStatus → String → AuditEvent
blocked_event subject_id actor_id status reason = record {
  event_type = "control_plane.blocked";
  actor_id = actor_id;
  subject_id = subject_id;
  outcome = status_value status;
  metadata = ("reason", text reason) ∷ [];
}

-- `_blocked`
blocked : String → String → DecisionStatus → String → ControlPlane → ControlPlane
blocked subject_id actor_id status reason p = record p {
  audit = append (blocked_event subject_id actor_id status reason) p.audit;
}

abbrev pub completed_event : DecisionRequest → AuditEvent
completed_event d = record {
  event_type = "control_plane.completed";
  actor_id = d.actor.id;
  subject_id = d.id;
  outcome = "success";
  metadata = ("action", text (action_value d.action)) ∷ [];
}

-- A call's budget and estimated cost: it is charged only when both are given.
pub record Charge : Type 0 where
  pub budget : Option Budget
  pub estimated_cost : Option Amount

-- `budget.authorize(estimated_cost)`, if both are given
pub check_charge : Option Budget → Option Amount → Result BudgetError (Unit {0})
check_charge (some b) (some cost) = budget_authorize cost b
check_charge _ _ = ok tt

-- `budget.consume(estimated_cost)`, if both are given; what it raises is raised on
pub consume_charge : Option Budget → Option Amount → Result BudgetError (Unit {0}) × Option Budget
consume_charge (some b) (some cost) = let (r, b') = consume cost b in (r, some b')
consume_charge b _ = (ok tt, b)

-- What a call gives back: its result, the plane, and the budget.
abbrev pub Outcome : Type 0 → Type 0 → Type 0
Outcome X O = Result (PlaneError X) (ExecutionResult O) × ControlPlane × Option Budget

module _ {X O : Type 0} where
  -- After the budget's `consume`: a success is logged and returned.
  complete :
      DecisionRequest
      → ExecutionResult O
      → ControlPlane
      → Result BudgetError (Unit {0}) × Option Budget
      → Outcome X O
  complete d result p (err e, b) = (err (over_budget e), p, b)
  complete d result p (ok u, b) =
      (ok result, record p { audit = append (completed_event d) p.audit }, b)

  -- After the runtime's `execute`: what it raises is raised on.
  executed :
      DecisionRequest
      → Charge
      → ControlPlane
      → Result (ExecutionError X) (ExecutionResult O) × ExecutionRuntime
      → Outcome X O
  unfolding complete consume_charge
  executed d c p (err e, rt) = (err (not_executed e), record p { runtime = rt }, c.budget)
  executed d c p (ok result, rt) =
      complete d result (record p { runtime = rt }) (consume_charge c.budget c.estimated_cost)

module _ (message : BudgetError → String) {X O : Type 0} where
  -- After the budget's `authorize`.
  charged :
      DecisionRequest
      → ExecutionRequest
      → Result X O
      → Charge
      → ControlPlane
      → Result BudgetError (Unit {0})
      → Outcome X O
  unfolding executed blocked
  charged d e operation c p (err x) =
      (err (over_budget x), blocked d.id d.actor.id rejected (message x) p, c.budget)
  charged d e operation c p (ok u) = executed d c p (execute e operation p.runtime)

  -- After the Governor's `evaluate`.
  decided :
      DecisionRequest
      → ExecutionRequest
      → Result X O
      → Charge
      → ControlPlane
      → Decision
      → Outcome X O
  unfolding charged check_charge
  decided d e operation c p decision =
      if not decision.allowed || decision.requires_owner
      then (
        err (refused decision.reason),
        blocked d.id d.actor.id decision.status decision.reason p,
        c.budget,
      )
      else charged d e operation c p (check_charge c.budget c.estimated_cost)

  unfoldable pub authorize :
      DecisionRequest → ExecutionRequest → Result X O → Charge → ControlPlane → Outcome X O
  unfolding decided
  authorize d e operation c p =
      let (decision, governor) = Governor.evaluate d (record { audit = p.audit }) in
      decided d e operation c (record p { audit = governor.audit }) decision
