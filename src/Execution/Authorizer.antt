-- ===== src/Execution/Authorizer.antt =====
-- src/aurelix_core/execution_authorizer.py. The Governor and the audit log are separate objects. The
-- name of the type of an output, which is logged, is the parameter `type_name`.
use aurelix.Base.{
  true, false, not, ◌||◌, ◌≡◌, ◌↔◌, arith, String, [], ◌∷◌, if◌then◌else◌, Result, ok, err,
}
use aurelix.Governance.Models.{DecisionRequest, Decision, status_value}
use aurelix.Governance.Audit.{AuditEvent, AuditLog, text, append}
use aurelix.Governance.Policy
use aurelix.Governance.Governor
use aurelix.Governance.Governor.{Governor}
use aurelix.Execution.Runtime.{
  ExecutionRequest, ExecutionResult, ExecutionError, ExecutionRuntime, execute, Reaches,
}

pub record AuthorizedExecution : Type 0 where
  pub governor : Governor
  pub runtime : ExecutionRuntime
  pub audit : AuditLog

pub data AuthorizerError (X : Type 0) : Type 0 where
  not_authorized : String → AuthorizerError X
  not_executed : ExecutionError X → AuthorizerError X

abbrev pub blocked_event : DecisionRequest → Decision → AuditEvent
blocked_event d decision = record {
  event_type = "execution.blocked";
  actor_id = d.actor.id;
  subject_id = d.id;
  outcome = status_value decision.status;
  metadata = ("reason", text decision.reason) ∷ [];
}

abbrev pub completed_event : DecisionRequest → String → AuditEvent
completed_event d type_name = record {
  event_type = "execution.completed";
  actor_id = d.actor.id;
  subject_id = d.id;
  outcome = "success";
  metadata = ("result_type", text type_name) ∷ [];
}

module _ {X O : Type 0} (type_name : O → String) where
  executed :
      DecisionRequest
      → AuthorizedExecution
      → Result (ExecutionError X) (ExecutionResult O) × ExecutionRuntime
      → Result (AuthorizerError X) (ExecutionResult O) × AuthorizedExecution
  executed d a (err e, rt) = (err (not_executed e), record a { runtime = rt })
  executed d a (ok result, rt) = (
    ok result,
    record a { runtime = rt; audit = append (completed_event d (type_name result.output)) a.audit },
  )

  unfoldable pub run :
      DecisionRequest
      → ExecutionRequest
      → Result X O
      → AuthorizedExecution
      → Result (AuthorizerError X) (ExecutionResult O) × AuthorizedExecution
  unfolding executed
  run d e operation a =
      let (decision, governor) = Governor.evaluate d a.governor in
      let a' = record a { governor = governor } in
      if decision.requires_owner || not decision.allowed
      then (
        err (not_authorized decision.reason),
        record a' { audit = append (blocked_event d decision) a.audit },
      )
      else executed d a' (execute e operation a.runtime)

  -- A run returns a value exactly when the policy allows the action without the owner, the breaker and
  -- the scope let it through, and the operation gives that value.
  run-ok_iff :
      (d : DecisionRequest) (e : ExecutionRequest) (operation : Result X O)
      (a : AuthorizedExecution) (o : O)
      → ((run d e operation a).0 ≡ ok (record { success = true; output = o })) ↔ (
          ((Policy.evaluate d).allowed ≡ true)
          × ((Policy.evaluate d).requires_owner ≡ false)
          × Reaches e a.runtime
          × (operation ≡ ok o))
  unfolding run Governor.evaluate execute
  run-ok_iff d e operation a o = ground arith

  -- A run that the policy does not allow raises the policy's reason, does not reach the runtime, and
  -- leaves one event in the log that says so.
  pub run_blocked :
      (d : DecisionRequest) (e : ExecutionRequest) (operation : Result X O)
      (a : AuthorizedExecution)
      → (Policy.evaluate d).allowed ≡ false
      → ((run d e operation a).0 ≡ err (not_authorized (Policy.evaluate d).reason))
        × ((run d e operation a).1.runtime ≡ a.runtime)
        × ((run d e operation a).1.audit ≡ append (blocked_event d (Policy.evaluate d)) a.audit)
  unfolding run Governor.evaluate
  run_blocked d e operation a h = ground arith
