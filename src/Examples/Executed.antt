-- ===== src/Examples/Executed.antt =====
-- Guarded executions of one operation, with a breaker, a permission and a budget.
use aurelix.Base.{
  ℕ, String, true, false, ◌≡◌, ◌≤◌, ◌↔◌, refl, arith, some, [], ◌∷◌, Result, ok, err, is_ok,
  string_eq,
}
use aurelix.Base.Int.{pos, ◌-ℤ◌}
use aurelix.Governance.Models.{decimal}
use aurelix.Governance.Policy
use aurelix.Governance.Governor
use aurelix.Execution.Breaker
use aurelix.Execution.Scope.{
  knowledge, secrets, ResourcePermission, ResourceRequest, authorize_resource,
}
use aurelix.Execution.Budget.{authorize as authorize_budget, Budget, BudgetError, consume}
use aurelix.Execution.Runtime.{
  ExecutionRequest, ExecutionRuntime, Reaches, execute, execute_guarded,
}
use aurelix.Execution.ControlPlane.{create, Charge, authorize}
use aurelix.Execution.ControlPlane.Guards.{Guarded, authorize-ok, authorize_blocks}
use aurelix.Examples.Requests.{build_request, deploy_request}

allow-record_outcomes_iff_example :
    (Breaker.allow (Breaker.record_outcomes (true ∷ false ∷ false ∷ false ∷ []) (Breaker.new 3))
      ≡ false)
    ↔ (3 ≤ Breaker.trailing_failures 0 (true ∷ false ∷ false ∷ false ∷ []))
allow-record_outcomes_iff_example =
    Breaker.allow-record_outcomes_iff 3 (true ∷ false ∷ false ∷ false ∷ []) (omega arith)

abbrev permission : ResourcePermission
permission = record {
  actor_id = "agent";
  resource = knowledge;
  operations = "read" ∷ "write" ∷ [];
  scope = "lab";
}

abbrev inside : ResourceRequest
inside = record {
  actor_id = "agent";
  resource = knowledge;
  operation = "write";
  target_scope = "lab";
}

abbrev outside : ResourceRequest
outside = record {
  actor_id = "agent";
  resource = secrets;
  operation = "write";
  target_scope = "lab";
}

abbrev purse : Budget
purse = record { currency = "EUR"; limit = pos 100; spent = pos 0 }

abbrev inside_call : ExecutionRequest
inside_call = record { actor_id = "agent"; resource = inside; permission = permission }

abbrev outside_call : ExecutionRequest
outside_call = record { actor_id = "agent"; resource = outside; permission = permission }

abbrev fresh : ExecutionRuntime
fresh = record { breaker = Breaker.new 3 }

outside-denied : ¬ Reaches outside_call fresh
unfolding authorize_resource
outside-denied h = ground arith

abbrev succeeds : Result String ℕ
succeeds = ok 5

abbrev fails : Result String ℕ
fails = err "failed"

execute_guarded_example :
    (is_ok (execute outside_call succeeds fresh).0 ≡ false)
    × ((execute outside_call succeeds fresh).1 ≡ fresh)
    × (execute outside_call succeeds fresh ≡ execute outside_call fails fresh)
execute_guarded_example = execute_guarded outside_call fresh succeeds fails outside-denied

abbrev message : BudgetError → String
message e = "budget"

abbrev charge : Charge
charge = record { budget = some purse; estimated_cost = some (decimal (pos 60)) }

deploy-unguarded : ¬ Guarded deploy_request inside_call charge create
unfolding Policy.evaluate
deploy-unguarded h = let refused = h.policy in ground arith

authorize_blocks_example :
    authorize message deploy_request inside_call succeeds charge create
    ≡ authorize message deploy_request inside_call fails charge create
authorize_blocks_example =
    authorize_blocks message deploy_request inside_call charge create succeeds fails
      deploy-unguarded

authorize-ok_example : Guarded build_request inside_call charge create × (succeeds ≡ ok 5)
unfolding authorize Governor.evaluate Policy.evaluate authorize_budget ◌-ℤ◌ execute
    Breaker.require_allowed create authorize_resource consume
authorize-ok_example =
    authorize-ok message build_request inside_call charge create succeeds
      {o = record { success = true; output = 5 }} refl

abbrev type_name : ℕ → String
type_name n = "int"
