-- ===== src/Execution/ControlPlane/Guards.antt =====
-- What every call of the control plane satisfies: which guards it has passed, and what it has left in
-- the budget, the breaker and the log.
use aurelix.Base.{true, false, ◌≡◌, refl, arith, String, Option, none, some, Result, ok, is_ok}
use aurelix.Governance.Models.{DecisionRequest, Amount}
use aurelix.Governance.Audit.{append}
use aurelix.Governance.Policy
use aurelix.Governance.Governor
use aurelix.Governance.Governor.{evaluated_event, evaluate-Extends}
use aurelix.Execution.Budget.{Budget, BudgetError, IsSound, consume}
use aurelix.Execution.Runtime.{
  ExecutionRequest, ExecutionResult, execute, Reaches, execute-reached, execute_guarded,
}
use aurelix.Execution.ControlPlane.{
  ControlPlane, Charge, check_charge, consume_charge, authorize, completed_event,
}

-- The budget of a call, where it has one, is sound.
abbrev pub BudgetSound : Option Budget → Type 0
BudgetSound none = Unit
BudgetSound (some b) = IsSound b

-- If `authorize` lets a cost through, `consume` on the same budget does too.
consume_charge-ok :
    (b : Option Budget) (cost : Option Amount)
    → check_charge b cost ≡ ok tt
    → (consume_charge b cost).0 ≡ ok tt
unfolding check_charge consume_charge consume
consume_charge-ok none cost h = ground arith
consume_charge-ok (some b) none h = ground arith
consume_charge-ok (some b) (some cost) h = ground arith

-- The guards that a call must pass before the operation is reached.
pub record Guarded (d : DecisionRequest) (e : ExecutionRequest) (c : Charge) (p : ControlPlane)
    : Type 0 where
  pub policy : (Policy.evaluate d).allowed ≡ true
  pub no_owner : (Policy.evaluate d).requires_owner ≡ false
  pub charge : check_charge c.budget c.estimated_cost ≡ ok tt
  pub reaches : Reaches e p.runtime

module _ (message : BudgetError → String) {X O : Type 0} (d : DecisionRequest)
    (e : ExecutionRequest) (c : Charge) (p : ControlPlane) where
  -- When all guards pass and the operation gives a value, the call returns that value, records a
  -- success in the breaker, charges the budget, and logs the decision and then the completion.
  pub authorize-completes :
      (o : O)
      → Guarded d e c p
      → authorize message {X = X} d e (ok o) c p ≡ (
        ok (record { success = true; output = o }),
        record {
          runtime = (execute {X = X} e (ok o) p.runtime).1;
          audit =
              append (completed_event d) (append (evaluated_event d (Policy.evaluate d)) p.audit);
        },
        (consume_charge c.budget c.estimated_cost).1,
      )
  unfolding authorize Governor.evaluate
  authorize-completes o g =
      let run = (execute-reached {X = X} e p.runtime (ok o) g.reaches).0 o refl in
      let paid = consume_charge-ok c.budget c.estimated_cost g.charge in
      ground (arith, g.policy, g.no_owner, g.charge)

  -- A call that raises leaves the budget as it was, whatever the guards and the operation did.
  pub authorize-budget_kept :
      (operation : Result X O)
      → is_ok (authorize message d e operation c p).0 ≡ false
      → (authorize message d e operation c p).2 ≡ c.budget
  unfolding authorize Governor.evaluate
  authorize-budget_kept operation h = ground (arith, consume_charge-ok c.budget c.estimated_cost)

  -- A call returns a value only if all guards pass and the operation gives that value.
  pub authorize-ok :
      (operation : Result X O) {o : ExecutionResult O}
      → (authorize message d e operation c p).0 ≡ ok o
      → Guarded d e c p × (operation ≡ ok o.output)
  unfolding authorize Governor.evaluate execute
  authorize-ok operation h = (
    record {
      policy = ground arith;
      no_owner = ground arith;
      charge = ground arith;
      reaches = ground arith;
    },
    ground arith,
  )

  -- Without the guards the operation makes no difference to the call: what it would have returned or
  -- raised is nowhere in the result, the plane or the budget.
  pub authorize_blocks :
      (operation other : Result X O)
      → ¬ Guarded d e c p
      → authorize message d e operation c p ≡ authorize message d e other c p
  unfolding authorize Governor.evaluate
  authorize_blocks operation other h =
      let unreached =
        λ (policy : (Policy.evaluate d).allowed ≡ true)
            (no_owner : (Policy.evaluate d).requires_owner ≡ false)
            (charge : check_charge c.budget c.estimated_cost ≡ ok tt).
          (execute_guarded e p.runtime operation other (λ reaches. h (record {
            policy = policy;
            no_owner = no_owner;
            charge = charge;
            reaches = reaches;
          }))).2 in
      ground (arith, unreached)
