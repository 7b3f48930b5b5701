-- ===== src/Examples/Governed.antt =====
-- The governance of one request to deploy and one to spend.
use aurelix.Base.{
  true, false, ◌≡◌, refl, arith, none, some, [], ◌∷◌, ok, err, eq_iff, ◌↔◌, String, Bool, lookup,
}
use aurelix.Base.Int.{pos}
use aurelix.Governance.Models.{
  a3, Amount, decimal, nan, build, approved, proposed, rejected, financial,
}
use aurelix.Governance.Audit.{no_events}
use aurelix.Governance.Policy.{
  evaluate, evaluate-protected, evaluate-allowed_iff, evaluate_monotone, rank,
}
use aurelix.Governance.Policy
use aurelix.Governance.Approvals.{
  invalid_operation, OwnerApproval, Covers, apply_owner_approval, owner_approves,
  apply_owner_approval-approves_iff, apply_owner_approval-raises_iff,
}
use aurelix.Governance.Workflow.{
  ApprovalWorkflow, PendingApproval, approve, reject, not_found, amount_error,
}
use aurelix.Governance.Workflow.Pending.{IsKeyed, approve_once, approve-nan}
use aurelix.Examples.Requests.{build_request, spend_request}

abbrev approval : OwnerApproval
approval = record {
  request_id = "r3";
  owner_id = "owner";
  scope = "single";
  approved_at = 10;
  expires_at = none;
  max_amount = some (pos 100);
  approval_id = "p1";
}

evaluate-allowed_iff_example :
    let d = evaluate build_request in
    ((d.allowed ≡ true) ↔ Policy.IsWithin build a3)
    × ((d.status ≡ approved) ↔ Policy.IsWithin build a3)
    × ((d.status ≡ proposed) ↔ Policy.IsProtected build)
    × ((d.requires_owner ≡ true) ↔ Policy.IsProtected build)
    × ((d.status ≡ rejected) ↔ ((¬ Policy.IsWithin build a3) × (¬ Policy.IsProtected build)))
evaluate-allowed_iff_example = evaluate-allowed_iff build_request

approval-Covers : Covers approval (spend_request (decimal (pos 60))) 20
approval-Covers = record {
  same_request = refl;
  unexpired = tt;
  within = λ e. (omega arith, omega arith);
}

apply_owner_approval-approves_iff_example :
    apply_owner_approval (spend_request (decimal (pos 60))) approval 20
    ≡ ok (owner_approves (spend_request (decimal (pos 60))))
apply_owner_approval-approves_iff_example =
    (apply_owner_approval-approves_iff (spend_request (decimal (pos 60))) approval 20).1
      approval-Covers

apply_owner_approval-raises_iff_example :
    (apply_owner_approval (spend_request nan) (record approval { max_amount = some (pos 100) }) 20
      ≡ err invalid_operation)
    ↔ ((◌≡◌ {A = String} "r3" "r3")
        × (◌≡◌ {A = Bool} false false)
        × (financial ≡ financial)
        × (lookup "amount" (("amount", nan) ∷ []) ≡ some nan))
apply_owner_approval-raises_iff_example =
    apply_owner_approval-raises_iff (spend_request nan)
      (record approval { max_amount = some (pos 100) }) (pos 100) 20 refl

abbrev waiting : Amount → PendingApproval
waiting amount = record { request = spend_request amount; created_at = 5 }

abbrev desk : Amount → ApprovalWorkflow
desk amount = record { audit = no_events; pending = ("r3", waiting amount) ∷ [] }

desk-IsKeyed : (amount : Amount) → IsKeyed (desk amount)
desk-IsKeyed amount = record { keyed = λ k p found. ground (arith, eq_iff "r3" k) }

approve_once_example :
    let w' = (approve approval 20 (desk (decimal (pos 60)))).1 in
    (approve approval 30 w' ≡ (err not_found, w')) × (reject "r3" "owner" w' ≡ (err not_found, w'))
unfolding approve apply_owner_approval
approve_once_example =
    approve_once approval approval 20 30 "owner" (desk (decimal (pos 60)))
      {d = owner_approves (spend_request (decimal (pos 60)))} refl refl refl

approve-nan_example :
    approve approval 20 (desk nan) ≡ (err (amount_error invalid_operation), desk nan)
approve-nan_example =
    approve-nan approval 20 (desk nan) (waiting nan) (desk-IsKeyed nan) refl refl refl
      (λ e. ground arith) refl
