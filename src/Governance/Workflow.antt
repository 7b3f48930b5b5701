-- ===== src/Governance/Workflow.antt =====
-- src/aurelix_core/approval_workflow.py. The lock makes each access of `_pending` one step. `approve`
-- is one step here, though it releases the lock between reading the request and taking it out: calls
-- that overlap inside it are not modelled. The time and the generated id of a call are arguments.
pub mod Pending
use aurelix.Base.{
  ℕ, String, Bool, true, false, ◌≡◌, refl, arith, if◌then◌else◌, Option, none, some, List, [], ◌∷◌,
  Dict, lookup, insert, erase, values, Result, ok, err,
}
use aurelix.Base.Int.{ℤ}
use aurelix.Governance.Models.{
  DecisionRequest, Decision, DecisionStatus, rejected, approved, is_approved,
}
use aurelix.Governance.Audit.{AuditEvent, AuditLog, append}
use aurelix.Governance.Approvals.{OwnerApproval, DecimalError, apply_owner_approval}

pub record PendingApproval : Type 0 where
  pub request : DecisionRequest
  pub created_at : ℕ

pub record ApprovalWorkflow : Type 0 where
  pub audit : AuditLog
  pub pending : Dict PendingApproval

pub data WorkflowError : Type 0 where
  not_found : WorkflowError
  amount_error : DecimalError → WorkflowError

-- What `reject` returns.
pub record Rejection : Type 0 where
  pub request_id : String
  pub status : DecisionStatus
  pub allowed : Bool

abbrev pub record_audit : String → String → String → String → ApprovalWorkflow → ApprovalWorkflow
record_audit event_type actor_id subject_id outcome w = record w {
  audit =
      append
        (record {
          event_type = event_type;
          actor_id = actor_id;
          subject_id = subject_id;
          outcome = outcome;
          metadata = [];
        })
        w.audit;
}

unfoldable pub submit :
    DecisionRequest → String → ℕ → ApprovalWorkflow → PendingApproval × ApprovalWorkflow
submit r actor now w =
    let item : PendingApproval = record { request = r; created_at = now } in
    (
      item,
      record_audit "approval.requested" actor r.id "PENDING"
          (record w { pending = insert r.id item w.pending }),
    )

-- What `approve` does with the decision on a request that it has found.
settle :
    String
    → String
    → Result DecimalError Decision
    → ApprovalWorkflow
    → Result WorkflowError Decision × ApprovalWorkflow
settle request_id owner_id (err e) w = (err (amount_error e), w)
settle request_id owner_id (ok d) w = (
  ok d,
  if is_approved d.status
      then record_audit "approval.decided" owner_id request_id "APPROVED"
          (record w { pending = erase request_id w.pending })
      else record_audit "approval.decided" owner_id request_id "REJECTED" w,
)

approve_found :
    OwnerApproval
    → ℕ
    → Option PendingApproval
    → ApprovalWorkflow
    → Result WorkflowError Decision × ApprovalWorkflow
unfolding settle
approve_found a now none w = (err not_found, w)
approve_found a now (some item) w =
    settle a.request_id a.owner_id (apply_owner_approval item.request a now) w

-- The approval that `approve` builds from its arguments.
abbrev pub grant : String → String → String → Option ℤ → Option ℕ → ℕ → String → OwnerApproval
grant request_id owner_id scope max_amount expires_at now approval_id = record {
  request_id = request_id;
  owner_id = owner_id;
  scope = scope;
  approved_at = now;
  expires_at = expires_at;
  max_amount = max_amount;
  approval_id = approval_id;
}

-- The arguments of `approve` come as the approval built from them.
unfoldable pub approve :
    OwnerApproval → ℕ → ApprovalWorkflow → Result WorkflowError Decision × ApprovalWorkflow
unfolding approve_found
approve a now w = approve_found a now (lookup a.request_id w.pending) w

reject_found :
    String
    → String
    → Option PendingApproval
    → ApprovalWorkflow
    → Result WorkflowError Rejection × ApprovalWorkflow
reject_found request_id owner_id none w = (err not_found, w)
reject_found request_id owner_id (some item) w = (
  ok (record { request_id = request_id; status = rejected; allowed = false }),
  record_audit "approval.decided" owner_id request_id "REJECTED"
      (record w { pending = erase request_id w.pending }),
)

unfoldable pub reject :
    String → String → ApprovalWorkflow → Result WorkflowError Rejection × ApprovalWorkflow
unfolding reject_found
reject request_id owner_id w = reject_found request_id owner_id (lookup request_id w.pending) w

-- `pending`
unfoldable pub pending_approvals : ApprovalWorkflow → List PendingApproval
pending_approvals w = values w.pending
