-- ===== src/Workers/Consent.antt =====
-- src/aurelix_runtime/approval.py. The uuid4 of a request is an argument.
use aurelix.Base.{
  Bool, true, false, ◌||◌, ◌≡◌, ◌↔◌, arith, String, Result, ok, err, if◌then◌else◌, is_blank,
  eq_iff,
}

pub data ApprovalClass : Type 0 where
  observe analyze propose mutate financial production : ApprovalClass

pub record ApprovalRequest : Type 0 where
  pub request_id : String
  pub action : String
  pub approval_class : ApprovalClass
  pub reason : String
  pub status : String

pub data RequestError : Type 0 where
  action_and_reason_required : RequestError

-- `ApprovalGate.request`
unfoldable pub request :
    String → String → ApprovalClass → String → Result RequestError ApprovalRequest
request request_id action approval_class reason =
    if is_blank action || is_blank reason
    then err action_and_reason_required
    else ok (record {
      request_id = request_id;
      action = action;
      approval_class = approval_class;
      reason = reason;
      status = "pending";
    })

unfoldable pub authorize : ApprovalRequest → Bool → ApprovalRequest
authorize r approved = record {
  request_id = r.request_id;
  action = r.action;
  approval_class = r.approval_class;
  reason = r.reason;
  status = if approved then "approved" else "rejected";
}

-- A request with an action and a reason is approved exactly by an authorization that approves it: made
-- without one it is pending, and a later refusal takes an approval back.
pub request-authorize_iff :
    (request_id action reason : String) (c : ApprovalClass) (r : ApprovalRequest)
    (first last : Bool)
    → request request_id action c reason ≡ ok r
    → (r.status ≡ "pending")
      × (((authorize (authorize r first) last).status ≡ "approved") ↔ (last ≡ true))
      × ((authorize (authorize r first) last).action ≡ action)
unfolding request authorize
request-authorize_iff request_id action reason c r first true h = ground arith
request-authorize_iff request_id action reason c r first false h =
    ground (arith, eq_iff "rejected" "approved")
