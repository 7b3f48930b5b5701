-- ===== src/Governance/Workflow/Pending.antt =====
-- How the workflow's methods change the pending requests and the log.
use aurelix.Base.{
  ℕ, String, ◌≡◌, ◌≢◌, ◌↔◌, inl, inr, arith, Option, none, some, lookup, erase, Result, ok, err,
  Option-cases, Bool-cases, lookup-insert, lookup-erase, lookup-erase_self, lookup-erase_ne, eq_iff,
  string_eq,
}
use aurelix.Governance.Models.{DecisionRequest, Decision, approved, is_approved, financial, nan}
use aurelix.Governance.Audit.{Extends, Extends-append, Extends-refl}
use aurelix.Governance.Approvals.{
  OwnerApproval, DecimalError, invalid_operation, apply_owner_approval, Covers,
  apply_owner_approval-approves_iff,
}
use aurelix.Governance.Workflow.{
  PendingApproval, ApprovalWorkflow, not_found, amount_error, submit, settle, approve,
  approve_found, reject,
}

-- Every request waits under its own id.
pub record IsKeyed (w : ApprovalWorkflow) : Type 0 where
  pub keyed : (k : String) (p : PendingApproval) → lookup k w.pending ≡ some p → p.request.id ≡ k

-- Submitting a request keeps every pending request under its own id.
pub submit-IsKeyed :
    (r : DecisionRequest) (actor : String) (now : ℕ) (w : ApprovalWorkflow)
    → IsKeyed w
    → IsKeyed (submit r actor now w).1
unfolding submit
submit-IsKeyed r actor now w h = record {
  keyed = λ k p e.
      let item : PendingApproval = record { request = r; created_at = now } in
      ground (arith, lookup-insert r.id k item w.pending, eq_iff r.id k, h.keyed k p);
}

erase-keyed :
    (id : String) (w : ApprovalWorkflow) (k : String) (p : PendingApproval)
    → IsKeyed w
    → lookup k (erase id w.pending) ≡ some p
    → p.request.id ≡ k
erase-keyed id w k p h e = ground (arith, lookup-erase id k w.pending, h.keyed k p)

-- Approving keeps every pending request under its own id.
pub approve-IsKeyed :
    (a : OwnerApproval) (now : ℕ) (w : ApprovalWorkflow) → IsKeyed w → IsKeyed (approve a now w).1
unfolding approve
approve-IsKeyed a now w h = record {
  keyed = λ k p e. ground (arith, erase-keyed a.request_id w k p h, h.keyed k p);
}

-- Rejecting keeps every pending request under its own id.
pub reject-IsKeyed :
    (id owner : String) (w : ApprovalWorkflow) → IsKeyed w → IsKeyed (reject id owner w).1
unfolding reject
reject-IsKeyed id owner w h = record {
  keyed = λ k p e. ground (arith, erase-keyed id w k p h, h.keyed k p);
}

-- When every pending request waits under its own id, approving one takes it off the list exactly
-- when the approval covers it; the test of the request id never stands in the way.
approve-removes_iff :
    (a : OwnerApproval) (now : ℕ) (w : ApprovalWorkflow) (p : PendingApproval)
    → IsKeyed w
    → lookup a.request_id w.pending ≡ some p
    → (lookup a.request_id (approve a now w).1.pending ≡ none) ↔ Covers a p.request now
unfolding approve apply_owner_approval
approve-removes_iff a now w p h e = (
  λ gone. (apply_owner_approval-approves_iff p.request a now).0 (ground arith),
  λ c.
      let approves = (apply_owner_approval-approves_iff p.request a now).1 c in
      ground (arith, lookup-erase_self a.request_id w.pending),
)

-- A request that an approval has taken off the list cannot be decided again: both `approve` and
-- `reject` raise, and change nothing.
pub approve_once :
    (a b : OwnerApproval) (now later : ℕ) (owner : String) (w : ApprovalWorkflow) {d : Decision}
    → (approve a now w).0 ≡ ok d
    → d.status ≡ approved
    → b.request_id ≡ a.request_id
    → let w' = (approve a now w).1 in
      (approve b later w' ≡ (err not_found, w'))
      × (reject a.request_id owner w' ≡ (err not_found, w'))
unfolding approve reject
approve_once a b now later owner w h s e = elim (Option-cases (lookup a.request_id w.pending)) [
  | inl unknown ↦ absurd (ground arith)
  | inr (p, known) ↦ ground (arith, lookup-erase_self a.request_id w.pending)
]

-- No method touches a pending request with another id.
pub approve_others :
    (a : OwnerApproval) (now : ℕ) (w : ApprovalWorkflow) (k : String)
    → a.request_id ≢ k
    → lookup k (approve a now w).1.pending ≡ lookup k w.pending
unfolding approve
approve_others a now w k h = ground (arith, lookup-erase_ne a.request_id k w.pending h)

-- When every pending request waits under its own id, a financial request whose amount is not a
-- number cannot be decided by an approval with a cap and no expiry: `approve` raises, the request
-- stays pending, and nothing is logged.
pub approve-nan :
    (a : OwnerApproval) (now : ℕ) (w : ApprovalWorkflow) (p : PendingApproval)
    → IsKeyed w
    → lookup a.request_id w.pending ≡ some p
    → p.request.action ≡ financial
    → lookup "amount" p.request.payload ≡ some nan
    → a.max_amount ≢ none
    → a.expires_at ≡ none
    → approve a now w ≡ (err (amount_error invalid_operation), w)
unfolding approve apply_owner_approval
approve-nan a now w p h e f amount cap exp =
    let same = h.keyed a.request_id p e in ground (arith, eq_iff p.request.id a.request_id)

-- Every decision that `approve` or `reject` returns is logged, and the log is only appended to.
pub approve-Extends :
    (a : OwnerApproval) (now : ℕ) (w : ApprovalWorkflow) → Extends w.audit (approve a now w).1.audit
unfolding approve
approve-Extends a now w = by_found (lookup a.request_id w.pending)
  where
    by_decision :
        (d : Result DecimalError Decision)
        → Extends w.audit (settle a.request_id a.owner_id d w).1.audit
    by_decision (err e) = Extends-refl w.audit
    by_decision (ok d) = elim (Bool-cases (is_approved d.status)) [
      | inl yes_ ↦ rw yes_ (Extends-append _ w.audit)
      | inr no_ ↦ rw no_ (Extends-append _ w.audit)
    ]

    by_found :
        (item : Option PendingApproval) → Extends w.audit (approve_found a now item w).1.audit
    by_found none = Extends-refl w.audit
    by_found (some item) = by_decision (apply_owner_approval item.request a now)
