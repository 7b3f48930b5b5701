-- ===== src/Governance/Approvals.antt =====
-- src/aurelix_core/approvals.py. The time of the call is the argument `now`.
use aurelix.Base.{
  ℕ, ◌<◌, String, Bool, true, false, not, ◌||◌, ◌≡◌, ◌↔◌, arith, leb, if◌then◌else◌, Option, none,
  some, lookup, Result, ok, err, ◌==◌, string_eq, eq_iff,
}
use aurelix.Base.Int.{ℤ, pos, ◌≤ℤ◌, ltb_ℤ}
use aurelix.Governance.Models.{
  Amount, unreadable, nan, decimal, ActionClass, financial, is_financial, approved, rejected,
  DecisionRequest, Decision,
}

pub record OwnerApproval : Type 0 where
  pub request_id : String
  pub owner_id : String
  pub scope : String
  pub approved_at : ℕ
  pub expires_at : Option ℕ
  pub max_amount : Option ℤ
  pub approval_id : String

-- The exception `decimal.InvalidOperation`.
pub data DecimalError : Type 0 where
  invalid_operation : DecimalError

abbrev pub expired : Option ℕ → ℕ → Bool
expired none now = false
expired (some e) now = leb e now

-- The test of a financial amount against a cap. Reading the amount is inside the `try`, comparing
-- it is not.
amount_within : ℤ → Option Amount → Result DecimalError Bool
amount_within cap none = ok false
amount_within cap (some unreadable) = ok false
amount_within cap (some nan) = err invalid_operation
amount_within cap (some (decimal x)) = ok (not (ltb_ℤ x (pos 0) || ltb_ℤ cap x))

capped : Option ℤ → Option Amount → Result DecimalError Bool
unfolding amount_within
capped none raw = ok true
capped (some cap) raw = amount_within cap raw

unfoldable pub is_valid_for : OwnerApproval → DecisionRequest → ℕ → Result DecimalError Bool
unfolding capped
is_valid_for a r now =
    if not (r.id == a.request_id)
    then ok false
    else if expired a.expires_at now
    then ok false
    else if is_financial r.action
    then capped a.max_amount (lookup "amount" r.payload)
    else ok true

abbrev pub owner_rejects : DecisionRequest → Decision
owner_rejects r = record {
  request_id = r.id;
  status = rejected;
  allowed = false;
  reason = "Owner approval is missing, expired, mismatched, or outside its scope.";
  requires_owner = true;
}

abbrev pub owner_approves : DecisionRequest → Decision
owner_approves r = record {
  request_id = r.id;
  status = approved;
  allowed = true;
  reason = "Protected action has an explicit, scoped owner approval.";
  requires_owner = true;
}

abbrev decide : DecisionRequest → Result DecimalError Bool → Result DecimalError Decision
decide r (ok true) = ok (owner_approves r)
decide r (ok false) = ok (owner_rejects r)
decide r (err e) = err e

unfoldable pub apply_owner_approval :
    DecisionRequest → OwnerApproval → ℕ → Result DecimalError Decision
unfolding is_valid_for
apply_owner_approval r a now = decide r (is_valid_for a r now)

-- What an approval has to satisfy, stated without the code.
abbrev pub IsUnexpired : Option ℕ → ℕ → Type 0
IsUnexpired none now = Unit
IsUnexpired (some e) now = now < e

abbrev pub IsWithin : Option ℤ → Option Amount → Type 0
IsWithin none raw = Unit
IsWithin (some cap) (some (decimal x)) = (pos 0 ≤ℤ x) × (x ≤ℤ cap)
IsWithin (some cap) _ = ⊥

pub record Covers (a : OwnerApproval) (r : DecisionRequest) (now : ℕ) : Type 0 where
  pub same_request : r.id ≡ a.request_id
  pub unexpired : IsUnexpired a.expires_at now
  pub within : r.action ≡ financial → IsWithin a.max_amount (lookup "amount" r.payload)

expired_iff : (e : Option ℕ) (now : ℕ) → (expired e now ≡ false) ↔ IsUnexpired e now
expired_iff none now = ground arith
expired_iff (some e) now = ground arith

capped_iff : (cap : Option ℤ) (raw : Option Amount) → (capped cap raw ≡ ok true) ↔ IsWithin cap raw
unfolding capped
capped_iff none raw = ground arith
capped_iff (some cap) none = ground arith
capped_iff (some cap) (some unreadable) = ground arith
capped_iff (some cap) (some nan) = ground arith
capped_iff (some cap) (some (decimal x)) = ground arith

is_financial→eq : (c : ActionClass) → is_financial c ≡ true → c ≡ financial
is_financial→eq c h = ground arith

is_valid_for→Covers :
    (a : OwnerApproval) (r : DecisionRequest) (now : ℕ)
    → is_valid_for a r now ≡ ok true
    → Covers a r now
unfolding is_valid_for
is_valid_for→Covers a r now h = record {
  same_request = ground (arith, eq_iff r.id a.request_id);
  unexpired = (expired_iff a.expires_at now).0 (ground arith);
  within = λ f. (capped_iff a.max_amount (lookup "amount" r.payload)).0 (ground arith);
}

Covers→is_valid_for :
    (a : OwnerApproval) (r : DecisionRequest) (now : ℕ)
    → Covers a r now
    → is_valid_for a r now ≡ ok true
unfolding is_valid_for
Covers→is_valid_for a r now h =
    let e = (expired_iff a.expires_at now).1 h.unexpired in
    let c = λ (f : r.action ≡ financial).
      (capped_iff a.max_amount (lookup "amount" r.payload)).1 (h.within f) in
    ground (arith, eq_iff r.id a.request_id, h.same_request, is_financial→eq r.action)

-- Applying an owner's approval gives an allowed decision exactly when the approval names this
-- request, has not expired, and, for a financial action with a cap, the payload's amount is a
-- number from 0 to the cap.
pub apply_owner_approval-approves_iff :
    (r : DecisionRequest) (a : OwnerApproval) (now : ℕ)
    → (apply_owner_approval r a now ≡ ok (owner_approves r)) ↔ Covers a r now
unfolding apply_owner_approval
apply_owner_approval-approves_iff r a now = (
  λ h. is_valid_for→Covers a r now (ground arith),
  λ c. ground (arith, Covers→is_valid_for a r now c),
)

-- Under an approval with a cap, a decimal other than NaN, applying it raises instead of giving a decision
-- exactly when it names the request, has not expired, the action is financial and the amount is NaN: any
-- other mismatch, an amount that is missing or no decimal among them, gives a decision.
pub apply_owner_approval-raises_iff :
    (r : DecisionRequest) (a : OwnerApproval) (cap : ℤ) (now : ℕ)
    → a.max_amount ≡ some cap
    → (apply_owner_approval r a now ≡ err invalid_operation) ↔ (
        (r.id ≡ a.request_id)
        × (expired a.expires_at now ≡ false)
        × (r.action ≡ financial)
        × (lookup "amount" r.payload ≡ some nan))
unfolding apply_owner_approval amount_within
apply_owner_approval-raises_iff r a cap now h =
    ground (arith, eq_iff r.id a.request_id, is_financial→eq r.action)
