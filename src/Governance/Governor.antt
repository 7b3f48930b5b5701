-- ===== src/Governance/Governor.antt =====
-- src/aurelix_core/governor.py. The Governor's state is its audit log; `uuid4()` is an argument.
use aurelix.Base.{
  ℕ, String, Bool, true, false, not, ◌||◌, ◌≡◌, ◌↔◌, ◌⊎◌, arith, if◌then◌else◌, List, [], ◌∷◌, ◌++◌,
  Result, ok, err, is_blank,
}
use aurelix.Base.Int.{ℤ, pos, ◌≤ℤ◌, leb_ℤ}
use aurelix.Governance.Models.{DecisionRequest, Decision, status_value, action_value}
use aurelix.Governance.Audit.{
  AuditEvent, AuditLog, text, flag, append, Extends, Extends-append, Extends-refl,
}
use aurelix.Governance.Policy
use aurelix.Governance.Approvals.{OwnerApproval, DecimalError, apply_owner_approval}

pub data GovernorRoute : Type 0 where
  policy_allowed owner_required blocked : GovernorRoute

pub record OrchestrationResult : Type 0 where
  pub request_id : String
  pub route : GovernorRoute
  pub reasons : List String

pub record Governor : Type 0 where
  pub audit : AuditLog

abbrev pub evaluated_event : DecisionRequest → Decision → AuditEvent
evaluated_event r d = record {
  event_type = "decision.evaluated";
  actor_id = r.actor.id;
  subject_id = r.id;
  outcome = status_value d.status;
  metadata =
      ("action", text (action_value r.action))
      ∷ ("allowed", flag d.allowed)
      ∷ ("requires_owner", flag d.requires_owner)
      ∷ [];
}

unfoldable pub evaluate : DecisionRequest → Governor → Decision × Governor
evaluate r g =
    let decision = Policy.evaluate r in
    (decision, record { audit = append (evaluated_event r decision) g.audit })

abbrev pub authorized_event : DecisionRequest → OwnerApproval → Decision → AuditEvent
authorized_event r a d = record {
  event_type = "decision.owner_authorized";
  actor_id = a.owner_id;
  subject_id = r.id;
  outcome = status_value d.status;
  metadata =
      ("approval_id", text a.approval_id)
      ∷ ("action", text (action_value r.action))
      ∷ ("allowed", flag d.allowed)
      ∷ [];
}

abbrev log_authorized :
    DecisionRequest
    → OwnerApproval
    → Result DecimalError Decision
    → Governor
    → Result DecimalError Decision × Governor
log_authorized r a (err e) g = (err e, g)
log_authorized r a (ok d) g = (ok d, record { audit = append (authorized_event r a d) g.audit })

unfoldable pub authorize_with_owner_approval :
    DecisionRequest → OwnerApproval → ℕ → Governor → Result DecimalError Decision × Governor
authorize_with_owner_approval r a now g = log_authorized r a (apply_owner_approval r a now) g

pub data RouteError : Type 0 where
  source_and_action_required risk_out_of_range : RouteError

abbrev add_reason : Bool → String → List String
add_reason b why = if b then why ∷ [] else []

abbrev pub review_reasons : Bool → Bool → ℤ → List String
review_reasons requires_capital production_change risk =
    add_reason requires_capital "capital authorization required"
    ++ (add_reason production_change "production change requires controlled review"
        ++ add_reason (leb_ℤ (pos 5) risk) "elevated risk requires owner review")

-- `if reasons:`
abbrev by_reasons : String → List String → OrchestrationResult
by_reasons id [] = record {
  request_id = id;
  route = policy_allowed;
  reasons = "policy checks passed; execution remains gated" ∷ [];
}
by_reasons id (r ∷ rs) = record { request_id = id; route = owner_required; reasons = r ∷ rs }

unfoldable pub route :
    String → String → String → Bool → ℤ → Bool → Result RouteError OrchestrationResult
route id source action requires_capital risk production_change =
    if is_blank source || is_blank action
    then err source_and_action_required
    else if not (leb_ℤ (pos 0) risk) || not (leb_ℤ risk (pos 10))
    then err risk_out_of_range
    else if leb_ℤ (pos 8) risk
    then ok (record { request_id = id; route = blocked; reasons = "risk threshold exceeded" ∷ [] })
    else ok (by_reasons id (review_reasons requires_capital production_change risk))

-- The route by its result, `none` for an exception.
abbrev pub route_of : Result RouteError OrchestrationResult → List GovernorRoute
route_of (ok r) = r.route ∷ []
route_of (err e) = []

module _ (id source action : String) (capital : Bool) (risk : ℤ) (production : Bool) where
  -- The Governor lets work through by policy exactly when source and action are given, the risk is
  -- from 0 to 4, no capital is asked for and production is left alone.
  pub route-policy_allowed_iff :
      (route_of (route id source action capital risk production) ≡ policy_allowed ∷ []) ↔ (
        (is_blank source ≡ false)
        × (is_blank action ≡ false)
        × (pos 0 ≤ℤ risk)
        × (risk ≤ℤ pos 4)
        × (capital ≡ false)
        × (production ≡ false))
  unfolding route
  route-policy_allowed_iff = ground arith

  -- Work is blocked exactly when source and action are given and the risk is from 8 to 10, whether
  -- or not it asks for capital or touches production.
  route-blocked_iff :
      (route_of (route id source action capital risk production) ≡ blocked ∷ [])
      ↔ ((is_blank source ≡ false) × (is_blank action ≡ false) × (pos 8 ≤ℤ risk) × (risk ≤ℤ pos 10))
  unfolding route
  route-blocked_iff = ground arith

  -- The owner is asked exactly in between: a risk from 0 to 7 with at least one of capital,
  -- production and a risk from 5 on.
  route-owner_required_iff :
      (route_of (route id source action capital risk production) ≡ owner_required ∷ []) ↔ (
        (is_blank source ≡ false)
        × (is_blank action ≡ false)
        × (pos 0 ≤ℤ risk)
        × (risk ≤ℤ pos 7)
        × ((capital ≡ true) ⊎ ((production ≡ true) ⊎ (pos 5 ≤ℤ risk))))
  unfolding route
  route-owner_required_iff = ground arith

pub evaluate-Extends : (r : DecisionRequest) (g : Governor) → Extends g.audit (evaluate r g).1.audit
unfolding evaluate
evaluate-Extends r g = Extends-append _ g.audit

pub authorize-Extends :
    (r : DecisionRequest) (a : OwnerApproval) (now : ℕ) (g : Governor)
    → Extends g.audit (authorize_with_owner_approval r a now g).1.audit
unfolding authorize_with_owner_approval
authorize-Extends r a now g = by_result (apply_owner_approval r a now)
  where
    by_result :
        (d : Result DecimalError Decision) → Extends g.audit (log_authorized r a d g).1.audit
    by_result (ok d) = Extends-append _ g.audit
    by_result (err e) = Extends-refl g.audit
