-- ===== src/Execution/Gate.antt =====
-- src/aurelix_core/execution_gate.py.
use aurelix.Base.{String, Bool, true, not, ◌≡◌, ◌↔◌, arith, if◌then◌else◌, List, [], ◌∷◌}

pub data GateStatus : Type 0 where
  blocked ready : GateStatus

pub record GateResult : Type 0 where
  pub status : GateStatus
  pub reason : String

pub record ExecutionContext : Type 0 where
  pub approved : Bool
  pub policy_allowed : Bool
  pub budget_allowed : Bool
  pub breaker_ready : Bool
  pub audit_ready : Bool

-- The `for` loop over the checks: the first that fails decides.
first_failure : List (Bool × String) → GateResult
first_failure [] = record { status = ready; reason = "all execution gates passed" }
first_failure ((allowed, reason) ∷ checks) =
    if not allowed then record { status = blocked; reason = reason } else first_failure checks

unfoldable pub evaluate : ExecutionContext → GateResult
unfolding first_failure
evaluate c = first_failure (
    (c.approved, "owner approval required")
    ∷ (c.policy_allowed, "policy blocked execution")
    ∷ (c.budget_allowed, "budget blocked execution")
    ∷ (c.breaker_ready, "circuit breaker is not ready")
    ∷ (c.audit_ready, "audit boundary is not ready")
    ∷ [])

-- The gate is ready exactly when the owner has approved, the policy and the budget allow, the breaker
-- is ready and the audit is ready; in every other case it is blocked.
pub evaluate-ready_iff :
    (c : ExecutionContext)
    → ((evaluate c).status ≡ ready) ↔ (
        (c.approved ≡ true)
        × (c.policy_allowed ≡ true)
        × (c.budget_allowed ≡ true)
        × (c.breaker_ready ≡ true)
        × (c.audit_ready ≡ true))
unfolding evaluate
evaluate-ready_iff c = ground arith
