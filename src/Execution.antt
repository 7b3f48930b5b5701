-- ===== src/Execution.antt =====
-- The guarded execution of bounded operations: circuit breaker, scope, budget, treasury, limits, and
-- the control plane that composes them (src/aurelix_core/circuit_breaker.py, execution_gate.py,
-- resource_scope.py, budget.py, treasury.py, limits.py, execution.py, control_plane.py,
-- execution_authorizer.py).
pub mod Breaker
pub mod Gate
pub mod Scope
pub mod Budget
pub mod Treasury
pub mod Limits
pub mod Runtime
pub mod ControlPlane
pub mod Authorizer
