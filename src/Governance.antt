-- ===== src/Governance.antt =====
-- Decisions: the policy, the Governor that applies it, and the owner's approvals
-- (src/aurelix_core/models.py, policy.py, governor.py, approvals.py, approval_workflow.py, audit.py).
pub mod Models
pub mod Audit
pub mod Policy
pub mod Approvals
pub mod Governor
pub mod Workflow
