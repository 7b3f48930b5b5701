-- ===== src/Workers.antt =====
-- src/aurelix_runtime: the parts that run beside the store. Supervisor is worker_supervisor.py,
-- Operations operations.py, Missions mission_contracts.py, Messages message_fabric.py, Pipeline
-- engine_registry.py and pipeline.py, Plane execution_plane.py, Schedules scheduler.py, Transitions
-- agent_policy.py, provenance.py and governance.py, Consent approval.py.
pub mod Supervisor
pub mod Operations
pub mod Missions
pub mod Messages
pub mod Pipeline
pub mod Plane
pub mod Schedules
pub mod Transitions
pub mod Consent
