-- ===== src/Learning.antt =====
-- The learning side of src/aurelix_core: Study is continuous_intelligence.py, Escalation
-- capability_escalation.py, Adaptive adaptive_loop.py, and Providers capability_control_plane.py.
pub mod Study
pub mod Escalation
pub mod Adaptive
pub mod Providers
