-- ===== src/Access.antt =====
-- src/aurelix_core: who may call the private interface. Sessions is session.py, Attempts the
-- AttemptLimiter of security.py, Capabilities authorization.py, Requests approval.py, Private
-- private_api.py and csrf.py.
pub mod Sessions
pub mod Attempts
pub mod Capabilities
pub mod Private
pub mod Requests
