-- ===== src/Runtime.antt =====
-- The worker side of src/aurelix_runtime, on top of the store: Loop is the orchestration loop of
-- runtime.py, Trials the experiments that it keeps, Queue job_queue.py, Coordination
-- orchestrator.py, and Supervised supervised_worker.py.
pub mod Handlers
pub mod Loop
pub mod Trials
pub mod Queue
pub mod Coordination
pub mod Supervised
