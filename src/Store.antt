-- ===== src/Store.antt =====
-- The durable execution state of src/aurelix_runtime/persistence.py: the SQLite tables as lists, and
-- each method of `RuntimeStore`, which runs under a lock and in one transaction, as one step.
-- Times are microseconds; the ISO texts that the tables hold sort as their times do. The time of a
-- call and the ids that `uuid4()` makes are arguments.
pub mod Tables
pub mod Lease
pub mod Finish
pub mod Recovery
pub mod Invariant
pub mod Calls
pub mod Machine
pub mod Reports
