-- ===== src/Lib.antt =====
-- AURELIX: the governed execution core, the durable job store and the workers of an autonomous
-- agent runtime (src/aurelix_core and src/aurelix_runtime).
--
-- How the program works. An agent proposes an action. The Governor (governor.py) asks the policy
-- (policy.py), which allows an action by the agent's autonomy level or hands it to the owner, whose
-- approvals (approvals.py) are decided in a workflow (approval_workflow.py). The control plane
-- (control_plane.py) and the authorizer (execution_authorizer.py) let an operation run only behind
-- the policy, a budget, a resource scope and a circuit breaker. Jobs live in an SQLite store
-- (persistence.py), where workers claim them under leases fenced by a token: the runtime's loop
-- (runtime.py) and the durable queue (job_queue.py) run the handler of a claimed job and settle it, and
-- the orchestrator (orchestrator.py) submits work to them behind the Governor. Beside the store stand
-- the supervisor of the workers, the scheduler, the engines' pipeline and plane, the messages between
-- agents, the missions, and the checks of the private interface. A business opportunity is qualified by
-- evidence and executed behind the same Governor, scope and breaker, and its revenue is recorded
-- (opportunity_execution_bridge.py). A mission that lacks a capability is blocked until learning has
-- validated it (adaptive_loop.py).
--
-- Files and sources:
--   Base        shared helpers: tests, texts, lists, integers, dicts, results
--   Governance  src/aurelix_core: Models models.py, Audit audit.py, Policy policy.py, Approvals
--               approvals.py, Governor governor.py, Workflow approval_workflow.py
--   Execution   src/aurelix_core: Breaker circuit_breaker.py, Gate execution_gate.py, Scope
--               resource_scope.py, Budget budget.py, Treasury treasury.py, Limits limits.py, Runtime
--               execution.py, ControlPlane control_plane.py, Authorizer execution_authorizer.py
--   Store       src/aurelix_runtime/persistence.py: Tables the rows and plain reads and writes, Lease
--               claims and heartbeats, Finish the ends of a job, Recovery the recovery of lost leases,
--               Reports the status counts, Invariant and Calls the proofs over sequences of calls,
--               Machine the abstract life of a job
--   Runtime     src/aurelix_runtime: Handlers and Loop runtime.py, Trials its experiments, Queue
--               job_queue.py, Coordination orchestrator.py, Supervised supervised_worker.py
--   Workers     src/aurelix_runtime: Supervisor worker_supervisor.py, Operations operations.py,
--               Missions mission_contracts.py, Messages message_fabric.py, Pipeline
--               engine_registry.py and pipeline.py, Plane execution_plane.py, Schedules scheduler.py,
--               Transitions agent_policy.py, provenance.py and governance.py, Consent approval.py
--   Access      src/aurelix_core: Sessions session.py, Attempts security.py, Capabilities identity.py
--               and authorization.py, Requests approval.py, Private private_api.py and csrf.py
--   Knowledge   src/aurelix_core: Graph knowledge_graph.py, Experiments experiments.py, Evaluation
--               evaluation.py
--   Economy     src/aurelix_core: Evidence evidence.py, Opportunities opportunities.py, Qualification
--               economic_opportunity_validation.py, Revenue revenue.py, Attribution
--               economic_attribution.py, Lessons verified_economic_learning.py, Sources
--               opportunity_revenue_bridge.py, Portfolio revenue_portfolio.py, Business
--               opportunity_execution_bridge.py
--   Learning    src/aurelix_core: Study continuous_intelligence.py, Escalation
--               capability_escalation.py, Adaptive adaptive_loop.py, Providers
--               capability_control_plane.py
--   Examples    runs of the above on concrete inputs
-- A function or method has its name in the source, without a leading underscore; `__init__` is `new`,
-- and a name that is a keyword or a constructor here has a longer one (`make_ready`, `all_events`).
--
-- How it is modelled. A method is a function that returns its result and the new object; an
-- exception is the `err` of a Result, and what was written before a raise stays written, except
-- inside a transaction, which is one step and rolls back. Every method is one step, so the callers
-- of one object are a list of calls in any order. For the store, its lock makes them so within one
-- process; between processes, the transactions and single statements of its methods do, but for
-- `finish` with a failure and `record_result`, which read the row outside a transaction. Processes
-- that interleave inside these two are not modelled, nor are threads inside `approve` of the
-- workflow, which releases its lock between reading a request and taking it out. Times are native
-- numbers, in microseconds, and come as arguments, as do uuid4 ids and tokens; the store's ISO
-- texts sort as the times do. A Decimal or float amount is an integer in the smallest unit in use;
-- NaN and texts that are no number are values of their own, and infinities are left out. Generated
-- event ids and time stamps are left out of audit events. JSON documents are an interface,
-- `Documents`, with the documents that the store makes and the equality that it tests; a handler's
-- output is such a document, or an object that `json.dumps` refuses, which `complete` meets after
-- its checks. Operations, handlers, runners and the key derivation are parameters: what a call of
-- them returns or raises. A control plane is one that `create` builds without arguments.
--
-- Loops are structural recursion over the rows, handlers, stages or rounds that the source iterates,
-- so no fuel is needed: the bound of a retry and of a tick is the loop's own counter.
--
-- A round of the loop takes the calls that are made on the store while its handler runs as a list, which
-- stands for the handler's own calls, the heartbeat thread's and every other worker's, each as a whole.
--
-- Not modelled: the runners of jobs and experiments (job_runner.py, experiment_runner.py),
-- the HTTP side of the private API, the lineage search of provenance.py,
-- the research text pipelines, SQL repositories, providers, servers and pages, since they are mostly
-- input and output or glue; the store's schema migration, its audit summary and `close`; threads'
-- timing other than the order of their calls.
pub mod Base
pub mod Examples
pub mod Governance
pub mod Execution
pub mod Store
pub mod Runtime
pub mod Access
pub mod Knowledge
pub mod Learning
pub mod Economy
pub mod Workers
