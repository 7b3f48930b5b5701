-- ===== src/Examples/Queueing.antt =====
-- The durable queue, the table of experiments and the orchestrator on concrete inputs.
use aurelix.Store.Calls.Attempts.{total_attempts}
use aurelix.Base.{
  length, ◌≤◌, String, true, false, ◌≡◌, ◌≢◌, ◌⊎◌, refl, Option, none, some, [], ◌∷◌, Result, ok,
  err, is_ok, string_eq, ◌==◌, ◌+◌, List,
}
use aurelix.Base.Int.{pos, ◌≤ℤ◌}
use aurelix.Store.Tables.{
  lease_end, Job, RuntimeStore, queued, new, find_job, record_of, queued_job, get,
}
use aurelix.Store.Lease.{claim, claim_found, claim_row, claimed}
use aurelix.Store.Finish.{released}
use aurelix.Store.Calls.{run_calls}
use aurelix.Runtime.Trials.{Experiment, Tables, register_experiment, get_experiment}
use aurelix.Runtime.Trials.Stored.{UniqueRows, get_experiment-register_experiment}
use aurelix.Runtime.Queue.{
  PersistentJobQueue, QueuedJob, Failure, JobExecution, different_objective, run_failed, enqueue,
  queued_of, claim_job,
}
use aurelix.Runtime.Queue.Running.{execute}
use aurelix.Runtime.Queue.Again.{enqueue_again}
use aurelix.Runtime.Queue.Failing.{execute-gives_up}
use aurelix.Runtime.Coordination.{
  Orchestrator, on_queue, Ticket, submit_work, submit_work-permitted,
}
use aurelix.Runtime.Handlers.{Raised, AurelixRuntime}
use aurelix.Runtime.Supervised.{SupervisedWorker, JobRound, run_once}
use aurelix.Runtime.Supervised.Bounded.{run_once-bounded}
use aurelix.Examples.Documents.{Document, tagged}

abbrev empty_queue : PersistentJobQueue Document
empty_queue = record { store = new 30; events = []; worker_id = "me"; jobs = [] }

fresh : find_job "a" (new {D = Document} 30).jobs ≡ none
unfolding new
fresh = refl

enqueue_again_example :
    let (first, q') = enqueue "a" "learn" 5 empty_queue in
    let r = queued_job {D = Document} "a" "autonomy.run" (3, "learn") 5 in
    (get "a" q'.store ≡ some (record_of r))
    × (first ≡ ok (queued_of r))
    × ((enqueue "a" "learn" 6 q').0 ≡ first)
    × ((enqueue "a" "learn" 6 q').1.store ≡ q'.store)
    × ((other : String)
        → "learn" ≢ other
        → enqueue "a" other 6 q' ≡ (err (different_objective "a"), q'))
enqueue_again_example = enqueue_again "a" "learn" 5 6 empty_queue fresh

abbrev exhausted : Failure
exhausted = record { type_name = "MemoryError"; message = "out of memory" }

abbrev failing : String → String → RuntimeStore Document → Result Failure (JobExecution Document)
failing job_id objective s = err exhausted

abbrev no_text : Document → Option String
no_text d = none

abbrev no_document : Document → Option Document
no_document d = none

abbrev waiting_row : Job Document
waiting_row = queued_job "a" "autonomy.run" (3, "learn") 5

abbrev stored_queue : PersistentJobQueue Document
stored_queue = record {
  store = record {
    jobs = waiting_row ∷ [];
    results = [];
    audit_events = [];
    runtime_heartbeat = none;
    lease_seconds = 1000000;
    supports_interrupted = true;
  };
  events = [];
  worker_id = "me";
  jobs = [];
}

abbrev claimed_row : Job Document
claimed_row = claimed (some "me") "t1" 11 1000011 waiting_row

abbrev claimed_entry : QueuedJob
claimed_entry = queued_of claimed_row

claim_stored :
    claim_job "a" "t1" 11 stored_queue ≡ (ok claimed_entry, (claim_job "a" "t1" 11 stored_queue).1)
unfolding claim_job claim claim_found claim_row
claim_stored = refl

row_stored :
    find_job "a" (run_calls [] (claim_job "a" "t1" 11 stored_queue).1.store).jobs ≡ some claimed_row
unfolding claim_job claim claim_found claim_row run_calls lease_end
row_stored = refl

get_stored : get "a" stored_queue.store ≡ some (record_of waiting_row)
unfolding get
get_stored = refl

execute-gives_up_example :
    let o = execute no_text no_document "a" failing [] "t1" 11 20 stored_queue in
    (o.0 ≡ err (run_failed exhausted))
    × (find_job "a" o.1.store.jobs ≡ some (released queued 20 (some "out of memory") claimed_row))
execute-gives_up_example =
    execute-gives_up no_text no_document "a" failing [] "t1" 11 20 stored_queue
      (claim_job "a" "t1" 11 stored_queue).1 (record_of waiting_row) claimed_entry exhausted
      claimed_row "me" "t1" get_stored refl claim_stored refl row_stored refl refl refl

abbrev orchestrator : Orchestrator Document
orchestrator = record {
  backend = on_queue empty_queue;
  capabilities =
      ("learn", record { name = "learn"; handler = λ p s. ok none; read_only = true }) ∷ [];
}

abbrev ticket : Ticket
ticket = record {
  request_id = "r1";
  payload_id = "140";
  job_id = "j1";
  event_id = "e1";
  now = 5;
  audited_at = 6;
}

submit_work-permitted_example :
    let (outcome, o') = submit_work "learn" (3, "read") (pos 2) false false ticket orchestrator in
    ((is_ok outcome ≡ false) × (o' ≡ orchestrator))
    ⊎ ((true ≡ true) × (pos 0 ≤ℤ pos 2) × (pos 2 ≤ℤ pos 4) × (false ≡ false) × (false ≡ false))
submit_work-permitted_example =
    submit_work-permitted "learn" (3, "read") (pos 2) false false ticket orchestrator

abbrev trial : Experiment Document
trial = record {
  id = "x1";
  hypothesis = "shorter prompts are cheaper";
  success_criteria = (3, "cost");
  status = "proposed";
  result = none;
}

abbrev ended_trial : Experiment Document
ended_trial = record trial { status = "complete"; result = some (1, "passed") }

abbrev trial_job : Job Document
trial_job = queued_job "j1" "experiment.run" (3, "x1") 5

abbrev trials : Tables Document
trials = record {
  store = record {
    jobs = trial_job ∷ [];
    results = [];
    audit_events = [];
    runtime_heartbeat = none;
    lease_seconds = 1000000;
    supports_interrupted = true;
  };
  experiments = record { experiment = ended_trial; created_at = 4; updated_at = 4 } ∷ [];
  observations = [];
}

get_experiment-register_experiment_example :
    let t' = register_experiment trial 9 trials in
    (get_experiment "x1" t' ≡ ok ended_trial)
    × ((k : String) → ("x1" == k) ≡ false → get_experiment k t' ≡ get_experiment k trials)
    × UniqueRows t'.experiments
get_experiment-register_experiment_example =
    get_experiment-register_experiment trial 9 trials (refl, tt)

abbrev diligent : String → String → RuntimeStore Document → Result Raised (JobExecution Document)
diligent job_id objective s =
    ok (record { job_id = job_id; status = "completed"; result = (1, "") })

abbrev result_of : JobExecution Document → Document
result_of e = e.result

abbrev supervised : SupervisedWorker Document
supervised = record {
  queue = stored_queue;
  max_jobs = 1;
  max_attempts = 3;
  worker_id = "me";
  heartbeat_count = 0;
}

abbrev job_round : QueuedJob → JobRound Document
job_round j = record { token = "t1"; claimed_at = 11; ended_at = 20; others = [] }

abbrev plain_repr : String → String
plain_repr s = s

run_once-bounded_example :
    let o = run_once plain_repr result_of diligent 10 job_round supervised in
    let before = total_attempts supervised.queue.store.jobs in
    let after = total_attempts o.1.queue.store.jobs in
    (after ≤ before + 1)
    × ((done : List String) → o.0 ≡ ok done → (length done ≤ 1) × (after ≤ before + length done))
run_once-bounded_example =
    run_once-bounded plain_repr result_of diligent 10 job_round supervised (λ job. tt)

-- The experiment is not complete, and its job waits.
abbrev waiting_trials : Tables Document
waiting_trials = record trials {
  experiments = record { experiment = trial; created_at = 4; updated_at = 4 } ∷ [];
}

abbrev experiment_of : Document → Option String
experiment_of d = some d.1

abbrev payload_for : String → Document
payload_for id = (3, id)

abbrev tester : AurelixRuntime Document
tester = record {
  config = record { heartbeat = 30; worker_poll = 1; max_attempts = 3 };
  handlers = [];
  claimed_handlers = ("experiment.run", λ r s. ok (some (1, "done"))) ∷ [];
  worker_id = "me";
}
