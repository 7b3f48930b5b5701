-- ===== src/Examples/Stored.antt =====
-- The store on a small table: one job that waits, one that runs, one that is completed.
use aurelix.Base.{
  String, Bool, true, false, ◌≡◌, ◌≢◌, inl, refl, arith, Option, none, some, List, [], ◌∷◌, ok, err,
  eq_iff, ◌≤◌, lookup,
}
use aurelix.Base.Int.{pos}
use aurelix.Store.Tables.{
  Job, JobRecord, RuntimeStore, queued, running, completed, new, lease_lost, find_job, lease_end,
  record_of, failed,
}
use aurelix.Store.Tables.Updates.{Unique}
use aurelix.Store.Lease.{claim, claim_next, claimed, heartbeat}
use aurelix.Store.Lease.Claims.{claim-takes, claim_next-first}
use aurelix.Store.Finish.{complete, finish, record_result, released}
use aurelix.Store.Finish.Fencing.{token_fences, complete-completes, finish-gives_up}
use aurelix.Store.Recovery.{recover_running_jobs, skipped}
use aurelix.Store.Recovery.Due.{recover_running_jobs-stops, skipped_iff, Stopped}
use aurelix.Store.Calls.{
  Call, run_calls, claim_next_call, complete_call, claim_call, finish_call, recover_call,
}
use aurelix.Store.Calls.Traces.{run_calls-IsValid}
use aurelix.Store.Calls.Ended.{run_calls-ended}
use aurelix.Store.Calls.Frozen.{run_calls-HasResult, HasResult}
use aurelix.Store.Invariant.{IsValid, new-IsValid}
use aurelix.Examples.Documents.{Document, tagged}

abbrev pub waiting_job : Job Document
waiting_job = record {
  job_id = "a";
  name = "autonomy.run";
  payload = (3, "learn");
  status = queued;
  attempts = 0;
  created_at = 5;
  updated_at = 5;
  started_at = none;
  heartbeat_at = none;
  worker_id = none;
  lease_token = none;
  lease_until = none;
  last_error = none;
}

abbrev pub running_job : Job Document
running_job = record {
  job_id = "b";
  name = "autonomy.run";
  payload = (3, "build");
  status = running;
  attempts = 1;
  created_at = 4;
  updated_at = 9;
  started_at = some 9;
  heartbeat_at = some 9;
  worker_id = some "w";
  lease_token = some "t2";
  lease_until = some 39;
  last_error = none;
}

abbrev pub ended_job : Job Document
ended_job = record {
  job_id = "c";
  name = "autonomy.run";
  payload = (3, "rest");
  status = completed;
  attempts = 1;
  created_at = 1;
  updated_at = 3;
  started_at = some 2;
  heartbeat_at = none;
  worker_id = none;
  lease_token = none;
  lease_until = none;
  last_error = none;
}

abbrev pub small_store : RuntimeStore Document
small_store = record {
  jobs = waiting_job ∷ running_job ∷ ended_job ∷ [];
  results = ("c", (1, "")) ∷ [];
  audit_events = [];
  runtime_heartbeat = none;
  lease_seconds = 30;
  supports_interrupted = true;
}

small_store-Unique : Unique small_store.jobs
small_store-Unique = ground arith

some_calls : List (Call Document)
some_calls =
    claim_next_call 3 (some "w1") "t3" 10
    ∷ complete_call "a" none (some "w1") (some "t3") 12
    ∷ claim_call "c" 3 (some "w1") "t4" 13
    ∷ finish_call "b" false none true none (some "w") (some "t1") 14
    ∷ recover_call 3 none 50 50
    ∷ []

old_token-new : ◌≢◌ {A = String} "t1" "t2"
old_token-new = λ e. ground (arith, eq_iff "t1" "t2")

token_fences_example :
    ((result : Option Document)
      → complete "b" result (some "w") (some "t1") 12 small_store ≡ (err lease_lost, small_store))
    × ((success : Bool) (error : Option String) (retry : Bool) (result : Option Document)
        → finish "b" success error retry result (some "w") (some "t1") 12 small_store
          ≡ (err lease_lost, small_store))
    × ((result : Document)
        → record_result "b" result (some "w") (some "t1") 12 small_store
          ≡ (err lease_lost, small_store))
    × (heartbeat (some "b") (some "w") (some "t1") 12 small_store ≡ (false, small_store))
token_fences_example =
    token_fences "b" running_job (some "w") "t1" "t2" 12 small_store small_store-Unique refl refl
      refl old_token-new

run_calls-IsValid_example : IsValid (run_calls some_calls (new 30))
run_calls-IsValid_example = run_calls-IsValid some_calls (new 30) (new-IsValid 30)

run_calls-ended_example : find_job "c" (run_calls some_calls small_store).jobs ≡ some ended_job
run_calls-ended_example = run_calls-ended "c" ended_job refl some_calls small_store refl

run_calls-HasResult_example : HasResult "c" (1, "") (run_calls some_calls small_store)
run_calls-HasResult_example = run_calls-HasResult "c" (1, "") some_calls small_store refl

claim-takes_example :
    let o = claim "a" 3 (some "w1") "t3" 10 small_store in
    let r' = claimed (some "w1") "t3" 10 (lease_end small_store 10) waiting_job in
    (o.0 ≡ ok (some (record_of r')))
    × (find_job "a" o.1.jobs ≡ some r')
    × ((k : String) → k ≢ "a" → find_job k o.1.jobs ≡ find_job k small_store.jobs)
claim-takes_example =
    claim-takes "a" 3 (some "w1") "t3" 10 small_store waiting_job small_store-Unique refl refl

claim_next-first_example :
    (rec : JobRecord Document) × ((claim_next 3 (some "w1") "t3" 10 small_store).0 ≡ ok (some rec))
    × (rec.lease_token ≡ some "t3")
    × (rec.created_at ≤ 5)
claim_next-first_example =
    claim_next-first 3 (some "w1") "t3" 10 small_store waiting_job small_store-Unique (inl refl)
      refl

complete-completes_example :
    let o = complete "b" none (some "w") (some "t2") 12 small_store in
    (o.0 ≡ ok (1, ""))
    × (lookup "b" o.1.results ≡ some (1, ""))
    × (find_job "b" o.1.jobs ≡ some (released completed 12 none running_job))
complete-completes_example =
    complete-completes "b" running_job none (some "w") (some "t2") 12 small_store small_store-Unique
      refl refl refl

-- The running job has recorded a result, a success, before it fails.
abbrev with_progress : RuntimeStore Document
with_progress = record small_store { results = ("b", (1, "halfway")) ∷ [] }

finish-gives_up_example :
    let o = finish "b" false (some "lost") false none (some "w") (some "t2") 12 with_progress in
    (o.0 ≡ ok tt)
    × (find_job "b" o.1.jobs ≡ some (released failed 12 (some "lost") running_job))
    × (lookup "b" o.1.results ≡ some (1, "halfway"))
finish-gives_up_example =
    finish-gives_up "b" running_job (some "lost") false (some "w") (some "t2") 12 with_progress refl
      refl refl

recover_running_jobs-stops_example :
    Stopped "b" (recover_running_jobs 3 none 40 40 small_store).0.jobs
recover_running_jobs-stops_example =
    recover_running_jobs-stops 3 none 40 40 small_store "b" running_job refl refl (inl refl)

skipped_iff_example : skipped (some (pos 5)) 20 running_job ≡ true
skipped_iff_example = skipped_iff (some (pos 5)) 20 running_job
