-- ===== src/Examples/Looping.antt =====
-- Rounds of the loop, the queue and the orchestrator on small stores.
use aurelix.Base.{
  String, true, false, ◌≡◌, ◌≢◌, refl, arith, none, some, List, [], ◌∷◌, Dict, lookup, ok, err,
  eq_iff,
}
use aurelix.Store.Tables.{
  Job, RuntimeStore, queued, new, enqueue, find_job, record_of, queued_job, lease_end, wrong_state,
  heartbeat_runtime,
}
use aurelix.Store.Lease.{claim_next, claim_found, claim_row, claimed, first_job}
use aurelix.Store.Finish.{finish, finish_row, released}
use aurelix.Store.Invariant.{IsValid, new-IsValid, enqueue-IsValid}
use aurelix.Store.Calls.{Call, run_call, run_calls, finish_call, claim_next_call}
use aurelix.Store.Machine.{Trail, view}
use aurelix.Store.Machine.Refines.{run_calls-Trail}
use aurelix.Runtime.Handlers.{AurelixRuntime}
use aurelix.Runtime.Loop.{Round, handled, run_once}
use aurelix.Runtime.Loop.Settled.{claim_of, HasSettled, run_once-settles}
use aurelix.Runtime.Loop.Lost.{run_once_fenced, run_once_raises}
use aurelix.Examples.Documents.{Document, tagged}
use aurelix.Examples.Stored.{small_store}

abbrev texts : Document → Dict String
texts d = ("objective", d.1) ∷ []

abbrev repr : String → String
repr s = s

abbrev worker : AurelixRuntime Document
worker = record {
  config = record { heartbeat = 30; worker_poll = 1; max_attempts = 3 };
  handlers = [];
  claimed_handlers = ("autonomy.run", λ r s. ok (some (1, "done"))) ∷ [];
  worker_id = "me";
}

abbrev round : Round
round = record {
  token = "t1";
  event_id = "e1";
  beat_at = 10;
  claimed_at = 11;
  ended_at = 20;
  audited_at = 21;
}

one_job : RuntimeStore Document
one_job = (enqueue "a" "autonomy.run" (3, "learn") 5 (new 30)).1

one_job-IsValid : IsValid one_job
unfolding one_job
one_job-IsValid = enqueue-IsValid "a" "autonomy.run" (3, "learn") 5 (new 30) (new-IsValid 30)

abbrev taken : Job Document
taken = claimed (some "me") "t1" 11 1000011 (queued_job "a" "autonomy.run" (3, "learn") 5)

claim_of-taken : (claim_of worker round one_job).0 ≡ ok (some (record_of taken))
unfolding one_job enqueue new claim_next claim_found claim_row first_job lease_end heartbeat_runtime
claim_of-taken = refl

held_until_end : find_job "a" (run_calls [] (claim_of worker round one_job).1).jobs ≡ some taken
unfolding one_job enqueue new claim_next claim_found claim_row first_job lease_end heartbeat_runtime
    run_calls
held_until_end = refl

run_once-settles_example :
    let s' = (claim_of worker round one_job).1 in
    let o = run_once texts repr worker round [] one_job in
    (o.0 ≡ ok true)
    × HasSettled worker
        (record_of taken)
        round
        (handled texts repr worker (record_of taken) s')
        taken
        (lookup "a" (run_calls [] s').results)
        o.1
run_once-settles_example =
    run_once-settles texts repr worker round [] one_job (record_of taken) taken one_job-IsValid
      claim_of-taken held_until_end (refl, refl)

-- The job is handed back while the handler runs.
abbrev handed_back : List (Call Document)
handed_back = finish_call "a" false none true none (some "me") (some "t1") 15 ∷ []

-- So it is, and another worker takes it.
abbrev taken_over : List (Call Document)
taken_over =
    finish_call "a" false none true none (some "me") (some "t1") 15
    ∷ claim_next_call 3 (some "other") "t2" 16
    ∷ []

abbrev waiting_again : Job Document
waiting_again = released queued 15 none taken

abbrev taken_again : Job Document
taken_again = claimed (some "other") "t2" 16 1000016 waiting_again

back_in_queue :
    find_job "a" (run_calls handed_back (claim_of worker round one_job).1).jobs ≡ some waiting_again
unfolding one_job enqueue new claim_next claim_found claim_row first_job lease_end heartbeat_runtime
    run_calls run_call finish finish_row
back_in_queue = refl

with_another :
    find_job "a" (run_calls taken_over (claim_of worker round one_job).1).jobs ≡ some taken_again
unfolding one_job enqueue new claim_next claim_found claim_row first_job lease_end heartbeat_runtime
    run_calls run_call finish finish_row
with_another = refl

t1-t2 : ◌≢◌ {A = String} "t1" "t2"
t1-t2 = λ e. ground (arith, eq_iff "t1" "t2")

run_once_fenced_example :
    let s' = run_calls taken_over (claim_of worker round one_job).1 in
    let o = run_once texts repr worker round taken_over one_job in
    (o.0 ≡ ok true) × (o.1.jobs ≡ s'.jobs) × (o.1.results ≡ s'.results)
run_once_fenced_example =
    run_once_fenced texts repr worker round taken_over one_job (record_of taken) taken_again "t1"
      "t2" one_job-IsValid claim_of-taken with_another refl refl refl t1-t2

run_once_raises_example :
    run_once texts repr worker round handed_back one_job
    ≡ (err (wrong_state queued), run_calls handed_back (claim_of worker round one_job).1)
run_once_raises_example =
    run_once_raises texts repr worker round handed_back one_job (record_of taken) waiting_again
      claim_of-taken back_in_queue refl refl

run_calls-Trail_example :
    Trail (view "a" small_store.jobs) (view "a" (run_calls taken_over small_store).jobs)
run_calls-Trail_example = run_calls-Trail "a" taken_over small_store
