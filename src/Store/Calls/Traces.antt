-- ===== src/Store/Calls/Traces.antt =====
-- What holds of the store after any calls, by any workers, in any order.
use aurelix.Base.{List, [], ◌∷◌}
use aurelix.Store.Tables.{Documents, RuntimeStore, record_audit, find_job}
use aurelix.Store.Lease.{claim_next, claim}
use aurelix.Store.Finish.{complete}
use aurelix.Store.Invariant.{IsValid, enqueue-IsValid, claim_found-IsValid, heartbeat-IsValid}
use aurelix.Store.Invariant.Ending.{
  complete_row-IsValid, finish-IsValid, record_result-IsValid, fail-IsValid,
}
use aurelix.Store.Invariant.Recovered.{recover_running_jobs-IsValid}
use aurelix.Store.Calls.{
  Call, enqueue_call, claim_next_call, claim_call, heartbeat_call, complete_call, finish_call,
  record_result_call, fail_call, recover_call, audit_call, run_call, run_calls,
}

module _ {D : Type 0} ⦃docs : Documents D⦄ where
  -- Every call, whether it returns or raises, keeps the store valid.
  pub run_call-IsValid : (c : Call D) (s : RuntimeStore D) → IsValid s → IsValid (run_call c s)
  unfolding run_call claim_next claim complete record_audit
  run_call-IsValid (enqueue_call id name payload now) s v = enqueue-IsValid id name payload now s v
  run_call-IsValid (claim_next_call max worker token now) s v =
      claim_found-IsValid _ worker token now s v
  run_call-IsValid (claim_call id max worker token now) s v =
      claim_found-IsValid _ worker token now s v
  run_call-IsValid (heartbeat_call id worker token now) s v =
      heartbeat-IsValid id worker token now s v
  run_call-IsValid (complete_call id result worker token now) s v =
      complete_row-IsValid (find_job id s.jobs) id _ worker token now s v
  run_call-IsValid (finish_call id success error retry result worker token now) s v =
      finish-IsValid id success error retry result worker token now s v
  run_call-IsValid (record_result_call id result worker token now) s v =
      record_result-IsValid id result worker token now s v
  run_call-IsValid (fail_call id error retry worker token event now) s v =
      fail-IsValid id error retry worker token event now s v
  run_call-IsValid (recover_call max stale now_dt now) s v =
      recover_running_jobs-IsValid max stale now_dt now s v
  run_call-IsValid (audit_call event id type_ payload now) s v = record {
    jobs_valid = v.jobs_valid;
    unique = v.unique;
    recorded = v.recorded;
  }

  -- From a valid store, any calls in any order lead to a valid one: only running jobs hold a lease,
  -- ids are unique, no job is left in the state `interrupted`, and every job that has ended has a
  -- result.
  pub run_calls-IsValid :
      (cs : List (Call D)) (s : RuntimeStore D) → IsValid s → IsValid (run_calls cs s)
  unfolding run_calls
  run_calls-IsValid [] s v = v
  run_calls-IsValid (c ∷ cs) s v = run_calls-IsValid cs (run_call c s) (run_call-IsValid c s v)
