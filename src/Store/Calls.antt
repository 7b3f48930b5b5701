-- ===== src/Store/Calls.antt =====
-- The calls that workers, schedulers and the owner make on one store, in any order: each holds the
-- store's lock, so an interleaving of the callers of one store is a list of calls. Callers in another
-- process are so far as each call is a single transaction, which `finish` with a failure and
-- `record_result` are not (see Store/Finish).
pub mod Traces
pub mod Frozen
pub mod Ended
pub mod Attempts
use aurelix.Base.{ℕ, String, Bool, Option, List, [], ◌∷◌, Dict}
use aurelix.Base.Int.{ℤ}
use aurelix.Governance.Audit.{Meta}
use aurelix.Store.Tables.{Documents, RuntimeStore, enqueue, record_audit}
use aurelix.Store.Lease.{claim_next, claim, heartbeat}
use aurelix.Store.Finish.{complete, finish, record_result, fail}
use aurelix.Store.Recovery.{recover_running_jobs}

pub data Call (D : Type 0) : Type 0 where
  enqueue_call : (job_id name : String) (payload : D) (now : ℕ) → Call D
  claim_next_call : (max_attempts : ℕ) (worker : Option String) (token : String) (now : ℕ) → Call D
  claim_call :
      (job_id : String) (max_attempts : ℕ) (worker : Option String) (token : String) (now : ℕ)
      → Call D
  heartbeat_call : (job_id worker token : Option String) (now : ℕ) → Call D
  complete_call :
      (job_id : String) (result : Option D) (worker token : Option String) (now : ℕ) → Call D
  finish_call :
      (job_id : String) (success : Bool) (error : Option String) (retry : Bool) (result : Option D)
      (worker token : Option String) (now : ℕ)
      → Call D
  record_result_call :
      (job_id : String) (result : D) (worker token : Option String) (now : ℕ) → Call D
  fail_call :
      (job_id error : String) (retry : Bool) (worker token : Option String) (event_id : String)
      (now : ℕ)
      → Call D
  recover_call : (max_attempts : ℕ) (stale : Option ℤ) (now_dt now : ℕ) → Call D
  audit_call :
      (event_id : String) (job_id : Option String) (event_type : String) (payload : Dict Meta)
      (now : ℕ)
      → Call D

module _ {D : Type 0} ⦃docs : Documents D⦄ where
  -- The store after a call, whether it returned or raised.
  unfoldable pub run_call : Call D → RuntimeStore D → RuntimeStore D
  run_call (enqueue_call id name payload now) s = (enqueue id name payload now s).1
  run_call (claim_next_call max worker token now) s = (claim_next max worker token now s).1
  run_call (claim_call id max worker token now) s = (claim id max worker token now s).1
  run_call (heartbeat_call id worker token now) s = (heartbeat id worker token now s).1
  run_call (complete_call id result worker token now) s = (complete id result worker token now s).1
  run_call (finish_call id success error retry result worker token now) s =
      (finish id success error retry result worker token now s).1
  run_call (record_result_call id result worker token now) s =
      (record_result id result worker token now s).1
  run_call (fail_call id error retry worker token event now) s =
      (fail id error retry worker token event now s).1
  run_call (recover_call max stale now_dt now) s = (recover_running_jobs max stale now_dt now s).0
  run_call (audit_call event id type_ payload now) s = record_audit event id type_ payload now s

  unfoldable pub run_calls : List (Call D) → RuntimeStore D → RuntimeStore D
  unfolding run_call
  run_calls [] s = s
  run_calls (c ∷ cs) s = run_calls cs (run_call c s)
