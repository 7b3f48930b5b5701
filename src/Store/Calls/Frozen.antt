-- ===== src/Store/Calls/Frozen.antt =====
-- A result that is stored is not undone by any call.
use aurelix.Base.{
  ℕ, String, Bool, true, false, ◌≡◌, inl, inr, arith, Option, none, some, List, [], ◌∷◌, Dict,
  lookup, Option-cases, Result, ok, err, leb, keep,
}
use aurelix.Base.Int.{ℤ}
use aurelix.Store.Tables.{
  Documents, is_running, Job, RuntimeStore, StoreError, find_job, insert_result, enqueue,
  record_audit,
}
use aurelix.Store.Tables.Updates.{lookup-insert_result}
use aurelix.Store.Lease.{claim_next, claim, claim_found, heartbeat}
use aurelix.Store.Finish.{
  complete, complete_row, finish, finish_row, record_result, record_result_row, fail, after_fail,
  discard, error_text,
}
use aurelix.Store.Recovery.{recover_running_jobs, recover_loop, recover_row, interrupted_row}
use aurelix.Store.Calls.{
  Call, enqueue_call, claim_next_call, claim_call, heartbeat_call, complete_call, finish_call,
  record_result_call, fail_call, recover_call, audit_call, run_call, run_calls,
}

-- The result of job `k` is `d`.
abbrev pub HasResult : {D : Type 0} → String → D → RuntimeStore D → Type 0
HasResult k d s = lookup k s.results ≡ some d

module _ {D : Type 0} (k : String) (d : D) where
  insert_result-HasResult :
      (j : String) (v : D) (results : Dict D)
      → lookup k results ≡ some d
      → lookup k (insert_result j v results) ≡ some d
  insert_result-HasResult j v results h = ground (arith, lookup-insert_result j k v results)

  claim_found-HasResult :
      (row : Option (Job D)) (worker : Option String) (token : String) (now : ℕ)
      (s : RuntimeStore D)
      → HasResult k d s
      → HasResult k d (claim_found row worker token now s).1
  unfolding claim_found
  claim_found-HasResult none worker token now s h = h
  claim_found-HasResult (some row) worker token now s h = ground arith

module _ {D : Type 0} ⦃docs : Documents D⦄ (k : String) (d : D) where
  complete_row-HasResult :
      (row : Option (Job D)) (j : String) (v : D) (worker token : Option String) (now : ℕ)
      (s : RuntimeStore D)
      → HasResult k d s
      → HasResult k d (complete_row row j v worker token now s).1
  unfolding complete_row
  complete_row-HasResult none j v worker token now s h = h
  complete_row-HasResult (some row) j v worker token now s h =
      let kept = insert_result-HasResult k d j v s.results h in ground arith

  discard-HasResult :
      (o : Result StoreError D × RuntimeStore D) → HasResult k d o.1 → HasResult k d (discard o).1
  unfolding discard
  discard-HasResult (ok v, s) h = h
  discard-HasResult (err e, s) h = h

  finish_row-HasResult :
      (row : Option (Job D)) (j : String) (error : Option String) (retry : Bool)
      (worker token : Option String) (now : ℕ) (s : RuntimeStore D)
      → HasResult k d s
      → HasResult k d (finish_row row j error retry worker token now s).1
  unfolding finish_row
  finish_row-HasResult none j error retry worker token now s h = h
  finish_row-HasResult (some row) j error retry worker token now s h =
      let kept = insert_result-HasResult k d j (docs.failure (error_text error)) s.results h in
      ground arith

  finish-HasResult :
      (j : String) (success : Bool) (error : Option String) (retry : Bool) (result : Option D)
      (worker token : Option String) (now : ℕ) (s : RuntimeStore D)
      → HasResult k d s
      → HasResult k d (finish j success error retry result worker token now s).1
  unfolding finish complete
  finish-HasResult j true error retry result worker token now s h =
      discard-HasResult _ (complete_row-HasResult (find_job j s.jobs) j _ worker token now s h)
  finish-HasResult j false error retry result worker token now s h =
      finish_row-HasResult (find_job j s.jobs) j error retry worker token now s h

  record_result-HasResult :
      (j : String) (v : D) (worker token : Option String) (now : ℕ) (s : RuntimeStore D)
      → HasResult k d s
      → HasResult k d (record_result j v worker token now s).1
  unfolding record_result record_result_row
  record_result-HasResult j v worker token now s h =
      let kept = insert_result-HasResult k d j v s.results h in
      elim (Option-cases (find_job j s.jobs)) [
        | inl absent ↦ rw absent h
        | inr (row, found) ↦ rw found (ground arith)
      ]

  after_fail-HasResult :
      (event j error : String) (retry : Bool) (now : ℕ)
      (o : Result StoreError (Unit {0}) × RuntimeStore D)
      → HasResult k d o.1
      → HasResult k d (after_fail event j error retry now o).1
  unfolding after_fail record_audit
  after_fail-HasResult event j error retry now (ok u, s) h = h
  after_fail-HasResult event j error retry now (err e, s) h = h

  interrupted_row-HasResult :
      (final : Bool) (now : ℕ) (row : Job D) (s : RuntimeStore D)
      → HasResult k d s
      → HasResult k d (interrupted_row final now row s)
  unfolding interrupted_row
  interrupted_row-HasResult true now row s h = insert_result-HasResult k d row.job_id _ s.results h
  interrupted_row-HasResult false now row s h = h

  recover_row-HasResult :
      (max_attempts now : ℕ) (row : Job D) (s : RuntimeStore D)
      → HasResult k d s
      → HasResult k d (recover_row max_attempts now row s)
  unfolding recover_row
  recover_row-HasResult max_attempts now row s h =
      let kept = interrupted_row-HasResult (leb max_attempts row.attempts) now row s h in
      ground arith

  recover_loop-HasResult :
      (max_attempts : ℕ) (stale : Option ℤ) (now_dt now : ℕ) (rows : List (Job D))
      (p : RuntimeStore D × ℕ)
      → HasResult k d p.0
      → HasResult k d (recover_loop max_attempts stale now_dt now rows p).0
  unfolding recover_loop
  recover_loop-HasResult max_attempts stale now_dt now [] p h = h
  recover_loop-HasResult max_attempts stale now_dt now (row ∷ rows) (s, n) h =
      let kept = recover_row-HasResult max_attempts now row s h in
      recover_loop-HasResult max_attempts stale now_dt now rows _ (ground arith)

  run_call-HasResult :
      (c : Call D) (s : RuntimeStore D) → HasResult k d s → HasResult k d (run_call c s)
  unfolding run_call claim_next claim complete record_audit enqueue heartbeat recover_running_jobs
      fail
  run_call-HasResult (enqueue_call id name payload now) s h = ground arith
  run_call-HasResult (claim_next_call max worker token now) s h =
      claim_found-HasResult k d _ worker token now s h
  run_call-HasResult (claim_call id max worker token now) s h =
      claim_found-HasResult k d _ worker token now s h
  run_call-HasResult (heartbeat_call none worker token now) s h = h
  run_call-HasResult (heartbeat_call (some id) worker token now) s h = h
  run_call-HasResult (complete_call id result worker token now) s h =
      complete_row-HasResult (find_job id s.jobs) id _ worker token now s h
  run_call-HasResult (finish_call id success error retry result worker token now) s h =
      finish-HasResult id success error retry result worker token now s h
  run_call-HasResult (record_result_call id result worker token now) s h =
      record_result-HasResult id result worker token now s h
  run_call-HasResult (fail_call id error retry worker token event now) s h =
      after_fail-HasResult event id error retry now _
        (finish-HasResult id false (some error) retry none worker token now s h)
  run_call-HasResult (recover_call max stale now_dt now) s h =
      recover_loop-HasResult max stale now_dt now (keep (λ r. is_running r.status) s.jobs) (s, 0) h
  run_call-HasResult (audit_call event id type_ payload now) s h = h

  -- A result that is stored for a job is its result after any calls, by any workers, in any order.
  pub run_calls-HasResult :
      (cs : List (Call D)) (s : RuntimeStore D) → HasResult k d s → HasResult k d (run_calls cs s)
  unfolding run_calls
  run_calls-HasResult [] s h = h
  run_calls-HasResult (c ∷ cs) s h =
      run_calls-HasResult cs (run_call c s) (run_call-HasResult c s h)
