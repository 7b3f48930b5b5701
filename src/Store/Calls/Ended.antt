-- ===== src/Store/Calls/Ended.antt =====
-- A job that has ended is left alone by every call.
use aurelix.Base.{
  ℕ, String, Bool, true, false, ◌≡◌, refl, arith, Option, none, some, List, [], ◌∷◌, Result, ok,
  err, leb, keep,
}
use aurelix.Base.Int.{ℤ}
use aurelix.Store.Tables.{
  Documents, Status, completed, queued, failed, is_terminal, is_running, is_queued, is_interrupted,
  Job, RuntimeStore, StoreError, find_job, update_job, enqueue, queued_job, record_audit, lease_end,
}
use aurelix.Store.Tables.Updates.{KeepsId, find_job-update_job, find_job-append}
use aurelix.Store.Lease.{claim_next, claim, claim_found, heartbeat, claimed, renewed, renewable}
use aurelix.Store.Finish.{
  complete, complete_row, finish, finish_row, record_result, record_result_row, fail, after_fail,
  discard, released, held, retry_status,
}
use aurelix.Store.Recovery.{
  recover_running_jobs, recover_loop, recover_row, interrupted_row, interrupt, mark_interrupted,
}
use aurelix.Store.Calls.{
  Call, enqueue_call, claim_next_call, claim_call, heartbeat_call, complete_call, finish_call,
  record_result_call, fail_call, recover_call, audit_call, run_call, run_calls,
}

module _ {D : Type 0} (k : String) (r : Job D) (done : is_terminal r.status ≡ true) where
  update-ended :
      (j : String) (p : Job D → Bool) (f : Job D → Job D) (rs : List (Job D))
      → KeepsId f
      → (p r ≡ true → is_terminal r.status ≡ false)
      → find_job k rs ≡ some r
      → find_job k (update_job j p f rs) ≡ some r
  update-ended j p f rs ids idle h = ground (arith, find_job-update_job k j p f rs ids)

  claim_found-ended :
      (row : Option (Job D)) (worker : Option String) (token : String) (now : ℕ)
      (s : RuntimeStore D)
      → find_job k s.jobs ≡ some r
      → find_job k (claim_found row worker token now s).1.jobs ≡ some r
  unfolding claim_found
  claim_found-ended none worker token now s h = h
  claim_found-ended (some row) worker token now s h =
      let kept =
        update-ended row.job_id (λ x. is_queued x.status)
          (claimed worker token now (lease_end s now)) s.jobs (λ x. refl) (λ e. ground arith) h in
      ground arith

  heartbeat-ended :
      (id worker token : Option String) (now : ℕ) (s : RuntimeStore D)
      → find_job k s.jobs ≡ some r
      → find_job k (heartbeat id worker token now s).1.jobs ≡ some r
  unfolding heartbeat
  heartbeat-ended none worker token now s h = h
  heartbeat-ended (some id) worker token now s h =
      update-ended id (renewable worker token now) (renewed now (lease_end s now)) s.jobs
        (λ x. refl) (λ e. ground arith) h

  release-ended :
      (j : String) (p : Job D → Bool) (status : Status) (now : ℕ) (error : Option String)
      (rs : List (Job D))
      → (p r ≡ true → is_terminal r.status ≡ false)
      → find_job k rs ≡ some r
      → find_job k (update_job j p (released status now error) rs) ≡ some r
  release-ended j p status now error rs idle h =
      update-ended j p (released status now error) rs (λ x. refl) idle h

  interrupt-ended :
      (supported : Bool) (j : String) (final : Status) (now : ℕ) (error : String)
      (rs : List (Job D))
      → find_job k rs ≡ some r
      → find_job k (interrupt supported j final now error rs) ≡ some r
  unfolding interrupt
  interrupt-ended true j final now error rs h =
      release-ended j (λ x. is_interrupted x.status) final now (some error) _ (λ e. ground arith)
        (update-ended j (λ x. is_running x.status) (mark_interrupted now error) rs (λ x. refl)
          (λ e. ground arith) h)
  interrupt-ended false j final now error rs h =
      release-ended j (λ x. is_running x.status) final now (some error) rs (λ e. ground arith) h

module _ {D : Type 0} ⦃docs : Documents D⦄ (k : String) (r : Job D)
    (done : is_terminal r.status ≡ true) where
  complete_row-ended :
      (row : Option (Job D)) (j : String) (v : D) (worker token : Option String) (now : ℕ)
      (s : RuntimeStore D)
      → find_job k s.jobs ≡ some r
      → find_job k (complete_row row j v worker token now s).1.jobs ≡ some r
  unfolding complete_row
  complete_row-ended none j v worker token now s h = h
  complete_row-ended (some row) j v worker token now s h =
      let kept =
        release-ended k r done j (held worker token) completed now none s.jobs (λ e. ground arith)
          h in
      ground arith

  discard-ended :
      (o : Result StoreError D × RuntimeStore D)
      → find_job k o.1.jobs ≡ some r
      → find_job k (discard o).1.jobs ≡ some r
  unfolding discard
  discard-ended (ok v, s) h = h
  discard-ended (err e, s) h = h

  finish_row-ended :
      (row : Option (Job D)) (j : String) (error : Option String) (retry : Bool)
      (worker token : Option String) (now : ℕ) (s : RuntimeStore D)
      → find_job k s.jobs ≡ some r
      → find_job k (finish_row row j error retry worker token now s).1.jobs ≡ some r
  unfolding finish_row
  finish_row-ended none j error retry worker token now s h = h
  finish_row-ended (some row) j error retry worker token now s h =
      let kept =
        release-ended k r done j (held worker token) (retry_status retry) now error s.jobs
          (λ e. ground arith) h in
      ground arith

  finish-ended :
      (j : String) (success : Bool) (error : Option String) (retry : Bool) (result : Option D)
      (worker token : Option String) (now : ℕ) (s : RuntimeStore D)
      → find_job k s.jobs ≡ some r
      → find_job k (finish j success error retry result worker token now s).1.jobs ≡ some r
  unfolding finish complete
  finish-ended j true error retry result worker token now s h =
      discard-ended _ (complete_row-ended (find_job j s.jobs) j _ worker token now s h)
  finish-ended j false error retry result worker token now s h =
      finish_row-ended (find_job j s.jobs) j error retry worker token now s h

  record_result_row-ended :
      (row : Option (Job D)) (j : String) (v : D) (worker token : Option String) (now : ℕ)
      (s : RuntimeStore D)
      → find_job k s.jobs ≡ some r
      → find_job k (record_result_row row j v worker token now s).1.jobs ≡ some r
  unfolding record_result_row
  record_result_row-ended none j v worker token now s h = h
  record_result_row-ended (some row) j v worker token now s h = ground arith

  after_fail-ended :
      (event j error : String) (retry : Bool) (now : ℕ)
      (o : Result StoreError (Unit {0}) × RuntimeStore D)
      → find_job k o.1.jobs ≡ some r
      → find_job k (after_fail event j error retry now o).1.jobs ≡ some r
  unfolding after_fail record_audit
  after_fail-ended event j error retry now (ok u, s) h = h
  after_fail-ended event j error retry now (err e, s) h = h

  recover_row-ended :
      (max_attempts now : ℕ) (row : Job D) (s : RuntimeStore D)
      → find_job k s.jobs ≡ some r
      → find_job k (recover_row max_attempts now row s).jobs ≡ some r
  unfolding recover_row
  recover_row-ended max_attempts now row s h =
      let completes =
        release-ended k r done row.job_id (λ x. is_running x.status) completed now none s.jobs
          (λ e. ground arith) h in
      let interrupts = by_final (leb max_attempts row.attempts) in ground arith
    where
      by_final : (final : Bool) → find_job k (interrupted_row final now row s).jobs ≡ some r
      by_final true =
          unfold interrupted_row in
          interrupt-ended k r done s.supports_interrupted row.job_id failed now _ s.jobs h
      by_final false =
          unfold interrupted_row in
          interrupt-ended k r done s.supports_interrupted row.job_id queued now _ s.jobs h

  recover_loop-ended :
      (max_attempts : ℕ) (stale : Option ℤ) (now_dt now : ℕ) (rows : List (Job D))
      (p : RuntimeStore D × ℕ)
      → find_job k p.0.jobs ≡ some r
      → find_job k (recover_loop max_attempts stale now_dt now rows p).0.jobs ≡ some r
  unfolding recover_loop
  recover_loop-ended max_attempts stale now_dt now [] p h = h
  recover_loop-ended max_attempts stale now_dt now (row ∷ rows) (s, n) h =
      let kept = recover_row-ended max_attempts now row s h in
      recover_loop-ended max_attempts stale now_dt now rows _ (ground arith)

  run_call-ended :
      (c : Call D) (s : RuntimeStore D)
      → find_job k s.jobs ≡ some r
      → find_job k (run_call c s).jobs ≡ some r
  unfolding run_call claim_next claim complete record_audit enqueue recover_running_jobs fail
      record_result
  run_call-ended (enqueue_call id name payload now) s h =
      ground (arith, find_job-append k s.jobs (queued_job id name payload now))
  run_call-ended (claim_next_call max worker token now) s h =
      claim_found-ended k r done _ worker token now s h
  run_call-ended (claim_call id max worker token now) s h =
      claim_found-ended k r done _ worker token now s h
  run_call-ended (heartbeat_call id worker token now) s h =
      heartbeat-ended k r done id worker token now s h
  run_call-ended (complete_call id result worker token now) s h =
      complete_row-ended (find_job id s.jobs) id _ worker token now s h
  run_call-ended (finish_call id success error retry result worker token now) s h =
      finish-ended id success error retry result worker token now s h
  run_call-ended (record_result_call id result worker token now) s h =
      record_result_row-ended (find_job id s.jobs) id result worker token now s h
  run_call-ended (fail_call id error retry worker token event now) s h =
      after_fail-ended event id error retry now _
        (finish-ended id false (some error) retry none worker token now s h)
  run_call-ended (recover_call max stale now_dt now) s h =
      recover_loop-ended max stale now_dt now (keep (λ x. is_running x.status) s.jobs) (s, 0) h
  run_call-ended (audit_call event id type_ payload now) s h = h

  -- A job that is completed or has failed keeps its whole row under any calls, by any workers, in any
  -- order: it is never claimed, recovered or ended again.
  pub run_calls-ended :
      (cs : List (Call D)) (s : RuntimeStore D)
      → find_job k s.jobs ≡ some r
      → find_job k (run_calls cs s).jobs ≡ some r
  unfolding run_calls
  run_calls-ended [] s h = h
  run_calls-ended (c ∷ cs) s h = run_calls-ended cs (run_call c s) (run_call-ended c s h)
