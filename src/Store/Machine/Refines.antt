-- ===== src/Store/Machine/Refines.antt =====
-- The store implements the abstract machine: every call moves every job along steps of the machine.
use aurelix.Base.{
  ◌++◌, ◌+◌, eq_iff, lookup, is_some, nat_eq, ℕ, String, Bool, true, false, ◌≡◌, refl, arith,
  Option, none, some, List, [], ◌∷◌, Result, ok, inl, inr, err, leb, keep, Bool-cases, Option-cases,
  subst, sym, ◌==◌, string_eq, if◌then◌else◌,
}
use aurelix.Base.Int.{ℤ}
use aurelix.Store.Tables.{
  Documents, completed, is_running, Job, RuntimeStore, StoreError, find_job, enqueue, queued_job,
  record_audit,
}
use aurelix.Store.Tables.Updates.{find_job-append}
use aurelix.Store.Lease.{claim_next, claim}
use aurelix.Store.Finish.{
  complete, complete_row, finish, finish_row, record_result, record_result_row, fail, after_fail,
  discard, held, retry_status,
}
use aurelix.Store.Recovery.{
  skipped, recover_running_jobs, recover_loop, recover_row, interrupted_row,
}
use aurelix.Store.Calls.{
  Call, enqueue_call, claim_next_call, claim_call, heartbeat_call, complete_call, finish_call,
  record_result_call, fail_call, recover_call, audit_call, run_call, run_calls,
}
use aurelix.Store.Machine.Rows.{
  release-Trail, interrupt-Trail, held-running, either-Trail, claim_found-Trail, heartbeat-Trail,
}
use aurelix.Store.Machine.{absent, waiting, submit, Trail, stop, one, Trail-trans, view}

module _ {D : Type 0} ⦃docs : Documents D⦄ (k : String) where
  complete_row-Trail :
      (row : Option (Job D)) (j : String) (v : D) (worker token : Option String) (now : ℕ)
      (s : RuntimeStore D)
      → Trail (view k s.jobs) (view k (complete_row row j v worker token now s).1.jobs)
  unfolding complete_row
  complete_row-Trail none j v worker token now s = stop
  complete_row-Trail (some row) j v worker token now s =
      either-Trail k
        (release-Trail k j (held worker token) completed now none s.jobs refl
          (held-running k worker token))
        (ground arith)

  discard-jobs : (o : Result StoreError D × RuntimeStore D) → (discard o).1.jobs ≡ o.1.jobs
  unfolding discard
  discard-jobs (ok v, s) = refl
  discard-jobs (err e, s) = refl

  finish_row-Trail :
      (row : Option (Job D)) (j : String) (error : Option String) (retry : Bool)
      (worker token : Option String) (now : ℕ) (s : RuntimeStore D)
      → Trail (view k s.jobs) (view k (finish_row row j error retry worker token now s).1.jobs)
  unfolding finish_row
  finish_row-Trail none j error retry worker token now s = stop
  finish_row-Trail (some row) j error retry worker token now s =
      either-Trail k
        (release-Trail k j (held worker token) (retry_status retry) now error s.jobs (ground arith)
          (held-running k worker token))
        (ground arith)

  finish-Trail :
      (j : String) (success : Bool) (error : Option String) (retry : Bool) (result : Option D)
      (worker token : Option String) (now : ℕ) (s : RuntimeStore D)
      → Trail
          (view k s.jobs)
          (view k (finish j success error retry result worker token now s).1.jobs)
  unfolding finish complete
  finish-Trail j true error retry result worker token now s =
      subst (λ rs. Trail (view k s.jobs) (view k rs)) (sym (discard-jobs _))
        (complete_row-Trail (find_job j s.jobs) j _ worker token now s)
  finish-Trail j false error retry result worker token now s =
      finish_row-Trail (find_job j s.jobs) j error retry worker token now s

  record_result_row-jobs :
      (row : Option (Job D)) (j : String) (v : D) (worker token : Option String) (now : ℕ)
      (s : RuntimeStore D)
      → (record_result_row row j v worker token now s).1.jobs ≡ s.jobs
  unfolding record_result_row
  record_result_row-jobs none j v worker token now s = refl
  record_result_row-jobs (some row) j v worker token now s = ground arith

  after_fail-jobs :
      (event j error : String) (retry : Bool) (now : ℕ)
      (o : Result StoreError (Unit {0}) × RuntimeStore D)
      → (after_fail event j error retry now o).1.jobs ≡ o.1.jobs
  unfolding after_fail record_audit
  after_fail-jobs event j error retry now (ok u, s) = refl
  after_fail-jobs event j error retry now (err e, s) = refl

  interrupted_row-Trail :
      (final : Bool) (now : ℕ) (row : Job D) (s : RuntimeStore D)
      → Trail (view k s.jobs) (view k (interrupted_row final now row s).jobs)
  unfolding interrupted_row
  interrupted_row-Trail true now row s =
      interrupt-Trail k s.supports_interrupted row.job_id false now _ s.jobs
  interrupted_row-Trail false now row s =
      interrupt-Trail k s.supports_interrupted row.job_id true now _ s.jobs

  recover_row-Trail :
      (max_attempts now : ℕ) (row : Job D) (s : RuntimeStore D)
      → Trail (view k s.jobs) (view k (recover_row max_attempts now row s).jobs)
  unfolding recover_row
  recover_row-Trail max_attempts now row s =
      elim (Bool-cases (is_some (lookup row.job_id s.results))) [
        | inl stored ↦ rw stored (
            release-Trail k row.job_id (λ x. is_running x.status) completed now none s.jobs refl
              (λ x e. e))
        | inr missing ↦ rw missing (interrupted_row-Trail (leb max_attempts row.attempts) now row s)
      ]

  recover_loop-Trail :
      (max_attempts : ℕ) (stale : Option ℤ) (now_dt now : ℕ) (rows : List (Job D))
      (p : RuntimeStore D × ℕ)
      → Trail (view k p.0.jobs) (view k (recover_loop max_attempts stale now_dt now rows p).0.jobs)
  unfolding recover_loop
  recover_loop-Trail max_attempts stale now_dt now [] p = stop
  recover_loop-Trail max_attempts stale now_dt now (row ∷ rows) (s, n) =
      Trail-trans (either-Trail k (recover_row-Trail max_attempts now row s) (ground arith)) (
        recover_loop-Trail max_attempts stale now_dt now rows (
          if skipped stale now_dt row then (s, n) else (recover_row max_attempts now row s, n + 1)))

  enqueue-Trail :
      (id name : String) (payload : D) (now : ℕ) (s : RuntimeStore D)
      → Trail (view k s.jobs) (view k (enqueue id name payload now s).1.jobs)
  unfolding enqueue
  enqueue-Trail id name payload now s = elim (Option-cases (find_job id s.jobs)) [
    | inr (r, taken) ↦ rw taken stop
    | inl free ↦ rw free (elim (Bool-cases (id == k)) [
      | inl mine ↦
          let same : id ≡ k = (eq_iff id k).0 mine in
          let before : view k s.jobs ≡ absent = ground (arith, free) in
          let after : view k (s.jobs ++ (queued_job id name payload now ∷ [])) ≡ waiting 0 =
            ground (arith, free, find_job-append k s.jobs (queued_job id name payload now)) in
          subst (λ x. Trail x (view k (s.jobs ++ (queued_job id name payload now ∷ []))))
            (sym before) (subst (Trail absent) (sym after) (one submit))
      | inr other ↦
          let same : view k (s.jobs ++ (queued_job id name payload now ∷ [])) ≡ view k s.jobs =
            ground (arith, other, find_job-append k s.jobs (queued_job id name payload now)) in
          subst (Trail (view k s.jobs)) (sym same) stop
    ])
  ]

  run_call-Trail :
      (c : Call D) (s : RuntimeStore D) → Trail (view k s.jobs) (view k (run_call c s).jobs)
  unfolding run_call claim_next claim complete record_audit recover_running_jobs fail record_result
  run_call-Trail (enqueue_call id name payload now) s = enqueue-Trail id name payload now s
  run_call-Trail (claim_next_call max worker token now) s = claim_found-Trail k _ worker token now s
  run_call-Trail (claim_call id max worker token now) s = claim_found-Trail k _ worker token now s
  run_call-Trail (heartbeat_call id worker token now) s = heartbeat-Trail k id worker token now s
  run_call-Trail (complete_call id result worker token now) s =
      complete_row-Trail (find_job id s.jobs) id _ worker token now s
  run_call-Trail (finish_call id success error retry result worker token now) s =
      finish-Trail id success error retry result worker token now s
  run_call-Trail (record_result_call id result worker token now) s =
      subst (λ rs. Trail (view k s.jobs) (view k rs))
        (sym (record_result_row-jobs (find_job id s.jobs) id result worker token now s)) stop
  run_call-Trail (fail_call id error retry worker token event now) s =
      subst (λ rs. Trail (view k s.jobs) (view k rs))
        (sym (after_fail-jobs event id error retry now _))
        (finish-Trail id false (some error) retry none worker token now s)
  run_call-Trail (recover_call max stale now_dt now) s =
      recover_loop-Trail max stale now_dt now (keep (λ x. is_running x.status) s.jobs) (s, 0)
  run_call-Trail (audit_call event id type_ payload now) s = stop

  -- The store implements the abstract machine: under any calls, by any workers and in any order, the
  -- phase of every job moves along steps of the machine.
  pub run_calls-Trail :
      (cs : List (Call D)) (s : RuntimeStore D)
      → Trail (view k s.jobs) (view k (run_calls cs s).jobs)
  unfolding run_calls
  run_calls-Trail [] s = stop
  run_calls-Trail (c ∷ cs) s = Trail-trans (run_call-Trail c s) (run_calls-Trail cs (run_call c s))
