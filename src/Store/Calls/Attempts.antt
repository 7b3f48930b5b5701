-- ===== src/Store/Calls/Attempts.antt =====
-- How many executions have been started: only a claim starts one, and only one.
use aurelix.Base.{
  ℕ, ◌+◌, String, Bool, true, false, ◌≡◌, refl, inl, inr, arith, Option, none, some, List, [], ◌∷◌,
  ◌++◌, Option-cases, if◌then◌else◌, Result, ok, err, leb, keep, ◌∙◌,
}
use aurelix.Base.Int.{ℤ}
use aurelix.Store.Tables.{
  Documents, Status, completed, is_running, is_queued, is_interrupted, Job, RuntimeStore,
  StoreError, find_job, enqueue, record_audit, update_job, row_count, queued_job, lease_end,
}
use aurelix.Store.Lease.{claim, claim_found, claim_row, claimed, heartbeat, renewable, renewed}
use aurelix.Store.Finish.{
  complete, complete_row, finish, finish_row, record_result, record_result_row, fail, after_fail,
  discard, held, released, retry_status, result_or_success,
}
use aurelix.Store.Recovery.{
  recover_running_jobs, recover_loop, recover_row, interrupted_row, interrupt, skipped,
  mark_interrupted,
}
use aurelix.Store.Calls.{
  Call, enqueue_call, claim_next_call, claim_call, heartbeat_call, complete_call, finish_call,
  record_result_call, fail_call, recover_call, audit_call, run_call, run_calls,
}

-- The attempts of all jobs together.
abbrev pub total_attempts : {D : Type 0} → List (Job D) → ℕ
total_attempts [] = 0
total_attempts (r ∷ rs) = r.attempts + total_attempts rs

-- None of the calls is a claim.
abbrev pub NoClaims : {D : Type 0} → List (Call D) → Type 0
NoClaims [] = Unit
NoClaims (claim_next_call max worker token now ∷ cs) = ⊥
NoClaims (claim_call id max worker token now ∷ cs) = ⊥
NoClaims (_ ∷ cs) = NoClaims cs

module _ {D : Type 0} where
  total-update_job :
      (k : String) (p : Job D → Bool) (f : Job D → Job D) (rs : List (Job D))
      → ((r : Job D) → (f r).attempts ≡ r.attempts)
      → total_attempts (update_job k p f rs) ≡ total_attempts rs
  total-update_job k p f [] h = refl
  total-update_job k p f (r ∷ rs) h = ground (arith, total-update_job k p f rs h, h r)

  total-claimed :
      (k : String) (p : Job D → Bool) (worker : Option String) (token : String) (now until : ℕ)
      (rs : List (Job D))
      → total_attempts (update_job k p (claimed worker token now until) rs)
        ≡ total_attempts rs + row_count k p rs
  total-claimed k p worker token now until [] = refl
  total-claimed k p worker token now until (r ∷ rs) =
      ground (arith, total-claimed k p worker token now until rs)

  total-append :
      (xs ys : List (Job D)) → total_attempts (xs ++ ys) ≡ total_attempts xs + total_attempts ys
  total-append [] ys = omega arith
  total-append (x ∷ xs) ys = ground (arith, total-append xs ys)

  -- What a claim adds to the attempts, by what it returns.
  abbrev pub Started :
      {A : Type 0} → RuntimeStore D → Result StoreError (Option A) × RuntimeStore D → Type 0
  Started s (ok (some r), s') = total_attempts s'.jobs ≡ total_attempts s.jobs + 1
  Started s (ok none, s') = total_attempts s'.jobs ≡ total_attempts s.jobs
  Started s (err e, s') = total_attempts s'.jobs ≡ total_attempts s.jobs

  claim_row-Started :
      (row : Job D) (worker : Option String) (token : String) (now : ℕ) (s : RuntimeStore D)
      → Started s (claim_row row worker token now s)
  unfolding claim_row
  claim_row-Started row worker token now s = ground (
    arith,
    total-claimed row.job_id (λ r. is_queued r.status) worker token now (lease_end s now) s.jobs,
  )

  claim_found-Started :
      (row : Option (Job D)) (worker : Option String) (token : String) (now : ℕ)
      (s : RuntimeStore D)
      → Started s (claim_found row worker token now s)
  unfolding claim_found
  claim_found-Started none worker token now s = refl
  claim_found-Started (some row) worker token now s = claim_row-Started row worker token now s

  -- A claim starts one execution where it returns a record, and none otherwise.
  pub claim-Started :
      (id : String) (max : ℕ) (worker : Option String) (token : String) (now : ℕ)
      (s : RuntimeStore D)
      → Started s (claim id max worker token now s)
  unfolding claim
  claim-Started id max worker token now s = claim_found-Started _ worker token now s

  interrupt-total :
      (b : Bool) (k : String) (final : Status) (now : ℕ) (error : String) (jobs : List (Job D))
      → total_attempts (interrupt b k final now error jobs) ≡ total_attempts jobs
  unfolding interrupt
  interrupt-total true k final now error jobs =
      total-update_job k (λ r. is_interrupted r.status) (released final now (some error)) _
        (λ r. refl)
      ∙ total-update_job k (λ r. is_running r.status) (mark_interrupted now error) jobs (λ r. refl)
  interrupt-total false k final now error jobs =
      total-update_job k (λ r. is_running r.status) (released final now (some error)) jobs
        (λ r. refl)

module _ {D : Type 0} ⦃docs : Documents D⦄ where
  complete_row-total :
      (row : Option (Job D)) (j : String) (v : D) (worker token : Option String) (now : ℕ)
      (s : RuntimeStore D)
      → total_attempts (complete_row row j v worker token now s).1.jobs ≡ total_attempts s.jobs
  unfolding complete_row
  complete_row-total none j v worker token now s = refl
  complete_row-total (some row) j v worker token now s =
      let kept =
        total-update_job j (held worker token) (released completed now none) s.jobs (λ r. refl) in
      ground arith

  pub complete-total :
      (j : String) (result : Option D) (worker token : Option String) (now : ℕ) (s : RuntimeStore D)
      → total_attempts (complete j result worker token now s).1.jobs ≡ total_attempts s.jobs
  unfolding complete
  complete-total j result worker token now s =
      complete_row-total (find_job j s.jobs) j _ worker token now s

  discard-total :
      (o : Result StoreError D × RuntimeStore D)
      → total_attempts (discard o).1.jobs ≡ total_attempts o.1.jobs
  unfolding discard
  discard-total (ok v, s) = refl
  discard-total (err e, s) = refl

  finish_row-total :
      (row : Option (Job D)) (j : String) (error : Option String) (retry : Bool)
      (worker token : Option String) (now : ℕ) (s : RuntimeStore D)
      → total_attempts (finish_row row j error retry worker token now s).1.jobs
        ≡ total_attempts s.jobs
  unfolding finish_row
  finish_row-total none j error retry worker token now s = refl
  finish_row-total (some row) j error retry worker token now s =
      let kept =
        total-update_job j (held worker token) (released (retry_status retry) now error) s.jobs
          (λ r. refl) in
      ground arith

  pub finish-total :
      (j : String) (success : Bool) (error : Option String) (retry : Bool) (result : Option D)
      (worker token : Option String) (now : ℕ) (s : RuntimeStore D)
      → total_attempts (finish j success error retry result worker token now s).1.jobs
        ≡ total_attempts s.jobs
  unfolding finish
  finish-total j true error retry result worker token now s =
      let given = some (result_or_success result) in
      discard-total (complete j given worker token now s)
      ∙ complete-total j given worker token now s
  finish-total j false error retry result worker token now s =
      finish_row-total (find_job j s.jobs) j error retry worker token now s

  record_result-total :
      (j : String) (v : D) (worker token : Option String) (now : ℕ) (s : RuntimeStore D)
      → total_attempts (record_result j v worker token now s).1.jobs ≡ total_attempts s.jobs
  unfolding record_result record_result_row
  record_result-total j v worker token now s = elim (Option-cases (find_job j s.jobs)) [
    | inl absent ↦ rw absent refl
    | inr (row, found) ↦ rw found (ground arith)
  ]

  after_fail-total :
      (event j error : String) (retry : Bool) (now : ℕ)
      (o : Result StoreError (Unit {0}) × RuntimeStore D)
      → total_attempts (after_fail event j error retry now o).1.jobs ≡ total_attempts o.1.jobs
  unfolding after_fail record_audit
  after_fail-total event j error retry now (ok u, s) = refl
  after_fail-total event j error retry now (err e, s) = refl

  interrupted_row-total :
      (final : Bool) (now : ℕ) (row : Job D) (s : RuntimeStore D)
      → total_attempts (interrupted_row final now row s).jobs ≡ total_attempts s.jobs
  unfolding interrupted_row
  interrupted_row-total true now row s =
      interrupt-total s.supports_interrupted row.job_id _ now _ s.jobs
  interrupted_row-total false now row s =
      interrupt-total s.supports_interrupted row.job_id _ now _ s.jobs

  recover_row-total :
      (max_attempts now : ℕ) (row : Job D) (s : RuntimeStore D)
      → total_attempts (recover_row max_attempts now row s).jobs ≡ total_attempts s.jobs
  unfolding recover_row
  recover_row-total max_attempts now row s =
      let kept = interrupted_row-total (leb max_attempts row.attempts) now row s in
      let ended =
        total-update_job row.job_id (λ r. is_running r.status) (released completed now none) s.jobs
          (λ r. refl) in
      ground arith

  recover_loop-total :
      (max_attempts : ℕ) (stale : Option ℤ) (now_dt now : ℕ) (rows : List (Job D))
      (p : RuntimeStore D × ℕ)
      → total_attempts (recover_loop max_attempts stale now_dt now rows p).0.jobs
        ≡ total_attempts p.0.jobs
  unfolding recover_loop
  recover_loop-total max_attempts stale now_dt now [] p = refl
  recover_loop-total max_attempts stale now_dt now (row ∷ rows) (s, n) =
      let next =
        if skipped stale now_dt row then (s, n) else (recover_row max_attempts now row s, n + 1) in
      let kept = recover_row-total max_attempts now row s in
      let step : total_attempts next.0.jobs ≡ total_attempts s.jobs = ground (arith, kept) in
      recover_loop-total max_attempts stale now_dt now rows next ∙ step

  -- Calls that claim nothing start no execution.
  pub run_calls-total :
      (cs : List (Call D)) (s : RuntimeStore D)
      → NoClaims cs
      → total_attempts (run_calls cs s).jobs ≡ total_attempts s.jobs
  unfolding run_calls run_call record_audit enqueue heartbeat recover_running_jobs fail
  run_calls-total [] s h = refl
  run_calls-total (enqueue_call id name payload now ∷ cs) s h =
      run_calls-total cs _ h
      ∙ ground (arith, total-append s.jobs (queued_job id name payload now ∷ []))
  run_calls-total (claim_next_call max worker token now ∷ cs) s h = elim h [ ]
  run_calls-total (claim_call id max worker token now ∷ cs) s h = elim h [ ]
  run_calls-total (heartbeat_call none worker token now ∷ cs) s h = run_calls-total cs _ h
  run_calls-total (heartbeat_call (some id) worker token now ∷ cs) s h =
      run_calls-total cs _ h
      ∙ total-update_job id (renewable worker token now) (renewed now (lease_end s now)) s.jobs
          (λ r. refl)
  run_calls-total (complete_call id result worker token now ∷ cs) s h =
      run_calls-total cs _ h ∙ complete-total id result worker token now s
  run_calls-total (finish_call id success error retry result worker token now ∷ cs) s h =
      run_calls-total cs _ h ∙ finish-total id success error retry result worker token now s
  run_calls-total (record_result_call id result worker token now ∷ cs) s h =
      run_calls-total cs _ h ∙ record_result-total id result worker token now s
  run_calls-total (fail_call id error retry worker token event now ∷ cs) s h =
      run_calls-total cs _ h
      ∙ (after_fail-total event id error retry now
            (finish id false (some error) retry none worker token now s)
          ∙ finish-total id false (some error) retry none worker token now s)
  run_calls-total (recover_call max stale now_dt now ∷ cs) s h =
      run_calls-total cs _ h
      ∙ recover_loop-total max stale now_dt now (keep (λ r. is_running r.status) s.jobs) (s, 0)
  run_calls-total (audit_call event id type_ payload now ∷ cs) s h = run_calls-total cs _ h
