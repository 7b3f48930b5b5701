-- ===== src/Store/Recovery/Due.antt =====
-- Which executions recovery takes back.
use aurelix.Base.{
  ◌∙◌, ◌+◌, ap, if◌then◌else◌, ◌==◌, leb, sym, subst, lookup, is_some, Bool-cases, keep, true, ℕ,
  String, Bool, false, not, ◌||◌, ◌≡◌, ◌⊎◌, inl, inr, refl, arith, Option, none, some, List, [],
  ◌∷◌, eq_iff, string_eq, Option-cases,
}
use aurelix.Base.Int.{ℤ}
use aurelix.Store.Tables.{
  completed, queued, failed, RuntimeStore, is_interrupted, Documents, Status, is_running, Job,
  find_job, update_job,
}
use aurelix.Store.Tables.Updates.{Listed, find_job-update_job, find_job-job_id}
use aurelix.Store.Finish.{released}
use aurelix.Store.Recovery.{
  recover_loop, interrupted_row, recover_row, recover_running_jobs, mark_interrupted, interrupt,
  lease_expired, forced, skipped,
}

-- Recovery passes a row over exactly when its lease has not expired and the call is not forced by
-- `stale_after_seconds == 0`. Any other value of `stale_after_seconds` makes no difference, and the
-- heartbeat never matters.
pub skipped_iff :
    {D : Type 0} (stale : Option ℤ) (now : ℕ) (r : Job D)
    → skipped stale now r ≡ not (forced stale || lease_expired r.lease_until now)
unfolding skipped
skipped_iff none now r = ground arith
skipped_iff (some x) now r = ground arith

-- The job of that id is not running.
abbrev pub Stopped : {D : Type 0} → String → List (Job D) → Type 0
Stopped k rs = elim (find_job k rs) [ none ↦ Unit | some r ↦ is_running r.status ≡ false ]

module _ {D : Type 0} (k : String) where
  -- An UPDATE of running rows to a status that is not `running` starts nothing.
  update-Stopped :
      (j : String) (status : Status) (now : ℕ) (error : Option String) (p : Job D → Bool)
      (rs : List (Job D))
      → is_running status ≡ false
      → Stopped k rs
      → Stopped k (update_job j p (released status now error) rs)
  update-Stopped j status now error p rs a h =
      ground (arith, find_job-update_job k j p (released status now error) rs (λ r. refl))

  -- And it stops the row of its own id.
  update-stops :
      (status : Status) (now : ℕ) (error : Option String) (rs : List (Job D))
      → is_running status ≡ false
      → Stopped k (update_job k (λ r. is_running r.status) (released status now error) rs)
  update-stops status now error rs a = elim (Option-cases (find_job k rs)) [
    | inl absent ↦ ground (
      arith,
      find_job-update_job k k (λ (r : Job D). is_running r.status) (released status now error) rs
          (λ r. refl),
    )
    | inr (r, found) ↦ ground (
      arith,
      find_job-update_job k k (λ (r : Job D). is_running r.status) (released status now error) rs
          (λ r. refl),
      find_job-job_id k r rs found,
      eq_iff r.job_id k,
    )
  ]

  mark-Stopped :
      (j : String) (now : ℕ) (error : String) (rs : List (Job D))
      → Stopped k rs
      → Stopped k (update_job j (λ r. is_running r.status) (mark_interrupted now error) rs)
  mark-Stopped j now error rs h = ground (
    arith,
    find_job-update_job k j (λ (r : Job D). is_running r.status) (mark_interrupted now error) rs
        (λ r. refl),
  )

  mark-stops :
      (now : ℕ) (error : String) (rs : List (Job D))
      → Stopped k (update_job k (λ r. is_running r.status) (mark_interrupted now error) rs)
  mark-stops now error rs = elim (Option-cases (find_job k rs)) [
    | inl absent ↦ ground (
      arith,
      find_job-update_job k k (λ (r : Job D). is_running r.status) (mark_interrupted now error) rs
          (λ r. refl),
    )
    | inr (r, found) ↦ ground (
      arith,
      find_job-update_job k k (λ (r : Job D). is_running r.status) (mark_interrupted now error) rs
          (λ r. refl),
      find_job-job_id k r rs found,
      eq_iff r.job_id k,
    )
  ]

  interrupt-Stopped :
      (supported : Bool) (j : String) (final : Status) (now : ℕ) (error : String)
      (rs : List (Job D))
      → is_running final ≡ false
      → Stopped k rs
      → Stopped k (interrupt supported j final now error rs)
  unfolding interrupt
  interrupt-Stopped true j final now error rs a h =
      update-Stopped j final now (some error) (λ r. is_interrupted r.status) _ a
        (mark-Stopped j now error rs h)
  interrupt-Stopped false j final now error rs a h =
      update-Stopped j final now (some error) (λ r. is_running r.status) rs a h

  interrupt-stops :
      (supported : Bool) (final : Status) (now : ℕ) (error : String) (rs : List (Job D))
      → is_running final ≡ false
      → Stopped k (interrupt supported k final now error rs)
  unfolding interrupt
  interrupt-stops true final now error rs a =
      update-Stopped k final now (some error) (λ r. is_interrupted r.status) _ a
        (mark-stops now error rs)
  interrupt-stops false final now error rs a = update-stops final now (some error) rs a

module _ {D : Type 0} ⦃docs : Documents D⦄ (k : String) where
  interrupted_row-Stopped :
      (final : Bool) (now : ℕ) (row : Job D) (s : RuntimeStore D)
      → Stopped k s.jobs
      → Stopped k (interrupted_row final now row s).jobs
  unfolding interrupted_row
  interrupted_row-Stopped true now row s h =
      interrupt-Stopped k s.supports_interrupted row.job_id failed now _ s.jobs refl h
  interrupted_row-Stopped false now row s h =
      interrupt-Stopped k s.supports_interrupted row.job_id queued now _ s.jobs refl h

  interrupted_row-stops :
      (final : Bool) (now : ℕ) (row : Job D) (s : RuntimeStore D)
      → row.job_id ≡ k
      → Stopped k (interrupted_row final now row s).jobs
  unfolding interrupted_row
  interrupted_row-stops true now row s e =
      rw e (interrupt-stops k s.supports_interrupted failed now _ s.jobs refl)
  interrupted_row-stops false now row s e =
      rw e (interrupt-stops k s.supports_interrupted queued now _ s.jobs refl)

  recover_row-Stopped :
      (max_attempts now : ℕ) (row : Job D) (s : RuntimeStore D)
      → Stopped k s.jobs
      → Stopped k (recover_row max_attempts now row s).jobs
  unfolding recover_row
  recover_row-Stopped max_attempts now row s h =
      elim (Bool-cases (is_some (lookup row.job_id s.results))) [
        | inl durable ↦ rw durable (
            update-Stopped k row.job_id completed now none (λ r. is_running r.status) s.jobs refl h)
        | inr lost ↦ rw lost (interrupted_row-Stopped (leb max_attempts row.attempts) now row s h)
      ]

  recover_row-stops :
      (max_attempts now : ℕ) (row : Job D) (s : RuntimeStore D)
      → row.job_id ≡ k
      → Stopped k (recover_row max_attempts now row s).jobs
  unfolding recover_row
  recover_row-stops max_attempts now row s e =
      elim (Bool-cases (is_some (lookup row.job_id s.results))) [
        | inl durable ↦ rw durable (
            subst
              (λ j.
                Stopped k
                  (update_job j (λ r. is_running r.status) (released completed now none) s.jobs))
              (sym e) (update-stops k completed now none s.jobs refl))
        | inr lost ↦ rw lost (interrupted_row-stops (leb max_attempts row.attempts) now row s e)
      ]

  recover_loop-Stopped :
      (max_attempts : ℕ) (stale : Option ℤ) (now_dt now : ℕ) (rows : List (Job D))
      (p : RuntimeStore D × ℕ)
      → Stopped k p.0.jobs
      → Stopped k (recover_loop max_attempts stale now_dt now rows p).0.jobs
  unfolding recover_loop
  recover_loop-Stopped max_attempts stale now_dt now [] p h = h
  recover_loop-Stopped max_attempts stale now_dt now (row ∷ rows) (s, n) h =
      recover_loop-Stopped max_attempts stale now_dt now rows _ (either (skipped stale now_dt row))
    where
      either :
          (b : Bool)
          → let p : RuntimeStore D × ℕ =
              if b then (s, n) else (recover_row max_attempts now row s, n + 1) in
            Stopped k p.0.jobs
      either true = h
      either false = recover_row-Stopped max_attempts now row s h

  -- A row of the loop that is not passed over is stopped by the end of it.
  recover_loop-stops :
      (max_attempts : ℕ) (stale : Option ℤ) (now_dt now : ℕ) (r : Job D) (rows : List (Job D))
      (p : RuntimeStore D × ℕ)
      → Listed r rows
      → r.job_id ≡ k
      → skipped stale now_dt r ≡ false
      → Stopped k (recover_loop max_attempts stale now_dt now rows p).0.jobs
  unfolding recover_loop
  recover_loop-stops max_attempts stale now_dt now r [] p l e due = elim l [ ]
  recover_loop-stops max_attempts stale now_dt now r (row ∷ rows) (s, n) (inr l) e due =
      recover_loop-stops max_attempts stale now_dt now r rows _ l e due
  recover_loop-stops max_attempts stale now_dt now r (row ∷ rows) (s, n) (inl q) e due =
      recover_loop-Stopped max_attempts stale now_dt now rows _
        (taken (skipped stale now_dt row) (rw q due))
    where
      taken :
          (b : Bool)
          → b ≡ false
          → let p : RuntimeStore D × ℕ =
              if b then (s, n) else (recover_row max_attempts now row s, n + 1) in
            Stopped k p.0.jobs
      taken true no_ = cc
      taken false no_ = recover_row-stops max_attempts now row s (rw q e)

Listed-running :
    {D : Type 0} (k : String) (r : Job D) (rs : List (Job D))
    → find_job k rs ≡ some r
    → is_running r.status ≡ true
    → Listed r (keep (λ x. is_running x.status) rs)
Listed-running {D} k r [] h e = cc
Listed-running {D} k r (x ∷ xs) h e = elim (Bool-cases (x.job_id == k)) [
  | inl hit ↦
      let q : x ≡ r = ground arith in rw (ap (λ (y : Job D). is_running y.status) q ∙ e) (inl q)
  | inr miss ↦ elim (Bool-cases (is_running x.status)) [
    | inl busy ↦ rw busy (inr (Listed-running k r xs (ground arith) e))
    | inr idle ↦ rw idle (Listed-running k r xs (ground arith) e)
  ]
]

-- After a recovery no job runs any more whose lease had expired, or, when the recovery is forced, that
-- was running at all.
pub recover_running_jobs-stops :
    {D : Type 0} ⦃docs : Documents D⦄ (max_attempts : ℕ) (stale : Option ℤ) (now_dt now : ℕ)
    (s : RuntimeStore D) (k : String) (r : Job D)
    → find_job k s.jobs ≡ some r
    → is_running r.status ≡ true
    → (lease_expired r.lease_until now_dt ≡ true) ⊎ (forced stale ≡ true)
    → Stopped k (recover_running_jobs max_attempts stale now_dt now s).0.jobs
unfolding recover_running_jobs
recover_running_jobs-stops max_attempts stale now_dt now s k r found busy due =
    recover_loop-stops k max_attempts stale now_dt now r (keep (λ x. is_running x.status) s.jobs)
      (s, 0) (Listed-running k r s.jobs found busy) (find_job-job_id k r s.jobs found)
      (ground (arith, skipped_iff stale now_dt r))
