-- ===== src/Store/Invariant/Recovered.antt =====
-- Recovery keeps the store valid.
use aurelix.Base.{
  ℕ, ◌+◌, String, Bool, true, false, ◌≡◌, inl, inr, refl, arith, Option, none, some, List, [], ◌∷◌,
  lookup, is_some, if◌then◌else◌, leb, keep, Bool-cases, All,
}
use aurelix.Base.Int.{ℤ}
use aurelix.Store.Tables.{
  Documents, Status, queued, completed, failed, is_running, Job, RuntimeStore, update_job,
}
use aurelix.Store.Finish.{released}
use aurelix.Store.Recovery.{
  recover_row, interrupted_row, recover_loop, recover_running_jobs, skipped, interrupt,
}
use aurelix.Store.Invariant.{IsValid, IsValidJob, update-IsValid, released-IsValidJob}
use aurelix.Store.Invariant.Ending.{release_with-IsValid, release-IsValid}

module _ {D : Type 0} where
  -- The two UPDATEs through `interrupted` do what one does, where no row was interrupted before.
  pub interrupt-two_steps :
      (k : String) (final : Status) (now : ℕ) (error : String) (rs : List (Job D))
      → All IsValidJob rs
      → interrupt true k final now error rs ≡ interrupt false k final now error rs
  unfolding interrupt
  interrupt-two_steps k final now error [] h = refl
  interrupt-two_steps k final now error (r ∷ rs) h =
      ground (arith, interrupt-two_steps k final now error rs h.1, h.0.settled)

  -- One UPDATE to a state that has ended or waits.
  pub interrupt-one_step :
      (supported : Bool) (k : String) (final : Status) (now : ℕ) (error : String)
      (rs : List (Job D))
      → All IsValidJob rs
      → interrupt supported k final now error rs
        ≡ update_job k (λ r. is_running r.status) (released final now (some error)) rs
  unfolding interrupt
  interrupt-one_step true k final now error rs h = interrupt-two_steps k final now error rs h
  interrupt-one_step false k final now error rs h = refl

module _ {D : Type 0} ⦃docs : Documents D⦄ where
  interrupted_row-IsValid :
      (final : Bool) (now : ℕ) (row : Job D) (s : RuntimeStore D)
      → IsValid s
      → IsValid (interrupted_row final now row s)
  unfolding interrupted_row
  interrupted_row-IsValid true now row s h =
      rw (interrupt-one_step s.supports_interrupted row.job_id failed now _ s.jobs h.jobs_valid) (
        release_with-IsValid row.job_id (λ r. is_running r.status) failed now _ _ s refl (λ e. cc)
          h)
  interrupted_row-IsValid false now row s h =
      rw (interrupt-one_step s.supports_interrupted row.job_id queued now _ s.jobs h.jobs_valid)
        (release-IsValid row.job_id (λ r. is_running r.status) now _ s h)

  recover_row-lost :
      (max_attempts now : ℕ) (row : Job D) (s : RuntimeStore D)
      → is_some (lookup row.job_id s.results) ≡ false
      → recover_row max_attempts now row s
        ≡ interrupted_row (leb max_attempts row.attempts) now row s
  unfolding recover_row
  recover_row-lost max_attempts now row s h = rw h

  pub recover_row-IsValid :
      (max_attempts now : ℕ) (row : Job D) (s : RuntimeStore D)
      → IsValid s
      → IsValid (recover_row max_attempts now row s)
  recover_row-IsValid max_attempts now row s h =
      elim (Bool-cases (is_some (lookup row.job_id s.results))) [
        | inl durable ↦
            unfold recover_row in
            rw durable (
              update-IsValid row.job_id (λ r. is_running r.status) (released completed now none)
                s.results s (λ r. refl)
                (λ r _ _. released-IsValidJob completed now none r refl (λ e. cc))
                (λ r _ _. durable) (λ j e. e) h)
        | inr lost ↦
            rw (recover_row-lost max_attempts now row s lost)
              (interrupted_row-IsValid (leb max_attempts row.attempts) now row s h)
      ]

  recover_loop-IsValid :
      (max_attempts : ℕ) (stale : Option ℤ) (now_dt now : ℕ) (rows : List (Job D))
      (p : RuntimeStore D × ℕ)
      → IsValid p.0
      → IsValid (recover_loop max_attempts stale now_dt now rows p).0
  unfolding recover_loop
  recover_loop-IsValid max_attempts stale now_dt now [] p h = h
  recover_loop-IsValid max_attempts stale now_dt now (row ∷ rows) (s, n) h =
      recover_loop-IsValid max_attempts stale now_dt now rows
        (if skipped stale now_dt row then (s, n) else (recover_row max_attempts now row s, n + 1))
        (either (skipped stale now_dt row))
    where
      either :
          (b : Bool)
          → let p : RuntimeStore D × ℕ =
              if b then (s, n) else (recover_row max_attempts now row s, n + 1) in
            IsValid p.0
      either true = h
      either false = recover_row-IsValid max_attempts now row s h

  pub recover_running_jobs-IsValid :
      (max_attempts : ℕ) (stale : Option ℤ) (now_dt now : ℕ) (s : RuntimeStore D)
      → IsValid s
      → IsValid (recover_running_jobs max_attempts stale now_dt now s).0
  unfolding recover_running_jobs
  recover_running_jobs-IsValid max_attempts stale now_dt now s h =
      recover_loop-IsValid max_attempts stale now_dt now (keep (λ r. is_running r.status) s.jobs)
        (s, 0) h
