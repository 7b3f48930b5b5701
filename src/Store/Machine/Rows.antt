-- ===== src/Store/Machine/Rows.antt =====
-- The steps of the abstract machine that the UPDATEs of one row make.
use aurelix.Base.{
  nat_eq, ◌⊎◌, ℕ, String, Bool, true, false, ◌≡◌, refl, arith, Option, none, some, List, inl, inr,
  Bool-cases, subst, sym, ◌&&◌, ◌==◌, string_eq,
}
use aurelix.Store.Tables.{
  row_count, Status, completed, queued, failed, running, interrupted, is_running, is_queued,
  is_interrupted, Job, RuntimeStore, find_job, update_job, lease_end,
}
use aurelix.Store.Tables.Updates.{KeepsId, find_job-update_job, updated}
use aurelix.Store.Lease.{claim_found, heartbeat, claimed, renewed, renewable}
use aurelix.Store.Finish.{released, held, retry_status}
use aurelix.Store.Recovery.{interrupt, mark_interrupted}
use aurelix.Store.Machine.{
  working, take, give_back, lose, requeue, bury, succeed, give_up, Trail, stop, one, Trail-trans,
  phase_of, row_phase, view,
}

module _ {D : Type 0} (k : String) where
  pub update-Trail :
      (j : String) (p : Job D → Bool) (f : Job D → Job D) (rs : List (Job D))
      → KeepsId f
      → ((r : Job D) → p r ≡ true → Trail (phase_of r.status r) (phase_of (f r).status (f r)))
      → Trail (view k rs) (view k (update_job j p f rs))
  update-Trail j p f rs ids moves =
      let after = find_job-update_job k j p f rs ids in
      subst (λ o. Trail (view k rs) (row_phase o)) (sym after) (by_row (find_job k rs))
    where
      by_row : (o : Option (Job D)) → Trail (row_phase o) (row_phase (updated j p f o))
      by_row none = stop
      by_row (some r) = elim (Bool-cases (r.job_id == j && p r)) [
        | inl hit ↦ rw hit (moves r (ground arith))
        | inr miss ↦ rw miss stop
      ]

-- The steps that the UPDATEs of one row make, by the status that the row had.
module _ {D : Type 0} (now : ℕ) (r : Job D) where
  claimed-Trail :
      (worker : Option String) (token : String) (until : ℕ) (status : Status)
      → is_queued status ≡ true
      → Trail (phase_of status r) (phase_of running (claimed worker token now until r))
  claimed-Trail worker token until queued h = one take
  claimed-Trail worker token until running h = ground arith
  claimed-Trail worker token until interrupted h = ground arith
  claimed-Trail worker token until completed h = ground arith
  claimed-Trail worker token until failed h = ground arith

  renewed-Trail :
      (until : ℕ) (status : Status)
      → Trail (phase_of status r) (phase_of status (renewed now until r))
  renewed-Trail until queued = stop
  renewed-Trail until running = stop
  renewed-Trail until interrupted = stop
  renewed-Trail until completed = stop
  renewed-Trail until failed = stop

  -- A running job is released to any status but the one it has.
  running-Trail :
      (final : Status) (error : Option String)
      → is_running final ≡ false
      → Trail
          (working r.attempts r.worker_id r.lease_token)
          (phase_of final (released final now error r))
  running-Trail queued error h = one give_back
  running-Trail failed error h = one give_up
  running-Trail completed error h = one succeed
  running-Trail interrupted error h = one lose
  running-Trail running error h = ground arith

  released-Trail :
      (final : Status) (error : Option String) (status : Status)
      → is_running final ≡ false
      → is_running status ≡ true
      → Trail (phase_of status r) (phase_of final (released final now error r))
  released-Trail final error running f h = running-Trail final error f
  released-Trail final error queued f h = ground arith
  released-Trail final error interrupted f h = ground arith
  released-Trail final error completed f h = ground arith
  released-Trail final error failed f h = ground arith

  lost-Trail :
      (retry : Bool) (error : Option String) (status : Status)
      → is_interrupted status ≡ true
      → Trail
          (phase_of status r)
          (phase_of (retry_status retry) (released (retry_status retry) now error r))
  lost-Trail true error interrupted h = one requeue
  lost-Trail false error interrupted h = one bury
  lost-Trail retry error queued h = ground arith
  lost-Trail retry error running h = ground arith
  lost-Trail retry error completed h = ground arith
  lost-Trail retry error failed h = ground arith

  marked-Trail :
      (error : String) (status : Status)
      → is_running status ≡ true
      → Trail (phase_of status r) (phase_of interrupted (mark_interrupted now error r))
  marked-Trail error running h = one lose
  marked-Trail error queued h = ground arith
  marked-Trail error interrupted h = ground arith
  marked-Trail error completed h = ground arith
  marked-Trail error failed h = ground arith

module _ {D : Type 0} (k : String) where
  pub claim_found-Trail :
      (row : Option (Job D)) (worker : Option String) (token : String) (now : ℕ)
      (s : RuntimeStore D)
      → Trail (view k s.jobs) (view k (claim_found row worker token now s).1.jobs)
  unfolding claim_found
  claim_found-Trail none worker token now s = stop
  claim_found-Trail (some row) worker token now s =
      elim (Bool-cases (row_count row.job_id (λ x. is_queued x.status) s.jobs == 1)) [
        | inl one_row ↦ rw one_row (
            update-Trail k row.job_id (λ x. is_queued x.status)
              (claimed worker token now (lease_end s now)) s.jobs (λ x. refl)
              (λ x. claimed-Trail now x worker token (lease_end s now) x.status))
        | inr other ↦ rw other stop
      ]

  pub heartbeat-Trail :
      (id worker token : Option String) (now : ℕ) (s : RuntimeStore D)
      → Trail (view k s.jobs) (view k (heartbeat id worker token now s).1.jobs)
  unfolding heartbeat
  heartbeat-Trail none worker token now s = stop
  heartbeat-Trail (some id) worker token now s =
      update-Trail k id (renewable worker token now) (renewed now (lease_end s now)) s.jobs
        (λ x. refl) (λ x e. renewed-Trail now x (lease_end s now) x.status)

  pub release-Trail :
      (j : String) (p : Job D → Bool) (final : Status) (now : ℕ) (error : Option String)
      (rs : List (Job D))
      → is_running final ≡ false
      → ((x : Job D) → p x ≡ true → is_running x.status ≡ true)
      → Trail (view k rs) (view k (update_job j p (released final now error) rs))
  release-Trail j p final now error rs f busy =
      update-Trail k j p (released final now error) rs (λ x. refl)
        (λ x e. released-Trail now x final error x.status f (busy x e))

  pub interrupt-Trail :
      (supported : Bool) (j : String) (retry : Bool) (now : ℕ) (error : String) (rs : List (Job D))
      → Trail (view k rs) (view k (interrupt supported j (retry_status retry) now error rs))
  unfolding interrupt
  interrupt-Trail true j retry now error rs =
      Trail-trans
        (update-Trail k j (λ x. is_running x.status) (mark_interrupted now error) rs (λ x. refl)
          (λ x. marked-Trail now x error x.status))
        (update-Trail k j (λ x. is_interrupted x.status)
          (released (retry_status retry) now (some error)) _ (λ x. refl)
          (λ x. lost-Trail now x retry (some error) x.status))
  interrupt-Trail false j retry now error rs =
      release-Trail j (λ x. is_running x.status) (retry_status retry) now (some error) rs
        (ground arith) (λ x e. e)

  pub held-running :
      (worker token : Option String) (x : Job D)
      → held worker token x ≡ true
      → is_running x.status ≡ true
  held-running worker token x h = ground arith

  -- A table that is the old one, or one that a path leads to.
  pub either-Trail :
      {rs us vs : List (Job D)}
      → Trail (view k rs) (view k us)
      → (vs ≡ rs) ⊎ (vs ≡ us)
      → Trail (view k rs) (view k vs)
  either-Trail {rs} moved (inl same) = subst (λ x. Trail (view k rs) (view k x)) (sym same) stop
  either-Trail {rs} moved (inr changed) =
      subst (λ x. Trail (view k rs) (view k x)) (sym changed) moved
