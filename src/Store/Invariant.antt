-- ===== src/Store/Invariant.antt =====
-- What every call on the store keeps: leases are held by running jobs alone, ids are unique, and a
-- job that has ended has a result.
pub mod Ending
pub mod Recovered
use aurelix.Base.{
  ℕ, zero, suc, ◌+◌, ◌≤◌, ◌<◌, String, Bool, true, false, not, ◌&&◌, ◌||◌, ◌≡◌, ◌≢◌, ◌⊎◌, inl, inr,
  refl, arith, Option, none, some, List, [], ◌∷◌, ◌++◌, Dict, lookup, insert, is_some,
  if◌then◌else◌, ◌==◌, string_eq, eq_iff, All, All-append, Bool-cases, Option-cases, Result, ok,
  err, leb, keep, nat_beq,
}
use aurelix.Base.Int.{ℤ}
use aurelix.Store.Tables.{
  Documents, Status, queued, running, interrupted, completed, failed, is_queued, is_running,
  is_interrupted, is_terminal, is_completed, Job, RuntimeStore, find_job, update_job, insert_result,
  new, enqueue, queued_job, lease_end, row_count, record_audit, heartbeat_runtime,
}
use aurelix.Store.Tables.Updates.{
  Unique, KeepsId, updated, find_job-update_job, Unique-update_job, All-update_job, find_job-job_id,
  find_job-All, find_job-append, Unique-append, lookup-insert_result, row_count_lem,
}
use aurelix.Store.Lease.{
  claimed, claim_row, claim_next, claim, claim_found, heartbeat, renewed, renewable, claimable,
  first_job, if_claimable, owned,
}
use aurelix.Store.Finish.{
  released, held, complete, complete_row, finish, finish_row, record_result, record_result_row,
  fail, discard, after_fail,
}
use aurelix.Store.Recovery.{recover_row, recover_loop, recover_running_jobs, skipped, interrupt}

-- A lease is held by a running job and by no other, a running job was started at least once, and
-- nothing stays in the state `interrupted`.
pub record IsValidJob {D : Type 0} (r : Job D) : Type 0 where
  pub leased :
      r.status ≡ running
      → (is_some r.lease_token ≡ true)
        × (is_some r.lease_until ≡ true)
        × (is_some r.heartbeat_at ≡ true)
        × (0 < r.attempts)
  pub idle :
      is_running r.status ≡ false
      → (r.worker_id ≡ none)
        × (r.lease_token ≡ none)
        × (r.lease_until ≡ none)
        × (r.heartbeat_at ≡ none)
  pub settled : r.status ≢ interrupted

-- The job of that id has ended.
abbrev pub Ended : {D : Type 0} → String → List (Job D) → Type 0
Ended k rs = elim (find_job k rs) [ none ↦ ⊥ | some r ↦ is_terminal r.status ≡ true ]

pub record IsValid {D : Type 0} (s : RuntimeStore D) : Type 0 where
  pub jobs_valid : All IsValidJob s.jobs
  pub unique : Unique s.jobs
  pub recorded : (k : String) → Ended k s.jobs → is_some (lookup k s.results) ≡ true

module _ {D : Type 0} where
  -- A new store is valid.
  pub new-IsValid : (lease : ℕ) → IsValid (new {D = D} lease)
  unfolding new
  new-IsValid lease = record { jobs_valid = tt; unique = tt; recorded = λ k h. elim h [ ] }

  queued_job-IsValidJob :
      (id name : String) (payload : D) (now : ℕ) → IsValidJob (queued_job id name payload now)
  queued_job-IsValidJob id name payload now = ground arith

  enqueue-recorded :
      (id name : String) (payload : D) (now : ℕ) (s : RuntimeStore D) (k : String)
      → ((j : String) → Ended j s.jobs → is_some (lookup j s.results) ≡ true)
      → Ended k (s.jobs ++ (queued_job id name payload now ∷ []))
      → is_some (lookup k s.results) ≡ true
  enqueue-recorded id name payload now s k old h =
      ground (arith, find_job-append k s.jobs (queued_job id name payload now), old k)

  pub enqueue-IsValid :
      (id name : String) (payload : D) (now : ℕ) (s : RuntimeStore D)
      → IsValid s
      → IsValid (enqueue id name payload now s).1
  unfolding enqueue
  enqueue-IsValid id name payload now s v = elim (Option-cases (find_job id s.jobs)) [
    | inl free ↦ rw free (record {
      jobs_valid =
          All-append IsValidJob s.jobs _ v.jobs_valid
            (queued_job-IsValidJob id name payload now, tt);
      unique = Unique-append s.jobs (queued_job id name payload now) v.unique free;
      recorded = λ k h. enqueue-recorded id name payload now s k v.recorded h;
    })
    | inr (r, taken) ↦ rw taken v
  ]

  -- An UPDATE of one row keeps a store valid if it keeps the row valid, if what it ends has a result
  -- by then, and if no result is lost.
  pub update-IsValid :
      (k : String) (p : Job D → Bool) (f : Job D → Job D) (results : Dict D) (s : RuntimeStore D)
      → KeepsId f
      → ((r : Job D) → IsValidJob r → p r ≡ true → IsValidJob (f r))
      → ((r : Job D)
          → p r ≡ true
          → is_terminal (f r).status ≡ true
          → is_some (lookup k results) ≡ true)
      → ((j : String) → is_some (lookup j s.results) ≡ true → is_some (lookup j results) ≡ true)
      → IsValid s
      → IsValid (record s { jobs = update_job k p f s.jobs; results = results })
  update-IsValid k p f results s ids rows ends kept v = record {
    jobs_valid = All-update_job IsValidJob k p f s.jobs rows v.jobs_valid;
    unique = Unique-update_job k p f s.jobs ids v.unique;
    recorded = λ j h. by_row j h (Option-cases (find_job j s.jobs));
  }
    where
      by_row :
          (j : String)
          → Ended j (update_job k p f s.jobs)
          → (find_job j s.jobs ≡ none) ⊎ ((r : Job D) × (find_job j s.jobs ≡ some r))
          → is_some (lookup j results) ≡ true
      by_row j h (inl absent) = absurd (ground (arith, find_job-update_job j k p f s.jobs ids))
      by_row j h (inr (r, found)) = ground (
        arith,
        find_job-update_job j k p f s.jobs ids,
        find_job-job_id j r s.jobs found,
        eq_iff r.job_id k,
        ends r,
        kept j,
        v.recorded j,
      )

  claimed-IsValidJob :
      (worker : Option String) (token : String) (now until : ℕ) (r : Job D)
      → IsValidJob r
      → IsValidJob (claimed worker token now until r)
  claimed-IsValidJob worker token now until r v = ground arith

  renewed-IsValidJob :
      (now until : ℕ) (r : Job D)
      → IsValidJob r
      → is_running r.status ≡ true
      → IsValidJob (renewed now until r)
  renewed-IsValidJob now until r v h = ground arith

  pub released-IsValidJob :
      (status : Status) (now : ℕ) (error : Option String) (r : Job D)
      → is_running status ≡ false
      → status ≢ interrupted
      → IsValidJob (released status now error r)
  released-IsValidJob status now error r h n = ground arith

  pub claim_found-IsValid :
      (row : Option (Job D)) (worker : Option String) (token : String) (now : ℕ)
      (s : RuntimeStore D)
      → IsValid s
      → IsValid (claim_found row worker token now s).1
  unfolding claim_found
  claim_found-IsValid none worker token now s v = v
  claim_found-IsValid (some row) worker token now s v =
      elim (Bool-cases (nat_beq (row_count row.job_id (λ r. is_queued r.status) s.jobs) 1)) [
        | inl one ↦ rw one (
            update-IsValid row.job_id (λ r. is_queued r.status)
              (claimed worker token now (lease_end s now)) s.results s (λ r. refl)
              (λ r h _. claimed-IsValidJob worker token now (lease_end s now) r h)
              (λ r p e. absurd (ground arith)) (λ j h. h) v)
        | inr other ↦ rw other v
      ]

  pub heartbeat-IsValid :
      (id worker token : Option String) (now : ℕ) (s : RuntimeStore D)
      → IsValid s
      → IsValid (heartbeat id worker token now s).1
  unfolding heartbeat
  heartbeat-IsValid none worker token now s v = record {
    jobs_valid = v.jobs_valid;
    unique = v.unique;
    recorded = v.recorded;
  }
  heartbeat-IsValid (some id) worker token now s v =
      update-IsValid id (renewable worker token now) (renewed now (lease_end s now)) s.results s
        (λ r. refl) (λ r h p. renewed-IsValidJob now (lease_end s now) r h (ground arith))
        (λ r p e. absurd (ground arith)) (λ j h. h) v
