-- ===== src/Store/Reports.antt =====
-- The counts of `status` in src/aurelix_runtime/persistence.py.
use aurelix.Base.{ℕ, ◌+◌, Bool, true, false, ◌≡◌, Option, List, [], ◌∷◌, keep, length, arith}
use aurelix.Store.Tables.{
  Status, is_queued, is_running, is_interrupted, is_completed, Job, RuntimeStore,
}

abbrev is_failed : Status → Bool
is_failed Status.failed = true
is_failed _ = false

-- `heartbeat` is `none` where the source says "never".
pub record StoreStatus : Type 0 where
  pub heartbeat : Option ℕ
  pub queued : ℕ
  pub running : ℕ
  pub interrupted : ℕ
  pub succeeded : ℕ
  pub failed : ℕ

module _ {D : Type 0} where
  -- `SELECT status, COUNT(*) … GROUP BY status`, at one status
  count_where : (Status → Bool) → List (Job D) → ℕ
  count_where p rs = length (keep (λ r. p r.status) rs)

  unfoldable pub status : RuntimeStore D → StoreStatus
  unfolding count_where
  status s = record {
    heartbeat = s.runtime_heartbeat;
    queued = count_where is_queued s.jobs;
    running = count_where is_running s.jobs;
    interrupted = count_where is_interrupted s.jobs;
    succeeded = count_where is_completed s.jobs;
    failed = count_where is_failed s.jobs;
  }

  counts_add :
      (rs : List (Job D))
      → count_where is_queued rs
          + count_where is_running rs
          + count_where is_interrupted rs
          + count_where is_completed rs
          + count_where is_failed rs
        ≡ length rs
  unfolding count_where
  counts_add [] = omega arith
  counts_add (r ∷ rs) = ground (arith, counts_add rs)

  -- The five counts of the status report add up to the number of jobs: no job is missed or counted
  -- twice.
  pub status_partitions :
      (s : RuntimeStore D)
      → let c = status s in
        c.queued + c.running + c.interrupted + c.succeeded + c.failed ≡ length s.jobs
  unfolding status
  status_partitions s = counts_add s.jobs
