-- ===== src/Store/Recovery.antt =====
-- Recovering executions whose worker is gone: `recover_running_jobs` of
-- src/aurelix_runtime/persistence.py. The two readings of the clock are arguments; the times that the
-- rows hold are always well formed, so `fromisoformat` does not raise.
pub mod Due
use aurelix.Base.{
  ℕ, ◌+◌, String, Bool, true, false, not, ◌&&◌, Option, none, some, List, [], ◌∷◌, lookup, is_some,
  is_none, keep, leb, if◌then◌else◌,
}
use aurelix.Base.Int.{ℤ, pos, ◌-ℤ◌, ltb_ℤ}
use aurelix.Store.Tables.{
  Documents, Status, queued, interrupted, completed, failed, is_running, is_interrupted, Job,
  RuntimeStore, update_job, insert_result,
}
use aurelix.Store.Finish.{released}

-- `not row["lease_until"]`, or a lease that ends by now
abbrev pub lease_expired : Option ℕ → ℕ → Bool
lease_expired none now = true
lease_expired (some t) now = leb t now

-- `stale_after_seconds == 0`
abbrev pub forced : Option ℤ → Bool
forced none = false
forced (some x) = not (ltb_ℤ x (pos 0)) && not (ltb_ℤ (pos 0) x)

abbrev is_positive : Option ℤ → Bool
is_positive none = false
is_positive (some x) = ltb_ℤ (pos 0) x

-- `now - max(0.0, stale_after_seconds or 0.0)`
abbrev cutoff : Option ℤ → ℕ → ℤ
cutoff none now = pos now
cutoff (some x) now = pos now -ℤ (if ltb_ℤ (pos 0) x then x else pos 0)

abbrev beats_after : Option ℕ → ℤ → Bool
beats_after none limit = false
beats_after (some t) limit = ltb_ℤ limit (pos t)

module _ {D : Type 0} where
  -- The three `continue` statements at the head of the loop, in order.
  unfoldable pub skipped : Option ℤ → ℕ → Job D → Bool
  skipped stale now_dt r =
      let expired = lease_expired r.lease_until now_dt in
      if is_none stale && not expired
      then true
      else if is_positive stale && (beats_after r.heartbeat_at (cutoff stale now_dt) && not expired)
      then true
      else not (forced stale) && not expired

  abbrev pub mark_interrupted : ℕ → String → Job D → Job D
  mark_interrupted now error r = record r {
    status = interrupted;
    updated_at = now;
    last_error = some error;
  }

  -- The UPDATEs of one row, through the state `interrupted` where the table admits it.
  unfoldable pub interrupt : Bool → String → Status → ℕ → String → List (Job D) → List (Job D)
  interrupt true job_id final now error jobs =
      update_job job_id (λ r. is_interrupted r.status) (released final now (some error))
        (update_job job_id (λ r. is_running r.status) (mark_interrupted now error) jobs)
  interrupt false job_id final now error jobs =
      update_job job_id (λ r. is_running r.status) (released final now (some error)) jobs

module _ {D : Type 0} ⦃docs : Documents D⦄ where
  -- A row whose execution left no result: it fails for good after its last attempt (`true`), and is
  -- queued again otherwise.
  unfoldable pub interrupted_row : Bool → ℕ → Job D → RuntimeStore D → RuntimeStore D
  unfolding interrupt
  interrupted_row true now row s =
      let error : String = "interrupted after maximum attempts" in
      record s {
        jobs = interrupt s.supports_interrupted row.job_id failed now error s.jobs;
        results = insert_result row.job_id (docs.failure error) s.results;
      }
  interrupted_row false now row s =
      let error : String = "interrupted; queued for recovery" in
      record s { jobs = interrupt s.supports_interrupted row.job_id queued now error s.jobs }

  -- The body of the loop, past its `continue` statements.
  unfoldable pub recover_row : ℕ → ℕ → Job D → RuntimeStore D → RuntimeStore D
  unfolding interrupted_row
  recover_row max_attempts now row s =
      if is_some (lookup row.job_id s.results)
      then record s {
        jobs =
            update_job row.job_id (λ r. is_running r.status) (released completed now none) s.jobs;
      }
      else interrupted_row (leb max_attempts row.attempts) now row s

  unfoldable pub recover_loop :
      ℕ → Option ℤ → ℕ → ℕ → List (Job D) → RuntimeStore D × ℕ → RuntimeStore D × ℕ
  unfolding recover_row skipped
  recover_loop max_attempts stale now_dt now [] (s, recovered) = (s, recovered)
  recover_loop max_attempts stale now_dt now (row ∷ rows) (s, recovered) =
      recover_loop max_attempts stale now_dt now rows (
        if skipped stale now_dt row
        then (s, recovered)
        else (recover_row max_attempts now row s, recovered + 1))

  unfoldable pub recover_running_jobs : ℕ → Option ℤ → ℕ → ℕ → RuntimeStore D → RuntimeStore D × ℕ
  unfolding recover_loop
  recover_running_jobs max_attempts stale now_dt now s =
      recover_loop max_attempts stale now_dt now (keep (λ r. is_running r.status) s.jobs) (s, 0)
