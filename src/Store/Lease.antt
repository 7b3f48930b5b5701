-- ===== src/Store/Lease.antt =====
-- Claiming a job and keeping its lease: `claim_next`, `claim`, `_claim_row` and `heartbeat` of
-- src/aurelix_runtime/persistence.py.
pub mod Claims
use Prim.Native.String.{compare}
use Prim.Native.Nat.{Ordering}
use aurelix.Base.{
  ℕ, ◌+◌, String, Bool, true, false, not, ◌&&◌, ◌||◌, Option, none, some, List, [], ◌∷◌, keep, ltb,
  leb, if◌then◌else◌, ◌==◌, nat_eq, string_eq, Result, ok, err,
}
use aurelix.Store.Tables.{
  running, is_queued, is_running, Job, JobRecord, RuntimeStore, StoreError, claimed_concurrently,
  lease_end, find_job, update_job, row_count, heartbeat_runtime,
}

-- SQL's `column = ?`: NULL equals nothing.
abbrev pub sql_eq : Option String → Option String → Bool
sql_eq none b = false
sql_eq (some a) none = false
sql_eq (some a) (some b) = a == b

-- SQL's `column > ?`
abbrev pub sql_after : Option ℕ → ℕ → Bool
sql_after none now = false
sql_after (some t) now = ltb now t

-- `COALESCE(started_at, ?)`
abbrev coalesce : Option ℕ → ℕ → Option ℕ
coalesce none now = some now
coalesce (some t) now = some t

unfoldable pub text_before : String → String → Bool
text_before a b = elim (compare a b) [ Ordering.lt ↦ true | _ ↦ false ]

module _ {D : Type 0} where
  -- `ORDER BY created_at, job_id`
  abbrev pub precedes : Job D → Job D → Bool
  precedes a b =
      ltb a.created_at b.created_at
      || (a.created_at == b.created_at && text_before a.job_id b.job_id)

  abbrev pub earlier : Job D → Option (Job D) → Job D
  earlier r none = r
  earlier r (some b) = if precedes b r then b else r

  -- `ORDER BY created_at, job_id LIMIT 1`
  unfoldable pub first_job : List (Job D) → Option (Job D)
  first_job [] = none
  first_job (r ∷ rs) = some (earlier r (first_job rs))

  -- `status='queued' AND attempts < ?`
  abbrev pub claimable : ℕ → Job D → Bool
  claimable max_attempts r = is_queued r.status && ltb r.attempts max_attempts

  -- The assignments of the UPDATE in `_claim_row`.
  abbrev pub claimed : Option String → String → ℕ → ℕ → Job D → Job D
  claimed worker token now until r = record r {
    status = running;
    attempts = r.attempts + 1;
    updated_at = now;
    started_at = coalesce r.started_at now;
    heartbeat_at = some now;
    worker_id = worker;
    lease_token = some token;
    lease_until = some until;
  }

  -- `_claim_row`; the caller's transaction still holds, and what it raises rolls it back.
  unfoldable pub claim_row :
      Job D
      → Option String
      → String
      → ℕ
      → RuntimeStore D
      → Result StoreError (Option (JobRecord D)) × RuntimeStore D
  claim_row row worker token now s =
      let until = lease_end s now in
      if not (row_count row.job_id (λ r. is_queued r.status) s.jobs == 1)
      then (err claimed_concurrently, s)
      else (
        ok (
            some (record {
              job_id = row.job_id;
              name = row.name;
              payload = row.payload;
              status = running;
              attempts = row.attempts + 1;
              created_at = row.created_at;
              updated_at = some now;
              worker_id = worker;
              lease_token = some token;
              lease_until = some until;
            })),
        record s {
          jobs =
              update_job row.job_id (λ r. is_queued r.status) (claimed worker token now until)
                s.jobs;
        },
      )

  unfoldable pub claim_found :
      Option (Job D)
      → Option String
      → String
      → ℕ
      → RuntimeStore D
      → Result StoreError (Option (JobRecord D)) × RuntimeStore D
  unfolding claim_row
  claim_found none worker token now s = (ok none, s)
  claim_found (some row) worker token now s = claim_row row worker token now s

  unfoldable pub claim_next :
      ℕ
      → Option String
      → String
      → ℕ
      → RuntimeStore D
      → Result StoreError (Option (JobRecord D)) × RuntimeStore D
  unfolding claim_found
  claim_next max_attempts worker token now s =
      claim_found (first_job (keep (claimable max_attempts) s.jobs)) worker token now s

  -- The row, unless it cannot be claimed.
  abbrev pub if_claimable : ℕ → Option (Job D) → Option (Job D)
  if_claimable max_attempts none = none
  if_claimable max_attempts (some r) =
      if not (is_queued r.status) || leb max_attempts r.attempts then none else some r

  unfoldable pub claim :
      String
      → ℕ
      → Option String
      → String
      → ℕ
      → RuntimeStore D
      → Result StoreError (Option (JobRecord D)) × RuntimeStore D
  unfolding claim_found
  claim job_id max_attempts worker token now s =
      claim_found (if_claimable max_attempts (find_job job_id s.jobs)) worker token now s

  -- The row is held by this worker under this token.
  abbrev pub owned : Option String → Option String → Job D → Bool
  owned worker token r = sql_eq r.worker_id worker && sql_eq r.lease_token token

  abbrev pub renewable : Option String → Option String → ℕ → Job D → Bool
  renewable worker token now r =
      is_running r.status && (owned worker token r && sql_after r.lease_until now)

  abbrev pub renewed : ℕ → ℕ → Job D → Job D
  renewed now until r = record r {
    heartbeat_at = some now;
    updated_at = now;
    lease_until = some until;
  }

  -- `heartbeat` of a job; without a job id it is `heartbeat_runtime`.
  unfoldable pub heartbeat :
      Option String → Option String → Option String → ℕ → RuntimeStore D → Bool × RuntimeStore D
  unfolding heartbeat_runtime
  heartbeat none worker token now s = (true, heartbeat_runtime now s)
  heartbeat (some job_id) worker token now s = (
    row_count job_id (renewable worker token now) s.jobs == 1,
    record s {
      jobs = update_job job_id (renewable worker token now) (renewed now (lease_end s now)) s.jobs;
    },
  )
