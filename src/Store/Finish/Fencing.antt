-- ===== src/Store/Finish/Fencing.antt =====
-- Who may end an execution, and what ends it.
use aurelix.Base.{
  or_default, ℕ, String, Bool, true, false, ◌≡◌, ◌≢◌, refl, arith, Option, none, some, List, [],
  ◌∷◌, lookup, if◌then◌else◌, ◌==◌, string_eq, eq_iff, ok, err, str_beq_refl,
}
use aurelix.Store.Tables.{
  Documents, queued, running, completed, failed, Job, RuntimeStore, lease_lost, find_job,
  update_job, row_count, lease_end,
}
use aurelix.Store.Tables.Updates.{
  Unique, find_job-update_job, find_job-job_id, row_count_lem, lookup-insert_result,
}
use aurelix.Store.Lease.{owned, heartbeat, renewable, renewed}
use aurelix.Store.Finish.{
  released, held, complete, complete_row, finish, finish_row, record_result, record_result_row,
  result_or_success, discard, retry_status, error_text,
}

module _ {D : Type 0} where
  update_job-none :
      (k : String) (p : Job D → Bool) (f : Job D → Job D) (rs : List (Job D))
      → row_count k p rs ≡ 0
      → update_job k p f rs ≡ rs
  update_job-none k p f [] h = refl
  update_job-none k p f (x ∷ xs) h = ground (arith, update_job-none k p f xs)

  pub owned-token :
      (worker : Option String) (old new : String) (r : Job D)
      → r.lease_token ≡ some new
      → old ≢ new
      → owned worker (some old) r ≡ false
  owned-token worker old new r e ne = ground (arith, eq_iff new old)

module _ {D : Type 0} ⦃docs : Documents D⦄ where
  pub finish_fenced :
      (k : String) (r : Job D) (worker token : Option String) (now : ℕ) (s : RuntimeStore D)
      → find_job k s.jobs ≡ some r
      → r.status ≡ running
      → owned worker token r ≡ false
      → (success : Bool) (error : Option String) (retry : Bool) (result : Option D)
      → finish k success error retry result worker token now s ≡ (err lease_lost, s)
  unfolding finish complete complete_row finish_row discard
  finish_fenced k r worker token now s found busy lost true error retry result =
      rw found (rw (busy, lost) refl)
  finish_fenced k r worker token now s found busy lost false error retry result =
      rw found (rw (busy, lost) refl)

  -- Where ids are unique, a job that runs under one token is closed to every other: a worker that
  -- still holds an old token can neither complete the job, nor fail it, nor hand it back, nor
  -- record a result, nor renew the lease, and its tries change nothing in the store.
  pub token_fences :
      (k : String) (r : Job D) (worker : Option String) (old new : String) (now : ℕ)
      (s : RuntimeStore D)
      → Unique s.jobs
      → find_job k s.jobs ≡ some r
      → r.status ≡ running
      → r.lease_token ≡ some new
      → old ≢ new
      → ((result : Option D) → complete k result worker (some old) now s ≡ (err lease_lost, s))
        × ((success : Bool) (error : Option String) (retry : Bool) (result : Option D)
            → finish k success error retry result worker (some old) now s ≡ (err lease_lost, s))
        × ((result : D) → record_result k result worker (some old) now s ≡ (err lease_lost, s))
        × (heartbeat (some k) worker (some old) now s ≡ (false, s))
  unfolding complete finish record_result heartbeat complete_row finish_row record_result_row
      discard
  token_fences k r worker old new now s u found busy token ne =
      let lost = owned-token worker old new r token ne in
      let untouched = row_count_lem k (renewable worker (some old) now) r s.jobs u found in
      let count : row_count k (renewable worker (some old) now) s.jobs ≡ 0 = ground arith in
      let same =
        update_job-none k (renewable worker (some old) now) (renewed now (lease_end s now)) s.jobs
          count in
      (
        (λ result. rw found (rw (busy, lost) refl)),
        (λ success error retry result.
            finish_fenced k r worker (some old) now s found busy lost success error retry result),
        (λ result. rw found (rw (busy, lost) refl)),
        rw (count, same) refl,
      )

  -- Where ids are unique, the worker that holds the lease completes its job: the call returns the
  -- result that was recorded first, or the given one if there is none, which is then the job's
  -- result; the job has ended and its lease is gone.
  pub complete-completes :
      (k : String) (r : Job D) (result : Option D) (worker token : Option String) (now : ℕ)
      (s : RuntimeStore D)
      → Unique s.jobs
      → find_job k s.jobs ≡ some r
      → r.status ≡ running
      → owned worker token r ≡ true
      → let o = complete k result worker token now s in
        let d = or_default (lookup k s.results) (result_or_success result) in
        (o.0 ≡ ok d)
        × (lookup k o.1.results ≡ some d)
        × (find_job k o.1.jobs ≡ some (released completed now none r))
  unfolding complete complete_row
  complete-completes k r result worker token now s u found busy mine =
      let count = row_count_lem k (held worker token) r s.jobs u found in
      let one : row_count k (held worker token) s.jobs ≡ 1 = ground arith in
      let v = result_or_success result in
      let stored = lookup-insert_result k k v s.results in
      let same = str_beq_refl k in
      let moved =
        find_job-update_job k k (held worker token) (released completed now none) s.jobs
          (λ x. refl) in
      let named = find_job-job_id k r s.jobs found in
      let refl_ : (r.job_id == k) ≡ true = (eq_iff r.job_id k).1 named in
      rw found (rw (busy, mine, one) (ground arith, ground arith, ground arith))

  -- A job that is completed stays so under a repeated `complete`, by whatever worker and with whatever
  -- result: the call returns the stored result, if that is not the empty document, and changes
  -- nothing.
  complete_again :
      (k : String) (r : Job D) (d : D) (result : Option D) (worker token : Option String) (now : ℕ)
      (s : RuntimeStore D)
      → find_job k s.jobs ≡ some r
      → r.status ≡ completed
      → lookup k s.results ≡ some d
      → docs.is_empty d ≡ false
      → complete k result worker token now s ≡ (ok d, s)
  unfolding complete complete_row
  complete_again k r d result worker token now s found done stored full =
      rw found (rw (done, stored, full) refl)

  -- The worker that holds the lease gives its job up: with `retry` the job waits again, free for any
  -- worker, and no result is recorded. Without, it has failed, and its result is the failure if none was
  -- recorded before; a result that `record_result` has recorded, be it one of a success, stays the result
  -- of the failed job, and no failure is stored.
  pub finish-gives_up :
      (k : String) (r : Job D) (error : Option String) (retry : Bool) (worker token : Option String)
      (now : ℕ) (s : RuntimeStore D)
      → find_job k s.jobs ≡ some r
      → r.status ≡ running
      → owned worker token r ≡ true
      → let o = finish k false error retry none worker token now s in
        (o.0 ≡ ok tt)
        × (find_job k o.1.jobs ≡ some (released (if retry then queued else failed) now error r))
        × (lookup k o.1.results ≡ (
            if retry
            then lookup k s.results
            else some (or_default (lookup k s.results) (docs.failure (error_text error)))))
  unfolding finish finish_row
  finish-gives_up k r error retry worker token now s found busy mine =
      let stored = lookup-insert_result k k (docs.failure (error_text error)) s.results in
      let same = str_beq_refl k in
      let moved =
        find_job-update_job k k (held worker token) (released (retry_status retry) now error) s.jobs
          (λ x. refl) in
      let hit : (r.job_id == k) ≡ true = (eq_iff r.job_id k).1 (find_job-job_id k r s.jobs found) in
      rw found (rw (busy, mine) (refl, ground arith, ground arith))
