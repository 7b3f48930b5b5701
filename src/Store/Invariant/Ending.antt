-- ===== src/Store/Invariant/Ending.antt =====
-- `complete`, `finish`, `record_result` and `fail` keep the store valid, and no result is lost.
use aurelix.Base.{
  ℕ, String, Bool, true, false, not, ◌||◌, ◌≡◌, ◌≢◌, refl, arith, Option, none, some, Dict, lookup,
  is_some, if◌then◌else◌, string_eq, str_beq_refl, Result, ok, err, nat_beq,
}
use aurelix.Store.Tables.{
  Documents, Status, queued, running, interrupted, completed, failed, is_running, is_terminal,
  is_completed, Job, RuntimeStore, find_job, update_job, insert_result, row_count, record_audit,
}
use aurelix.Store.Tables.Updates.{lookup-insert_result}
use aurelix.Store.Lease.{owned, sql_after}
use aurelix.Store.Finish.{
  released, held, complete, complete_row, finish, finish_row, record_result, record_result_row,
  fail, discard, after_fail, retry_status, error_text,
}
use aurelix.Store.Invariant.{IsValid, update-IsValid, released-IsValidJob}

pub insert_result-there :
    {D : Type 0} (k : String) (v : D) (d : Dict D) → is_some (lookup k (insert_result k v d)) ≡ true
insert_result-there k v d = ground (arith, lookup-insert_result k k v d, str_beq_refl k)

pub insert_result-kept :
    {D : Type 0} (k j : String) (v : D) (d : Dict D)
    → is_some (lookup j d) ≡ true
    → is_some (lookup j (insert_result k v d)) ≡ true
insert_result-kept k j v d h = ground (arith, lookup-insert_result k j v d)

-- A test between two outcomes.
if-IsValid :
    {D A : Type 0} (b : Bool) (x y : A × RuntimeStore D)
    → IsValid x.1
    → IsValid y.1
    → IsValid (if b then x else y).1
if-IsValid true x y hx hy = hx
if-IsValid false x y hx hy = hy

module _ {D : Type 0} where
  -- Recording another result keeps a store valid.
  pub results-IsValid :
      (k : String) (v : D) (s : RuntimeStore D)
      → IsValid s
      → IsValid (record s { results = insert_result k v s.results })
  results-IsValid k v s h = record {
    jobs_valid = h.jobs_valid;
    unique = h.unique;
    recorded = λ j e. insert_result-kept k j v s.results (h.recorded j e);
  }

  -- Ending a job together with a result for it keeps a store valid.
  pub release_with-IsValid :
      (k : String) (p : Job D → Bool) (status : Status) (now : ℕ) (error : Option String) (v : D)
      (s : RuntimeStore D)
      → is_running status ≡ false
      → status ≢ interrupted
      → IsValid s
      → IsValid (record s {
        jobs = update_job k p (released status now error) s.jobs;
        results = insert_result k v s.results;
      })
  release_with-IsValid k p status now error v s a b h =
      update-IsValid k p (released status now error) (insert_result k v s.results) s (λ r. refl)
        (λ r _ _. released-IsValidJob status now error r a b)
        (λ r _ _. insert_result-there k v s.results) (λ j e. insert_result-kept k j v s.results e) h

  -- So does handing a job back without one.
  pub release-IsValid :
      (k : String) (p : Job D → Bool) (now : ℕ) (error : Option String) (s : RuntimeStore D)
      → IsValid s
      → IsValid (record s { jobs = update_job k p (released queued now error) s.jobs })
  release-IsValid k p now error s h =
      update-IsValid k p (released queued now error) s.results s (λ r. refl)
        (λ r _ _. released-IsValidJob queued now error r refl (λ e. cc))
        (λ r _ e. absurd (ground arith)) (λ j e. e) h

module _ {D : Type 0} ⦃docs : Documents D⦄ where
  pub complete_row-IsValid :
      (row : Option (Job D)) (k : String) (v : D) (worker token : Option String) (now : ℕ)
      (s : RuntimeStore D)
      → IsValid s
      → IsValid (complete_row row k v worker token now s).1
  unfolding complete_row
  complete_row-IsValid none k v worker token now s h = h
  complete_row-IsValid (some row) k v worker token now s h =
      if-IsValid (is_completed row.status) _ _ h (
        if-IsValid (not (is_running row.status)) _ _ h (
          if-IsValid (not (owned worker token row)) _ _ h (
            if-IsValid (not (nat_beq (row_count k (held worker token) s.jobs) 1)) _ _ h (
              release_with-IsValid k (held worker token) completed now none v s refl (λ e. cc) h))))

  pub discard-IsValid :
      (o : Result aurelix.Store.Tables.StoreError D × RuntimeStore D)
      → IsValid o.1
      → IsValid (discard o).1
  unfolding discard
  discard-IsValid (ok d, s) h = h
  discard-IsValid (err e, s) h = h

  pub finish_row-IsValid :
      (row : Option (Job D)) (k : String) (error : Option String) (retry : Bool)
      (worker token : Option String) (now : ℕ) (s : RuntimeStore D)
      → IsValid s
      → IsValid (finish_row row k error retry worker token now s).1
  unfolding finish_row
  finish_row-IsValid none k error retry worker token now s h = h
  finish_row-IsValid (some row) k error retry worker token now s h =
      if-IsValid (not (is_running row.status)) _ _ h
        (if-IsValid (not (owned worker token row)) _ _ h (by_retry retry))
    where
      by_retry :
          (retry : Bool)
          → IsValid (record s {
            jobs =
                update_job k (held worker token) (released (retry_status retry) now error) s.jobs;
            results =
                if not retry
                then insert_result k (docs.failure (error_text error)) s.results
                else s.results;
          })
      by_retry true = release-IsValid k (held worker token) now error s h
      by_retry false =
          release_with-IsValid k (held worker token) failed now error
            (docs.failure (error_text error)) s refl (λ e. cc) h

  pub finish-IsValid :
      (k : String) (success : Bool) (error : Option String) (retry : Bool) (result : Option D)
      (worker token : Option String) (now : ℕ) (s : RuntimeStore D)
      → IsValid s
      → IsValid (finish k success error retry result worker token now s).1
  unfolding finish complete
  finish-IsValid k true error retry result worker token now s h =
      discard-IsValid _ (complete_row-IsValid (find_job k s.jobs) k _ worker token now s h)
  finish-IsValid k false error retry result worker token now s h =
      finish_row-IsValid (find_job k s.jobs) k error retry worker token now s h

  record_result_row-IsValid :
      (row : Option (Job D)) (k : String) (v : D) (worker token : Option String) (now : ℕ)
      (s : RuntimeStore D)
      → IsValid s
      → IsValid (record_result_row row k v worker token now s).1
  unfolding record_result_row
  record_result_row-IsValid none k v worker token now s h = h
  record_result_row-IsValid (some row) k v worker token now s h =
      if-IsValid (not (is_running row.status)) _ _ (if-IsValid _ _ _ h h) (
        if-IsValid (not (owned worker token row) || not (sql_after row.lease_until now)) _ _ h
          (results-IsValid k v s h))

  pub record_result-IsValid :
      (k : String) (v : D) (worker token : Option String) (now : ℕ) (s : RuntimeStore D)
      → IsValid s
      → IsValid (record_result k v worker token now s).1
  unfolding record_result
  record_result-IsValid k v worker token now s h =
      record_result_row-IsValid (find_job k s.jobs) k v worker token now s h

  pub after_fail-IsValid :
      (event k error : String) (retry : Bool) (now : ℕ)
      (o : Result aurelix.Store.Tables.StoreError (Unit {0}) × RuntimeStore D)
      → IsValid o.1
      → IsValid (after_fail event k error retry now o).1
  unfolding after_fail record_audit
  after_fail-IsValid event k error retry now (ok u, s) h = record {
    jobs_valid = h.jobs_valid;
    unique = h.unique;
    recorded = h.recorded;
  }
  after_fail-IsValid event k error retry now (err e, s) h = h

  pub fail-IsValid :
      (k error : String) (retry : Bool) (worker token : Option String) (event : String) (now : ℕ)
      (s : RuntimeStore D)
      → IsValid s
      → IsValid (fail k error retry worker token event now s).1
  unfolding fail
  fail-IsValid k error retry worker token event now s h =
      after_fail-IsValid event k error retry now
        (finish k false (some error) retry none worker token now s)
        (finish-IsValid k false (some error) retry none worker token now s h)
