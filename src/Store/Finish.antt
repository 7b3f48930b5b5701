-- ===== src/Store/Finish.antt =====
-- Ending an execution: `complete`, `finish`, `record_result` and `fail` of
-- src/aurelix_runtime/persistence.py.
-- Each method is one step. `complete` is one transaction, for every process that uses the file. The
-- failure branch of `finish` and `record_result` read the row outside a transaction, so they are one step
-- only for the callers that share one store object and its lock: two processes that interleave inside
-- these methods are not modelled. A result is a document already, and
-- `complete_unwritable` is `complete` of an object that JSON cannot write.
pub mod Fencing
use aurelix.Base.{
  ℕ, String, Bool, true, false, not, ◌&&◌, ◌||◌, Option, none, some, [], ◌∷◌, lookup, or_default,
  if◌then◌else◌, ◌==◌, nat_eq, string_eq, Result, ok, err,
}
use aurelix.Governance.Audit.{text, flag}
use aurelix.Store.Tables.{
  Documents, Status, queued, completed, failed, is_running, is_completed, is_terminal, Job,
  RuntimeStore, StoreError, job_not_found, lease_lost, wrong_state, find_job, update_job, row_count,
  insert_result, record_audit,
}
use aurelix.Store.Lease.{owned, sql_after}

-- `error or "unknown error"`
abbrev pub error_text : Option String → String
error_text none = "unknown error"
error_text (some e) = if e == "" then "unknown error" else e

abbrev pub retry_status : Bool → Status
retry_status retry = if retry then queued else failed

module _ {D : Type 0} where
  -- The assignments that end an execution: the lease is cleared.
  abbrev pub released : Status → ℕ → Option String → Job D → Job D
  released status now error r = record r {
    status = status;
    updated_at = now;
    heartbeat_at = none;
    worker_id = none;
    lease_token = none;
    lease_until = none;
    last_error = error;
  }

  -- `status='running' AND worker_id=? AND lease_token=?`
  abbrev pub held : Option String → Option String → Job D → Bool
  held worker token r = is_running r.status && owned worker token r

module _ {D : Type 0} ⦃docs : Documents D⦄ where
  -- `d or other`: an empty document is false.
  abbrev pub doc_or : Option D → D → D
  doc_or none other = other
  doc_or (some d) other = if docs.is_empty d then other else d

  abbrev pub result_or_success : Option D → D
  result_or_success result = doc_or result docs.success

  unfoldable pub complete_row :
      Option (Job D)
      → String
      → D
      → Option String
      → Option String
      → ℕ
      → RuntimeStore D
      → Result StoreError D × RuntimeStore D
  complete_row none job_id result worker token now s = (err job_not_found, s)
  complete_row (some row) job_id result worker token now s =
      let results = insert_result job_id result s.results in
      if is_completed row.status
      then (ok (doc_or (lookup job_id s.results) result), s)
      else if not (is_running row.status)
      then (err (wrong_state row.status), s)
      else if not (owned worker token row)
      then (err lease_lost, s)
      else if not (row_count job_id (held worker token) s.jobs == 1)
      then (err lease_lost, s)
      else (
        ok (or_default (lookup job_id results) result),
        record s {
          jobs = update_job job_id (held worker token) (released completed now none) s.jobs;
          results = results;
        },
      )

  unfoldable pub complete :
      String
      → Option D
      → Option String
      → Option String
      → ℕ
      → RuntimeStore D
      → Result StoreError D × RuntimeStore D
  unfolding complete_row
  complete job_id result worker token now s =
      complete_row (find_job job_id s.jobs) job_id (result_or_success result) worker token now s

  unfoldable pub unwritable_row :
      Option (Job D) → Option String → Option String → Option (Result StoreError (Unit {0}))
  unwritable_row none worker token = some (err job_not_found)
  unwritable_row (some row) worker token =
      if is_completed row.status
      then some (ok tt)
      else if not (is_running row.status)
      then some (err (wrong_state row.status))
      else if not (owned worker token row)
      then some (err lease_lost)
      else none

  -- `complete` with a result that `json.dumps` refuses, by how it ends: `none` is the TypeError, which
  -- comes after the checks of the row. The transaction is rolled back, so the store stays as it is.
  unfoldable pub complete_unwritable :
      String
      → Option String
      → Option String
      → RuntimeStore D
      → Option (Result StoreError (Unit {0}))
  unfolding unwritable_row
  complete_unwritable job_id worker token s = unwritable_row (find_job job_id s.jobs) worker token

  unfoldable pub finish_row :
      Option (Job D)
      → String
      → Option String
      → Bool
      → Option String
      → Option String
      → ℕ
      → RuntimeStore D
      → Result StoreError (Unit {0}) × RuntimeStore D
  finish_row none job_id error retry worker token now s = (err job_not_found, s)
  finish_row (some row) job_id error retry worker token now s =
      if not (is_running row.status)
      then (err (wrong_state row.status), s)
      else if not (owned worker token row)
      then (err lease_lost, s)
      else (
        ok tt,
        record s {
          jobs =
              update_job job_id (held worker token) (released (retry_status retry) now error)
                s.jobs;
          results =
              if not retry
              then insert_result job_id (docs.failure (error_text error)) s.results
              else s.results;
        },
      )

  unfoldable pub discard :
      Result StoreError D × RuntimeStore D → Result StoreError (Unit {0}) × RuntimeStore D
  discard (ok d, s) = (ok tt, s)
  discard (err e, s) = (err e, s)

  unfoldable pub finish :
      String
      → Bool
      → Option String
      → Bool
      → Option D
      → Option String
      → Option String
      → ℕ
      → RuntimeStore D
      → Result StoreError (Unit {0}) × RuntimeStore D
  unfolding complete finish_row discard
  finish job_id true error retry result worker token now s =
      discard (complete job_id (some (result_or_success result)) worker token now s)
  finish job_id false error retry result worker token now s =
      finish_row (find_job job_id s.jobs) job_id error retry worker token now s

  -- `existing == result`
  abbrev pub stored_is : Option D → D → Bool
  stored_is none result = false
  stored_is (some d) result = docs.same d result

  unfoldable pub record_result_row :
      Option (Job D)
      → String
      → D
      → Option String
      → Option String
      → ℕ
      → RuntimeStore D
      → Result StoreError (Unit {0}) × RuntimeStore D
  record_result_row none job_id result worker token now s = (err job_not_found, s)
  record_result_row (some row) job_id result worker token now s =
      if not (is_running row.status)
      then (if stored_is (lookup job_id s.results) result && is_terminal row.status
          then (ok tt, s)
          else (err (wrong_state row.status), s))
      else if not (owned worker token row) || not (sql_after row.lease_until now)
      then (err lease_lost, s)
      else (ok tt, record s { results = insert_result job_id result s.results })

  unfoldable pub record_result :
      String
      → D
      → Option String
      → Option String
      → ℕ
      → RuntimeStore D
      → Result StoreError (Unit {0}) × RuntimeStore D
  unfolding record_result_row
  record_result job_id result worker token now s =
      record_result_row (find_job job_id s.jobs) job_id result worker token now s

  unfoldable pub after_fail :
      String
      → String
      → String
      → Bool
      → ℕ
      → Result StoreError (Unit {0}) × RuntimeStore D
      → Result StoreError (Unit {0}) × RuntimeStore D
  unfolding record_audit
  after_fail event_id job_id error retry now (err e, s) = (err e, s)
  after_fail event_id job_id error retry now (ok u, s) = (
    ok u,
    record_audit event_id (some job_id) "job_failed"
        (("error", text error) ∷ ("retry", flag retry) ∷ []) now s,
  )

  unfoldable pub fail :
      String
      → String
      → Bool
      → Option String
      → Option String
      → String
      → ℕ
      → RuntimeStore D
      → Result StoreError (Unit {0}) × RuntimeStore D
  unfolding finish after_fail
  fail job_id error retry worker token event_id now s =
      after_fail event_id job_id error retry now
        (finish job_id false (some error) retry none worker token now s)
