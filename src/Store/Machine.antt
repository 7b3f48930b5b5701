-- ===== src/Store/Machine.antt =====
-- The abstract view of one job of src/aurelix_runtime/persistence.py: the phases of its life and the
-- steps between them, with neither times nor payloads.
pub mod Rows
pub mod Refines
use aurelix.Base.{◌+◌, ℕ, suc, ◌≤◌, ◌≡◌, refl, arith, String, Option, none, some, List}
use aurelix.Store.Tables.{Job, Status, queued, running, interrupted, completed, failed, find_job}

-- A phase has the number of attempts made, and a running job also its holder: worker and token.
pub data Phase : Type 0 where
  absent : Phase
  waiting lost : ℕ → Phase
  working : ℕ → Option String → Option String → Phase
  done dead : Phase

-- The specification: a job is submitted, taken by a worker with one more attempt, given back or lost,
-- and ends well or badly. An ended job makes no step.
pub data Step : Phase → Phase → Type 0 where
  submit : Step absent (waiting 0)
  take : {n : ℕ} {w t : Option String} → Step (waiting n) (working (n + 1) w t)
  give_back : {n : ℕ} {w t : Option String} → Step (working n w t) (waiting n)
  lose : {n : ℕ} {w t : Option String} → Step (working n w t) (lost n)
  requeue : {n : ℕ} → Step (lost n) (waiting n)
  bury : {n : ℕ} → Step (lost n) dead
  succeed : {n : ℕ} {w t : Option String} → Step (working n w t) done
  give_up : {n : ℕ} {w t : Option String} → Step (working n w t) dead

pub data Trail : Phase → Phase → Type 0 where
  stop : {a : Phase} → Trail a a
  next : {a b c : Phase} → Step a b → Trail b c → Trail a c

pub Trail-trans : {a b c : Phase} → Trail a b → Trail b c → Trail a c
Trail-trans stop q = q
Trail-trans (next s p) q = next s (Trail-trans p q)

pub one : {a b : Phase} → Step a b → Trail a b
one s = next s stop

abbrev pub phase_of : {D : Type 0} → Status → Job D → Phase
phase_of queued r = waiting r.attempts
phase_of running r = working r.attempts r.worker_id r.lease_token
phase_of interrupted r = lost r.attempts
phase_of completed r = done
phase_of failed r = dead

-- The abstract view of the job of an id in the table.
abbrev pub row_phase : {D : Type 0} → Option (Job D) → Phase
row_phase none = absent
row_phase (some r) = phase_of r.status r

abbrev pub view : {D : Type 0} → String → List (Job D) → Phase
view k rs = row_phase (find_job k rs)
