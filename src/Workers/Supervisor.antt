-- ===== src/Workers/Supervisor.antt =====
-- src/aurelix_runtime/worker_supervisor.py. Times are microseconds of the monotonic clock; the time of
-- a call is an argument.
pub mod Circuit
use Prim.Native.String
use aurelix.Base.{
  ℕ, zero, suc, ◌+◌, String, Bool, true, false, not, ◌&&◌, ◌||◌, Option, none, some, Dict, lookup,
  insert, is_some, ltb, leb, if◌then◌else◌, Result, ok, err,
}

pub data WorkerState : Type 0 where
  starting running degraded stopping stopped open_ : WorkerState

abbrev pub is_running : WorkerState → Bool
is_running running = true
is_running _ = false

abbrev pub is_degraded : WorkerState → Bool
is_degraded degraded = true
is_degraded _ = false

abbrev pub is_open : WorkerState → Bool
is_open open_ = true
is_open _ = false

pub record WorkerPolicy : Type 0 where
  pub heartbeat_timeout : ℕ
  pub max_failures : ℕ
  pub cooldown : ℕ
  pub max_retries : ℕ

pub record WorkerRecord : Type 0 where
  pub worker_id : String
  pub policy : WorkerPolicy
  pub state : WorkerState
  pub failures : ℕ
  pub retries : ℕ
  pub last_heartbeat : ℕ
  pub last_error : Option String
  pub opened_at : Option ℕ

pub data SupervisorError : Type 0 where
  already_registered unknown_worker circuit_is_open heartbeat_rejected retries_exhausted :
      SupervisorError

abbrev pub Supervisor : Type 0
Supervisor = Dict WorkerRecord

-- `s[:n]`
abbrev first_chars : ℕ → String → String
first_chars zero s = String.[]
first_chars (suc n) String.[] = String.[]
first_chars (suc n) (String.◌∷◌ c s) = String.◌∷◌ c (first_chars n s)

abbrev pub new_record : String → WorkerPolicy → ℕ → WorkerRecord
new_record id policy now = record {
  worker_id = id;
  policy = policy;
  state = stopped;
  failures = 0;
  retries = 0;
  last_heartbeat = now;
  last_error = none;
  opened_at = none;
}

unfoldable pub register :
    String → WorkerPolicy → ℕ → Supervisor → Result SupervisorError WorkerRecord × Supervisor
register id policy now workers =
    if is_some (lookup id workers)
    then (err already_registered, workers)
    else (ok (new_record id policy now), insert id (new_record id policy now) workers)

-- What the methods do with the record that `_get` finds; the supervisor's dict holds that same object.
abbrev pub RecordStep : Type 0 → Type 0
RecordStep A = WorkerRecord → Result SupervisorError A × WorkerRecord

unfoldable pub with_worker :
    {A : Type 0} → String → RecordStep A → Supervisor → Result SupervisorError A × Supervisor
with_worker id step workers = elim (lookup id workers) [
  | none ↦ (err unknown_worker, workers)
  | some r ↦ let (result, r') = step r in (result, insert id r' workers)
]

-- The record as the method leaves it, which is also what it returns.
abbrev done : WorkerRecord → Result SupervisorError WorkerRecord × WorkerRecord
done r = (ok r, r)

unfoldable pub start : ℕ → RecordStep WorkerRecord
start now r =
    if is_open r.state
    then (err circuit_is_open, r)
    else done (record r { state = running; last_heartbeat = now })

unfoldable pub heartbeat : ℕ → RecordStep (Unit {0})
heartbeat now r =
    if not (is_running r.state || is_degraded r.state)
    then (err heartbeat_rejected, r)
    else (ok tt, record r { last_heartbeat = now; state = running })

unfoldable pub failure : String → ℕ → RecordStep WorkerRecord
failure error now r =
    let failed = record r {
      failures = r.failures + 1;
      last_error = some (first_chars 1000 error);
    } in
    if leb r.policy.max_failures failed.failures
    then done (record failed { state = open_; opened_at = some now })
    else done (record failed { state = degraded })

unfoldable pub success : ℕ → RecordStep WorkerRecord
success now r = done (record r {
  failures = 0;
  retries = 0;
  last_error = none;
  state = running;
  last_heartbeat = now;
})

unfoldable pub can_retry : WorkerRecord → Bool
can_retry r = ltb r.retries r.policy.max_retries && not (is_open r.state)

unfoldable pub record_retry : RecordStep (Unit {0})
unfolding can_retry
record_retry r =
    if not (can_retry r)
    then (err retries_exhausted, r)
    else (ok tt, record r { retries = r.retries + 1 })

-- The first test of `health_check`.
abbrev pub miss_heartbeat : ℕ → WorkerRecord → WorkerRecord
miss_heartbeat now r =
    if is_running r.state && ltb (r.last_heartbeat + r.policy.heartbeat_timeout) now
    then record r { state = degraded }
    else r

-- The time since the circuit opened reaches the cooldown.
abbrev pub cooled : Option ℕ → ℕ → ℕ → Bool
cooled none cooldown now = false
cooled (some opened) cooldown now = leb (opened + cooldown) now

unfoldable pub health_check : ℕ → RecordStep WorkerState
health_check now r =
    let seen = miss_heartbeat now r in
    let r' =
      if is_open seen.state && cooled seen.opened_at seen.policy.cooldown now
      then record seen { state = degraded; failures = 0; opened_at = none }
      else seen in
    (ok r'.state, r')

unfoldable pub stop : RecordStep WorkerRecord
stop r = done (record r { state = stopped })
