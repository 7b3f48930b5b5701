-- ===== src/Workers/Supervisor/Circuit.antt =====
-- The circuit and the retry budget of a worker under any sequence of calls.
use aurelix.Base.{
  Bool-cases, ℕ, ◌≤◌, ◌<◌, String, true, ◌≡◌, ◌≢◌, ◌↔◌, ◌⊎◌, inl, inr, refl, arith, List, [], ◌∷◌,
  is_some, ok,
}
use aurelix.Workers.Supervisor.{
  running, open_, WorkerRecord, WorkerPolicy, new_record, start, heartbeat, failure, success,
  record_retry, health_check, stop, cooled,
}

-- A call on the record of a registered worker.
pub data WorkerCall : Type 0 where
  start_call heartbeat_call success_call health_check_call : (now : ℕ) → WorkerCall
  failure_call : (error : String) (now : ℕ) → WorkerCall
  record_retry_call stop_call : WorkerCall

unfoldable pub call : WorkerCall → WorkerRecord → WorkerRecord
call (start_call now) r = (start now r).1
call (heartbeat_call now) r = (heartbeat now r).1
call (success_call now) r = (success now r).1
call (health_check_call now) r = (health_check now r).1
call (failure_call error now) r = (failure error now r).1
call record_retry_call r = (record_retry r).1
call stop_call r = (stop r).1

unfoldable pub calls : List WorkerCall → WorkerRecord → WorkerRecord
unfolding call
calls [] r = r
calls (c ∷ cs) r = calls cs (call c r)

-- An open circuit has the time when it opened and the failures that opened it, and the retries stay in
-- the budget.
pub record IsValid (r : WorkerRecord) : Type 0 where
  pub opened : r.state ≡ open_ → (is_some r.opened_at ≡ true) × (r.policy.max_failures ≤ r.failures)
  pub within_budget : r.retries ≤ r.policy.max_retries

call-IsValid : (c : WorkerCall) (r : WorkerRecord) → IsValid r → IsValid (call c r)
unfolding call start heartbeat failure success record_retry health_check stop
call-IsValid (start_call now) r v = ground arith
call-IsValid (heartbeat_call now) r v = ground arith
call-IsValid (success_call now) r v = ground arith
call-IsValid (health_check_call now) r v = ground arith
call-IsValid (failure_call error now) r v = ground arith
call-IsValid record_retry_call r v = ground arith
call-IsValid stop_call r v = ground arith

calls-IsValid : (cs : List WorkerCall) (r : WorkerRecord) → IsValid r → IsValid (calls cs r)
unfolding calls
calls-IsValid [] r v = v
calls-IsValid (c ∷ cs) r v = calls-IsValid cs (call c r) (call-IsValid c r v)

-- Whatever is called on a newly registered worker, in any order, its retries never pass the budget of
-- its policy, and while its circuit is open the failures have reached the policy's limit and the time
-- of opening is known.
pub registered-IsValid :
    (id : String) (policy : WorkerPolicy) (now : ℕ) (cs : List WorkerCall)
    → IsValid (calls cs (new_record id policy now))
registered-IsValid id policy now cs = calls-IsValid cs (new_record id policy now) (ground arith)

-- The open circuit of a valid worker closes in three ways only: a health check once the cooldown
-- has passed, which counts the failures from 0 again, a reported success, and a stop.
leaves_open :
    (c : WorkerCall) (r : WorkerRecord)
    → IsValid r
    → r.state ≡ open_
    → ((call c r).state ≡ open_)
      ⊎ (((now : ℕ) × (c ≡ health_check_call now)
            × (cooled r.opened_at r.policy.cooldown now ≡ true)
            × ((call c r).failures ≡ 0))
          ⊎ (((now : ℕ) × (c ≡ success_call now)) ⊎ (c ≡ stop_call)))
unfolding call start heartbeat failure success record_retry health_check stop
leaves_open (start_call now) r v o = ground arith
leaves_open (heartbeat_call now) r v o = ground arith
leaves_open (success_call now) r v o = inr (inr (inl (now, refl)))
leaves_open (health_check_call now) r v o =
    elim (Bool-cases (cooled r.opened_at r.policy.cooldown now)) [
      | inl cool ↦ inr (inl (now, refl, cool, ground arith))
      | inr hot ↦ inl (ground arith)
    ]
leaves_open (failure_call error now) r v o = ground arith
leaves_open record_retry_call r v o = ground arith
leaves_open stop_call r v o = inr (inr (inr refl))

-- The cooldown can be passed by: stopping a worker whose circuit is open and starting it again makes
-- it run at once, with its failures still counted.
pub stop_start :
    (r : WorkerRecord) (now : ℕ)
    → r.state ≡ open_
    → let r' = calls (stop_call ∷ start_call now ∷ []) r in
      (r'.state ≡ running) × (r'.failures ≡ r.failures) × (r'.opened_at ≡ r.opened_at)
unfolding calls start stop
stop_start r now o = ground arith

-- A retry is recorded exactly when the budget has one left and the circuit is not open.
pub record_retry-ok_iff :
    (r : WorkerRecord)
    → ((record_retry r).0 ≡ ok tt) ↔ ((r.retries < r.policy.max_retries) × (r.state ≢ open_))
unfolding record_retry
record_retry-ok_iff r = ground arith
