-- ===== src/Workers/Operations.antt =====
-- src/aurelix_runtime/operations.py. Times are microseconds of the monotonic clock.
use aurelix.Base.{
  ℕ, zero, suc, ◌-◌, ◌≤◌, ◌<◌, Bool, true, false, not, ◌||◌, ◌≡◌, ◌⊎◌, arith, Option, none, some,
  List, [], ◌∷◌, if◌then◌else◌, Result, ok, err, is_none, is_ok, refl, inl, inr, subst,
  Result-cases, ◌+◌,
}
use aurelix.Base.Int.{ℤ, pos, negsuc, ltb_ℤ, leb_ℤ}

pub data RuntimeState : Type 0 where
  booting ready running degraded stopping stopped failed : RuntimeState

pub record RuntimeLimits : Type 0 where
  pub max_steps : ℤ
  pub max_retries : ℤ
  pub max_runtime : ℤ

pub data OperationsError : Type 0 where
  invalid_limits cannot_become_ready not_ready negative_retries : OperationsError

unfoldable pub validate : RuntimeLimits → Result OperationsError (Unit {0})
validate l =
    if ltb_ℤ l.max_steps (pos 1) || (ltb_ℤ l.max_retries (pos 0) || leb_ℤ l.max_runtime (pos 0))
    then err invalid_limits
    else ok tt

pub record OperationsController : Type 0 where
  pub limits : RuntimeLimits
  pub state : RuntimeState
  pub started_at : Option ℕ

-- `__init__`
unfoldable pub new : RuntimeLimits → Result OperationsError OperationsController
unfolding validate
new l = elim (validate l) [
  | err e ↦ err e
  | ok u ↦ ok (record { limits = l; state = booting; started_at = none })
]

abbrev may_become_ready : RuntimeState → Bool
may_become_ready booting = true
may_become_ready degraded = true
may_become_ready _ = false

abbrev is_ready : RuntimeState → Bool
is_ready ready = true
is_ready _ = false

abbrev is_running : RuntimeState → Bool
is_running running = true
is_running _ = false

abbrev is_stopped : RuntimeState → Bool
is_stopped stopped = true
is_stopped stopping = true
is_stopped _ = false

-- A method: the controller comes back whether or not it raised.
abbrev pub Step : Type 0
Step = OperationsController → Result OperationsError (Unit {0}) × OperationsController

unfoldable pub make_ready : Step
make_ready c =
    if not (may_become_ready c.state)
    then (err cannot_become_ready, c)
    else (ok tt, record c { state = ready })

unfoldable pub start : ℕ → Step
start now c =
    if not (is_ready c.state)
    then (err not_ready, c)
    else (ok tt, record c { state = running; started_at = some now })

unfoldable pub degrade : Step
degrade c = (ok tt, if is_running c.state then record c { state = degraded } else c)

unfoldable pub stop : Step
stop c = (ok tt, if is_stopped c.state then c else record c { state = stopped })

unfoldable pub fail : Step
fail c = (ok tt, record c { state = failed })

abbrev not_counting : RuntimeState → Bool
not_counting booting = true
not_counting ready = true
not_counting stopped = true
not_counting _ = false

abbrev since : Option ℕ → ℕ → ℕ
since none now = 0
since (some t) now = now - t

-- `max(0.0, monotonic() - started_at)` is the truncated difference.
unfoldable pub uptime : ℕ → OperationsController → ℕ
uptime now c = if is_none c.started_at || not_counting c.state then 0 else since c.started_at now

pub data OperationsCall : Type 0 where
  ready_call degrade_call stop_call fail_call : OperationsCall
  start_call : ℕ → OperationsCall

pub step : OperationsCall → OperationsController → OperationsController
unfolding make_ready start degrade stop fail
step ready_call c = (make_ready c).1
step (start_call now) c = (start now c).1
step degrade_call c = (degrade c).1
step stop_call c = (stop c).1
step fail_call c = (fail c).1

-- The steps from one state to another, whichever call makes them.
pub data Moves : RuntimeState → RuntimeState → Type 0 where
  stays : {s : RuntimeState} → Moves s s
  boot : Moves booting ready
  mend : Moves degraded ready
  launch : Moves ready running
  slow : Moves running degraded
  halt : {s : RuntimeState} → Moves s stopped
  crash : {s : RuntimeState} → Moves s failed

ruleset moves = (stays, boot, mend, launch, slow, halt, crash)

-- Every call moves the controller along the diagram: into running only from ready, into ready only from
-- booting or degraded, into degraded only from running; stopped and failed are open to every state.
pub step-Moves :
    (call : OperationsCall) (c : OperationsController) → Moves c.state (step call c).state
unfolding step
step-Moves ready_call c = grind (arith, moves)
step-Moves (start_call now) c = grind (arith, moves)
step-Moves degrade_call c = grind (arith, moves)
step-Moves stop_call c = grind (arith, moves)
step-Moves fail_call c = grind (arith, moves)

-- A stopped or failed controller never runs again: under any calls it stays stopped or failed.
abbrev pub IsOver : OperationsController → Type 0
IsOver c = (c.state ≡ stopped) ⊎ (c.state ≡ failed)

pub steps : List OperationsCall → OperationsController → OperationsController
unfolding step
steps [] c = c
steps (call ∷ calls) c = steps calls (step call c)

step-IsOver : (call : OperationsCall) (c : OperationsController) → IsOver c → IsOver (step call c)
unfolding step
step-IsOver ready_call c h = ground arith
step-IsOver (start_call now) c h = ground arith
step-IsOver degrade_call c h = ground arith
step-IsOver stop_call c h = ground arith
step-IsOver fail_call c h = ground arith

-- Once stopped or failed, always stopped or failed, whatever is called.
pub steps-IsOver :
    (calls : List OperationsCall) (c : OperationsController) → IsOver c → IsOver (steps calls c)
unfolding steps
steps-IsOver [] c h = h
steps-IsOver (call ∷ calls) c h = steps-IsOver calls (step call c) (step-IsOver call c h)

-- `retry_bounded`. The action is the parameter: what each of its calls does, in order, and what any
-- call after those does. The result has the number of calls made beside it.
module _ {E A : Type 0} (action : ℕ → Result E A) where
  -- The loop: `left` more rounds may follow this call, the one numbered `done`.
  retry_loop : ℕ → ℕ → Result E A × ℕ
  retry_loop zero done = (action done, suc done)
  retry_loop (suc left) done = elim (action done) [
    | ok a ↦ (ok a, suc done)
    | err e ↦ retry_loop left (suc done)
  ]

  -- `none` is the exception on a negative bound.
  unfoldable pub retry_bounded : ℤ → Option (Result E A × ℕ)
  unfolding retry_loop
  retry_bounded (negsuc n) = none
  retry_bounded (pos max_retries) = some (retry_loop max_retries 0)

  -- How a run of the loop ends: its last call, numbered `last`, gave the result; every call before it
  -- raised; and it was the last because it succeeded or because no round was left.
  pub record Ended (from bound calls : ℕ) (result : Result E A) : Type 0 where
    pub last : ℕ
    pub counted : calls ≡ suc last
    pub given : action last ≡ result
    pub raised : (i : ℕ) → from ≤ i → i < last → is_ok (action i) ≡ false
    pub within : (from ≤ last) × (last ≤ bound)
    pub why : (is_ok result ≡ true) ⊎ (last ≡ bound)

  later :
      (left done : ℕ) {calls : ℕ} {r : Result E A} (e : E)
      → action done ≡ err e
      → Ended (suc done) (left + suc done) calls r
      → Ended done (suc left + done) calls r
  later left done e eq h = record {
    last = h.last;
    counted = h.counted;
    given = h.given;
    raised = λ i le lt. ground (arith, h.raised i);
    within = ground (arith, h.within);
    why = ground (arith, h.why);
  }

  retry_loop-Ended :
      (left done : ℕ) → Ended done (left + done) (retry_loop left done).1 (retry_loop left done).0
  unfolding retry_loop
  retry_loop-Ended zero done = record {
    last = done;
    counted = refl;
    given = refl;
    raised = λ i le lt. ground arith;
    within = ground arith;
    why = inr (omega arith);
  }
  retry_loop-Ended (suc left) done = elim (Result-cases (action done)) [
    | inl (a, eq) ↦
        rw (retry_loop, eq)
          (record {
            last = done;
            counted = refl;
            given = eq;
            raised = λ i le lt. ground arith;
            within = ground arith;
            why = inl refl;
          })
    | inr (e, eq) ↦ rw (retry_loop, eq) (later left done e eq (retry_loop-Ended left (suc done)))
  ]

  -- For a bound that is not negative the retry returns or raises what its last call did, after at most
  -- one call more than the bound, every earlier call having raised, and it stops before the bound only
  -- on a success.
  pub retry_bounded-Ended :
      (n : ℕ)
      → (calls : ℕ) × (result : Result E A) × (retry_bounded (pos n) ≡ some (result, calls))
        × Ended 0 n calls result
  unfolding retry_bounded
  retry_bounded-Ended n =
      let plus_zero : n + 0 ≡ n = omega arith in
      let ended =
        subst (λ b. Ended 0 b (retry_loop n 0).1 (retry_loop n 0).0) plus_zero
          (retry_loop-Ended n 0) in
      ((retry_loop n 0).1, (retry_loop n 0).0, refl, ended)
