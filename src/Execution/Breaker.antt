-- ===== src/Execution/Breaker.antt =====
-- src/aurelix_core/circuit_breaker.py.
use aurelix.Base.{
  ℕ, ◌+◌, ◌≤◌, ◌<◌, Bool, true, false, not, ◌≡◌, ◌≢◌, ◌↔◌, refl, arith, leb, if◌then◌else◌, List,
  [], ◌∷◌, Result, ok, err,
}

pub data CircuitState : Type 0 where
  closed open_ half_open : CircuitState

abbrev is_open : CircuitState → Bool
is_open open_ = true
is_open _ = false

pub record CircuitBreaker : Type 0 where
  pub failure_threshold : ℕ
  pub state : CircuitState
  pub failures : ℕ

pub data CircuitOpen : Type 0 where
  circuit_open : CircuitOpen

abbrev pub new : ℕ → CircuitBreaker
new threshold = record { failure_threshold = threshold; state = closed; failures = 0 }

unfoldable pub allow : CircuitBreaker → Bool
allow b = not (is_open b.state)

unfoldable pub record_success : CircuitBreaker → CircuitBreaker
record_success b = record b { failures = 0; state = closed }

unfoldable pub record_failure : CircuitBreaker → CircuitBreaker
record_failure b =
    let n = b.failures + 1 in
    record b { failures = n; state = if leb b.failure_threshold n then open_ else b.state }

unfoldable pub require_allowed : CircuitBreaker → Result CircuitOpen (Unit {0})
unfolding allow
require_allowed b = if not (allow b) then err circuit_open else ok tt

-- The outcomes that a breaker is told of, in order: `true` for a success.
pub record_outcomes : List Bool → CircuitBreaker → CircuitBreaker
unfolding record_success record_failure
record_outcomes [] b = b
record_outcomes (true ∷ os) b = record_outcomes os (record_success b)
record_outcomes (false ∷ os) b = record_outcomes os (record_failure b)

-- The failures at the end of a history, `n` of them before it.
abbrev pub trailing_failures : ℕ → List Bool → ℕ
trailing_failures n [] = n
trailing_failures n (true ∷ os) = trailing_failures 0 os
trailing_failures n (false ∷ os) = trailing_failures (n + 1) os

-- What the reset-free part of a history keeps: open exactly when the count reached the threshold.
abbrev pub IsConsistent : CircuitBreaker → Type 0
IsConsistent b = ((b.state ≡ open_) ↔ (b.failure_threshold ≤ b.failures)) × (b.state ≢ half_open)

record_outcomes-counts :
    (os : List Bool) (b : CircuitBreaker)
    → (record_outcomes os b).failures ≡ trailing_failures b.failures os
unfolding record_outcomes
record_outcomes-counts [] b = refl
record_outcomes-counts (true ∷ os) b = record_outcomes-counts os (record_success b)
record_outcomes-counts (false ∷ os) b = record_outcomes-counts os (record_failure b)

record_outcomes-threshold :
    (os : List Bool) (b : CircuitBreaker)
    → (record_outcomes os b).failure_threshold ≡ b.failure_threshold
unfolding record_outcomes
record_outcomes-threshold [] b = refl
record_outcomes-threshold (true ∷ os) b = record_outcomes-threshold os (record_success b)
record_outcomes-threshold (false ∷ os) b = record_outcomes-threshold os (record_failure b)

record_outcomes-IsConsistent :
    (os : List Bool) (b : CircuitBreaker)
    → 0 < b.failure_threshold
    → IsConsistent b
    → IsConsistent (record_outcomes os b)
unfolding record_outcomes
record_outcomes-IsConsistent [] b h c = c
record_outcomes-IsConsistent (true ∷ os) b h c =
    record_outcomes-IsConsistent os (record_success b) h (ground arith)
record_outcomes-IsConsistent (false ∷ os) b h c =
    record_outcomes-IsConsistent os (record_failure b) h (ground arith)

-- A new breaker with a positive threshold blocks, after any history of outcomes, exactly when at
-- least that many failures came after the last success.
pub allow-record_outcomes_iff :
    (threshold : ℕ) (os : List Bool)
    → 0 < threshold
    → (allow (record_outcomes os (new threshold)) ≡ false) ↔ (threshold ≤ trailing_failures 0 os)
unfolding allow
allow-record_outcomes_iff threshold os h = ground (
  arith,
  record_outcomes-counts os (new threshold),
  record_outcomes-threshold os (new threshold),
  record_outcomes-IsConsistent os (new threshold) h (ground arith),
)
