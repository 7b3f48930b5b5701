-- ===== src/Execution/Runtime.antt =====
-- src/aurelix_core/execution.py. The operation is a parameter: its outcome is a value or an exception.
use aurelix.Base.{Bool, true, false, ◌≡◌, arith, String, Result, ok, err, is_ok}
use aurelix.Execution.Breaker.{
  CircuitBreaker, CircuitOpen, require_allowed, record_success, record_failure,
}
use aurelix.Execution.Scope.{ResourcePermission, ResourceRequest, ScopeDenied, authorize_resource}

pub record ExecutionRequest : Type 0 where
  pub actor_id : String
  pub resource : ResourceRequest
  pub permission : ResourcePermission

pub record ExecutionResult (O : Type 0) : Type 0 where
  pub success : Bool
  pub output : O

-- `X` is the type of the exceptions that an operation raises.
pub data ExecutionError (X : Type 0) : Type 0 where
  breaker_open : ExecutionError X
  denied : ScopeDenied → ExecutionError X
  operation_failed : X → ExecutionError X

-- `ExecutionRuntime`, whose state is its breaker.
pub record ExecutionRuntime : Type 0 where
  pub breaker : CircuitBreaker

module _ {X O : Type 0} where
  -- The two branches of the `try` around the operation.
  finish :
      Result X O
      → ExecutionRuntime
      → Result (ExecutionError X) (ExecutionResult O) × ExecutionRuntime
  finish (ok output) rt = (
    ok (record { success = true; output = output }),
    record { breaker = record_success rt.breaker },
  )
  finish (err x) rt = (err (operation_failed x), record { breaker = record_failure rt.breaker })

  in_scope :
      Result ScopeDenied (Unit {0})
      → Result X O
      → ExecutionRuntime
      → Result (ExecutionError X) (ExecutionResult O) × ExecutionRuntime
  unfolding finish
  in_scope (err e) operation rt = (err (denied e), rt)
  in_scope (ok u) operation rt = finish operation rt

  allowed :
      Result CircuitOpen (Unit {0})
      → ExecutionRequest
      → Result X O
      → ExecutionRuntime
      → Result (ExecutionError X) (ExecutionResult O) × ExecutionRuntime
  unfolding in_scope
  allowed (err e) r operation rt = (err breaker_open, rt)
  allowed (ok u) r operation rt = in_scope (authorize_resource r.resource r.permission) operation rt

  unfoldable pub execute :
      ExecutionRequest
      → Result X O
      → ExecutionRuntime
      → Result (ExecutionError X) (ExecutionResult O) × ExecutionRuntime
  unfolding allowed
  execute r operation rt = allowed (require_allowed rt.breaker) r operation rt

-- The operation is reached, so that the breaker hears of it, only through both guards.
abbrev pub Reaches : ExecutionRequest → ExecutionRuntime → Type 0
Reaches r rt =
    (require_allowed rt.breaker ≡ ok tt) × (authorize_resource r.resource r.permission ≡ ok tt)

module _ {X O : Type 0} (r : ExecutionRequest) (rt : ExecutionRuntime) where
  -- With the breaker letting calls through and the request in scope, the outcome of the operation is
  -- the outcome of the call: a value is returned and recorded as a success, and an exception is raised
  -- again and recorded as a failure.
  pub execute-reached :
      (operation : Result X O)
      → Reaches r rt
      → (((o : O)
            → operation ≡ ok o
            → execute r operation rt ≡ (
              ok (record { success = true; output = o }),
              record { breaker = record_success rt.breaker },
            ))
          × ((x : X)
              → operation ≡ err x
              → execute r operation rt
                ≡ (err (operation_failed x), record { breaker = record_failure rt.breaker })))
  unfolding execute
  execute-reached operation h = ((λ o e. ground arith), (λ x e. ground arith))

  -- With the breaker open or the request out of scope, the call raises, the breaker is unchanged, and
  -- the operation makes no difference.
  pub execute_guarded :
      (operation other : Result X O)
      → ¬ Reaches r rt
      → (is_ok (execute r operation rt).0 ≡ false)
        × ((execute r operation rt).1 ≡ rt)
        × (execute r operation rt ≡ execute r other rt)
  unfolding execute
  execute_guarded operation other h = ground arith
