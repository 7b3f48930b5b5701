-- ===== src/Workers/Plane.antt =====
-- src/aurelix_runtime/execution_plane.py. Payloads are values of `P`. A handler is what a call of it
-- does: it raises, or returns an output, in a time that the clock shows. Seconds are counted in the
-- clock's whole ticks.
use aurelix.Base.{
  ℕ, Bool, true, false, not, ◌||◌, ◌≡◌, ◌≢◌, arith, Option, none, some, List, String, Result, ok,
  err, if◌then◌else◌, Dict, lookup, insert, contains, is_blank, is_empty, is_some, string_eq,
  lookup-insert, eq_iff,
}
use aurelix.Base.Int.{ℤ, pos, ltb_ℤ, leb_ℤ}

pub record ExecutionScope : Type 0 where
  pub agent_id : String
  pub allowed_engines : List String
  pub max_steps : ℤ
  pub max_runtime_seconds : ℤ
  pub environment : String

unfoldable pub permits : String → ExecutionScope → Bool
permits engine scope = contains engine scope.allowed_engines

pub record ExecutionReceipt (O : Type 0) : Type 0 where
  pub agent_id : String
  pub engine : String
  pub environment : String
  pub status : String
  pub elapsed_seconds : ℕ
  pub output : O

-- What a handler's call does, and the time it takes.
pub data Reply (X O : Type 0) : Type 0 where
  raises : X → Reply X O
  gives : ℕ → O → Reply X O
  gives_other : ℕ → Reply X O

pub data PlaneError (X : Type 0) : Type 0 where
  agent_required invalid_scope : PlaneError X
  not_permitted : String → PlaneError X
  not_registered : String → PlaneError X
  limit_exceeded output_not_dict : PlaneError X
  handler_raised : X → PlaneError X
  engine_not_unique : PlaneError X

abbrev pub ExecutionPlane : Type 0 → Type 0 → Type 0 → Type 0
ExecutionPlane P X O = Dict (P → Reply X O)

module _ {X O : Type 0} where
  -- After the handler's call.
  abbrev settled : ExecutionScope → String → Reply X O → Result (PlaneError X) (ExecutionReceipt O)
  settled scope engine (raises x) = err (handler_raised x)
  settled scope engine (gives_other elapsed) =
      if ltb_ℤ scope.max_runtime_seconds (pos elapsed)
      then err limit_exceeded
      else err output_not_dict
  settled scope engine (gives elapsed output) =
      if ltb_ℤ scope.max_runtime_seconds (pos elapsed)
      then err limit_exceeded
      else ok (record {
        agent_id = scope.agent_id;
        engine = engine;
        environment = scope.environment;
        status = "completed";
        elapsed_seconds = elapsed;
        output = output;
      })

module _ {P X O : Type 0} where
  unfoldable pub register :
      String → (P → Reply X O) → ExecutionPlane P X O → Result (PlaneError X) (ExecutionPlane P X O)
  register engine handler p =
      if is_empty engine || is_some (lookup engine p)
      then err engine_not_unique
      else ok (insert engine handler p)

  abbrev handled :
      ExecutionScope
      → String
      → P
      → Option (P → Reply X O)
      → Result (PlaneError X) (ExecutionReceipt O)
  handled scope engine payload none = err (not_registered engine)
  handled scope engine payload (some handler) = settled scope engine (handler payload)

  unfoldable pub execute :
      ExecutionScope
      → String
      → P
      → ExecutionPlane P X O
      → Result (PlaneError X) (ExecutionReceipt O)
  unfolding permits
  execute scope engine payload p =
      if is_blank scope.agent_id
      then err agent_required
      else if ltb_ℤ scope.max_steps (pos 1) || leb_ℤ scope.max_runtime_seconds (pos 0)
      then err invalid_scope
      else if not (permits engine scope)
      then err (not_permitted engine)
      else handled scope engine payload (lookup engine p)

  -- A receipt is given only for a named agent, an engine in its scope, and a time within its limit;
  -- and it names that agent and that engine.
  pub execute-ok :
      (scope : ExecutionScope) (engine : String) (payload : P) (p : ExecutionPlane P X O)
      (receipt : ExecutionReceipt O)
      → execute scope engine payload p ≡ ok receipt
      → (is_blank scope.agent_id ≡ false)
        × (permits engine scope ≡ true)
        × (leb_ℤ (pos receipt.elapsed_seconds) scope.max_runtime_seconds ≡ true)
        × (receipt.agent_id ≡ scope.agent_id)
        × (receipt.engine ≡ engine)
  unfolding execute permits
  execute-ok scope engine payload p receipt h = ground arith

  -- A registered engine keeps its handler: no further registration succeeds under its name or changes
  -- what it runs.
  pub register_kept :
      (engine other : String) (handler : P → Reply X O) (p q : ExecutionPlane P X O)
      → is_some (lookup engine p) ≡ true
      → register other handler p ≡ ok q
      → (other ≢ engine) × (lookup engine q ≡ lookup engine p)
  unfolding register
  register_kept engine other handler p q known h =
      ground (arith, lookup-insert other engine handler p, eq_iff other engine)
