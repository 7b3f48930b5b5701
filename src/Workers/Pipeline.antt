-- ===== src/Workers/Pipeline.antt =====
-- src/aurelix_runtime/engine_registry.py and pipeline.py. Payloads and outputs are dicts of values `V`;
-- `text` makes a value of a str. A handler is what a call of it does: it raises, or returns a dict, or
-- something else.
use aurelix.Base.{
  ℕ, zero, suc, ◌-◌, Bool-cases, Result-cases, inl, inr, subst, Bool, true, false, not, ◌&&◌, ◌||◌,
  ◌≡◌, refl, arith, Option, none, some, List, [], ◌∷◌, String, map, if◌then◌else◌, Result, ok, err,
  Dict, lookup, insert, is_empty, is_some, take, ◌==◌, string_eq,
}
use aurelix.Base.Int.{ℤ, pos, negsuc, leb_ℤ}

pub data Reply (V : Type 0) : Type 0 where
  dict : Dict V → Reply V
  not_dict : Reply V

abbrev pub Handler : Type 0 → Type 0 → Type 0
Handler X V = Dict V → Result X (Reply V)

pub record EngineResult (V : Type 0) : Type 0 where
  pub engine : String
  pub status : String
  pub output : Dict V

pub data EngineError (X : Type 0) : Type 0 where
  name_not_unique : EngineError X
  not_registered : String → EngineError X
  output_not_dict : EngineError X
  handler_raised : X → EngineError X

abbrev pub EngineRegistry : Type 0 → Type 0 → Type 0
EngineRegistry X V = Dict (Handler X V)

module _ {X V : Type 0} where
  unfoldable pub register :
      String → Handler X V → EngineRegistry X V → Result (EngineError X) (EngineRegistry X V)
  register name handler handlers =
      if is_empty name || is_some (lookup name handlers)
      then err name_not_unique
      else ok (insert name handler handlers)

  -- What becomes of a handler's reply.
  abbrev received : String → Result X (Reply V) → Result (EngineError X) (EngineResult V)
  received name (err x) = err (handler_raised x)
  received name (ok not_dict) = err output_not_dict
  received name (ok (dict output)) =
      ok (record { engine = name; status = "completed"; output = output })

  abbrev called : String → Dict V → Option (Handler X V) → Result (EngineError X) (EngineResult V)
  called name payload none = err (not_registered name)
  called name payload (some handler) = received name (handler payload)

  unfoldable pub execute :
      String → Dict V → EngineRegistry X V → Result (EngineError X) (EngineResult V)
  execute name payload handlers = called name payload (lookup name handlers)

  execute-engine :
      (name : String) (payload : Dict V) (handlers : EngineRegistry X V) (r : EngineResult V)
      → execute name payload handlers ≡ ok r
      → r.engine ≡ name
  unfolding execute
  execute-engine name payload handlers r h = ground arith

abbrev pub pipeline : List String
pipeline =
    "governor" ∷ "research" ∷ "academy" ∷ "knowledge" ∷ "innovation" ∷ "experiment" ∷ "evaluation"
    ∷ "opportunity" ∷ "business" ∷ []

pub record PipelinePolicy : Type 0 where
  pub allow_business : Bool
  pub max_steps : ℤ

-- `{**d, **e}`
abbrev pub merge {ℓ} : {V : Type ℓ} → Dict V → Dict V → Dict V
merge d [] = d
merge d ((k, v) ∷ e) = merge (insert k v d) e

-- Where the loop breaks, before the engine `name` at `index`.
abbrev breaks : PipelinePolicy → ℕ → String → Bool
breaks policy index name =
    leb_ℤ policy.max_steps (pos index) || (name == "business" && not policy.allow_business)

module _ {X V : Type 0} (text : String → V) (policy : PipelinePolicy)
    (engines : EngineRegistry X V) where
  run_from : ℕ → List String → Dict V → Result (EngineError X) (List (EngineResult V))
  unfolding execute
  run_from index [] state = ok []
  run_from index (name ∷ names) state =
      if breaks policy index name then ok [] else elim (execute name state engines) [
        | err e ↦ err e
        | ok r ↦
            let after = insert "previous_engine" (text name) (merge state r.output) in
            elim (run_from (suc index) names after) [ err e ↦ err e | ok rs ↦ ok (r ∷ rs) ]
      ]

  unfoldable pub run : Dict V → Result (EngineError X) (List (EngineResult V))
  unfolding run_from
  run initial = run_from 0 pipeline initial

-- The stages that a policy lets run: the pipeline without its last stage unless business is allowed,
-- and of that at most `max_steps` engines.
abbrev pub at_most : ℤ → ℕ
at_most (pos n) = n
at_most (negsuc n) = 0

abbrev pub before_business : Bool → List String → List String
before_business allow [] = []
before_business allow (name ∷ names) =
    if name == "business" && not allow then [] else name ∷ before_business allow names

abbrev pub stages : PipelinePolicy → List String
stages policy = take (at_most policy.max_steps) (before_business policy.allow_business pipeline)

take-nil {ℓ} : (A : Type ℓ) (n : ℕ) → take {A = A} n [] ≡ []
take-nil A zero = refl
take-nil A (suc n) = refl

-- How many steps are left at an index that has reached the bound, and at one that has not.
at_most_reached : (m : ℤ) (i : ℕ) → leb_ℤ m (pos i) ≡ true → at_most m - i ≡ 0
at_most_reached (pos n) i h = ground arith
at_most_reached (negsuc n) i h = omega arith

at_most_left : (m : ℤ) (i : ℕ) → leb_ℤ m (pos i) ≡ false → at_most m - i ≡ suc (at_most m - suc i)
at_most_left (pos n) i h = ground arith
at_most_left (negsuc n) i h = ground arith

module _ {X V : Type 0} (text : String → V) (policy : PipelinePolicy)
    (engines : EngineRegistry X V) where
  abbrev pub engine_names : List (EngineResult V) → List String
  engine_names rs = map (λ r. r.engine) rs

  -- The stages left at an index of the loop.
  abbrev stages_from : ℕ → List String → List String
  stages_from index names =
      take (at_most policy.max_steps - index) (before_business policy.allow_business names)

  stages_from-nil : (index : ℕ) → stages_from index [] ≡ []
  stages_from-nil index = take-nil String (at_most policy.max_steps - index)

  stages_from-break :
      (index : ℕ) (name : String) (names : List String)
      → breaks policy index name ≡ true
      → stages_from index (name ∷ names) ≡ []
  stages_from-break index name names h = elim (Bool-cases (leb_ℤ policy.max_steps (pos index))) [
    | inl reached ↦
        let none_left = at_most_reached policy.max_steps index reached in rw none_left refl
    | inr left ↦ rw (at_most_left policy.max_steps index left) (ground (arith, left, h))
  ]

  stages_from-next :
      (index : ℕ) (name : String) (names : List String)
      → breaks policy index name ≡ false
      → stages_from index (name ∷ names) ≡ name ∷ stages_from (suc index) names
  stages_from-next index name names h =
      rw (at_most_left policy.max_steps index (ground (arith, h))) (ground (arith, h))

  run_from-stages :
      (index : ℕ) (names : List String) (state : Dict V) (rs : List (EngineResult V))
      → run_from text policy engines index names state ≡ ok rs
      → engine_names rs ≡ stages_from index names
  unfolding run_from
  run_from-stages index [] state rs h = ground (arith, stages_from-nil index)
  run_from-stages index (name ∷ names) state rs h = elim (Bool-cases (breaks policy index name)) [
    | inl stop ↦ ground (arith, stages_from-break index name names stop)
    | inr next ↦ elim (Result-cases (execute name state engines)) [
      | inr (e, raised) ↦ ground (arith, next, raised)
      | inl (r, given) ↦
          let after = insert "previous_engine" (text name) (merge state r.output) in
          elim (Result-cases (run_from text policy engines (suc index) names after)) [
            | inr (e, raised) ↦ ground (arith, next, given, raised)
            | inl (rest, more) ↦
                let tail = run_from-stages (suc index) names after rest more in
                ground (
                  arith,
                  next,
                  given,
                  more,
                  tail,
                  stages_from-next index name names next,
                  execute-engine name state engines r given,
                )
          ]
    ]
  ]

  -- A run that returns ran exactly the stages of its policy, in their order: the pipeline, without
  -- its last stage unless business is allowed, cut to at most `max_steps` engines.
  run-stages :
      (initial : Dict V) (rs : List (EngineResult V))
      → run text policy engines initial ≡ ok rs
      → engine_names rs ≡ stages policy
  unfolding run
  run-stages initial rs h =
      let from_zero : at_most policy.max_steps - 0 ≡ at_most policy.max_steps = omega arith in
      subst (λ n. engine_names rs ≡ take n (before_business policy.allow_business pipeline))
        from_zero (run_from-stages 0 pipeline initial rs h)

  module _
      (healthy : (name : String) (payload : Dict V)
        → (r : EngineResult V) × (execute name payload engines ≡ ok r)) where
    run_from_returns :
        (index : ℕ) (names : List String) (state : Dict V)
        → (rs : List (EngineResult V)) × (run_from text policy engines index names state ≡ ok rs)
    unfolding run_from
    run_from_returns index [] state = ([], refl)
    run_from_returns index (name ∷ names) state =
        let (r, given) = healthy name state in
        let after = insert "previous_engine" (text name) (merge state r.output) in
        let (rest, more) = run_from_returns (suc index) names after in
        elim (Bool-cases (breaks policy index name)) [
          | inl stop ↦ ([], ground (arith, stop))
          | inr next ↦ (r ∷ rest, ground (arith, next, given, more))
        ]

    -- Where every engine answers every payload with a dict, a run returns.
    pub run_returns :
        (initial : Dict V)
        → (rs : List (EngineResult V)) × (run text policy engines initial ≡ ok rs)
    unfolding run
    run_returns initial = run_from_returns 0 pipeline initial
