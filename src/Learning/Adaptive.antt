-- ===== src/Learning/Adaptive.antt =====
-- src/aurelix_core/adaptive_loop.py. The intelligence of the loop is the one of its escalator. Python's
-- `str.casefold` is a parameter, and ids are arguments. A set is a list of which only membership is asked.
pub mod Resumed
use aurelix.Base.{
  values, ◌&&◌, ◌==◌, any_of, all_of, Bool, true, false, not, ◌||◌, Option, none, some, List, [],
  ◌∷◌, ◌++◌, map, String, Result, ok, err, if◌then◌else◌, Dict, lookup, insert, contains,
  or_default, is_blank, string_eq,
}
use aurelix.Base.Int.{pos}
use aurelix.Learning.Study.{
  Evaluation, StudyObjective, Evidence, EvaluationStatus, passed, Capability,
  ContinuousIntelligence, StudyError, record_evidence, validate_capability,
}
use aurelix.Learning.Escalation.{CapabilityEscalator, EscalationError, Escalated, escalate}

pub record AdaptiveMission : Type 0 where
  pub execution_id : String
  pub objective : String
  pub required_capabilities : List String
  pub blocked : Bool
  pub capability_gap_ids : List String

pub record AdaptiveLoop : Type 0 where
  pub escalator : CapabilityEscalator
  pub missions : Dict AdaptiveMission
  pub capability_missions : Dict (List String)

pub data LoopError : Type 0 where
  id_and_objective_required not_of_objective not_passed not_covered not_required not_targeted
        not_validated :
      LoopError
  unknown_mission unknown_evaluation unknown_objective : String → LoopError
  escalation_error : EscalationError → LoopError
  study_error : StudyError → LoopError

-- The shared `intelligence`.
abbrev pub intelligence : AdaptiveLoop → ContinuousIntelligence
intelligence l = l.escalator.intelligence

abbrev with_intelligence : ContinuousIntelligence → AdaptiveLoop → AdaptiveLoop
with_intelligence i l = record l { escalator = record l.escalator { intelligence = i } }

unfoldable pub register_mission :
    String → String → List String → AdaptiveLoop → Result LoopError AdaptiveMission × AdaptiveLoop
register_mission execution_id objective required_capabilities l =
    let mission : AdaptiveMission = record {
      execution_id = execution_id;
      objective = objective;
      required_capabilities = required_capabilities;
      blocked = false;
      capability_gap_ids = [];
    } in
    if is_blank execution_id || is_blank objective
    then (err id_and_objective_required, l)
    else (ok mission, record l { missions = insert execution_id mission l.missions })

abbrev add_to : String → List String → List String
add_to x xs = if contains x xs then xs else x ∷ xs

unfoldable pub record_study_evidence :
    Evidence → AdaptiveLoop → Result LoopError Evidence × AdaptiveLoop
record_study_evidence e l =
    let (r, i) = record_evidence e (intelligence l) in
    (elim r [ ok x ↦ ok x | err x ↦ err (study_error x) ], with_intelligence i l)

module _ (casefold : String → String) where
  -- After `escalate`.
  blocked_mission :
      String
      → String
      → AdaptiveMission
      → AdaptiveLoop
      → Escalated
      → Result LoopError (AdaptiveMission × StudyObjective) × AdaptiveLoop
  blocked_mission execution_id capability mission l (err e, s) =
      (err (escalation_error e), record l { escalator = s })
  blocked_mission execution_id capability mission l (ok (gap, objective), s) =
      let updated : AdaptiveMission = record mission {
        blocked = true;
        capability_gap_ids = mission.capability_gap_ids ++ (gap.gap_id ∷ []);
      } in
      let key = casefold capability in
      let known = or_default (lookup key l.capability_missions) [] in
      (
        ok (updated, objective),
        record {
          escalator = s;
          missions = insert execution_id updated l.missions;
          capability_missions = insert key (add_to execution_id known) l.capability_missions;
        },
      )

  -- The escalation has the priority eight tenths.
  unfoldable pub block_for_capability :
      String
      → String
      → String
      → String
      → String
      → String
      → AdaptiveLoop
      → Result LoopError (AdaptiveMission × StudyObjective) × AdaptiveLoop
  unfolding blocked_mission
  block_for_capability objective_id gap_id execution_id capability reason requested_by l =
      elim (lookup execution_id l.missions) [
        | none ↦ (err (unknown_mission execution_id), l)
        | some mission ↦ blocked_mission execution_id capability mission l (
            escalate casefold objective_id gap_id capability reason requested_by (pos 800000)
              l.escalator)
      ]

  abbrev is_passed : EvaluationStatus → Bool
  is_passed passed = true
  is_passed _ = false

  abbrev no_refs : List String → Bool
  no_refs [] = true
  no_refs (r ∷ rs) = false

  -- `name.casefold() in {item.casefold() for item in names}`
  abbrev pub names : String → List String → Bool
  names name items = contains (casefold name) (map casefold items)

  -- From the objective on, the last that is looked up.
  for_objective :
      String
      → String
      → List String
      → AdaptiveLoop
      → String
      → Option StudyObjective
      → Result LoopError Capability × AdaptiveLoop
  for_objective capability_id capability evidence_refs l objective_id none =
      (err (unknown_objective objective_id), l)
  for_objective capability_id capability evidence_refs l objective_id (some objective) =
      let (r, i) =
        validate_capability capability_id capability objective.domain objective.target_competencies
          evidence_refs (intelligence l) in
      if not (names capability objective.target_competencies)
      then (err not_targeted, l)
      else (elim r [ ok c ↦ ok c | err e ↦ err (study_error e) ], with_intelligence i l)

  -- The tests of `validate_learning` on the evaluation and the mission that it finds.
  by_evaluation :
      String
      → String
      → String
      → String
      → List String
      → AdaptiveLoop
      → AdaptiveMission
      → Option Evaluation
      → Result LoopError Capability × AdaptiveLoop
  unfolding for_objective
  by_evaluation capability_id capability objective_id evaluation_id evidence_refs l mission none =
      (err (unknown_evaluation evaluation_id), l)
  by_evaluation capability_id capability objective_id evaluation_id evidence_refs l mission
        (some v) =
      if not (v.objective_id == objective_id)
      then (err not_of_objective, l)
      else if not (is_passed v.status)
      then (err not_passed, l)
      else if no_refs evidence_refs || not (all_of (λ r. contains r v.evidence_refs) evidence_refs)
      then (err not_covered, l)
      else if not (names capability mission.required_capabilities)
      then (err not_required, l)
      else for_objective capability_id capability evidence_refs l objective_id
          (lookup objective_id (intelligence l).objectives)

  unfoldable pub validate_learning :
      String
      → String
      → String
      → String
      → String
      → List String
      → AdaptiveLoop
      → Result LoopError Capability × AdaptiveLoop
  unfolding by_evaluation
  validate_learning capability_id execution_id capability objective_id evaluation_id evidence_refs
        l =
      elim (lookup execution_id l.missions) [
        | none ↦ (err (unknown_mission execution_id), l)
        | some mission ↦
            by_evaluation capability_id capability objective_id evaluation_id evidence_refs l
              mission (lookup evaluation_id (intelligence l).evaluations)
      ]

  abbrev pub validates : String → Capability → Bool
  validates capability c = casefold c.name == casefold capability && c.is_validated

  unfoldable pub capability_validated : String → AdaptiveLoop → Bool
  capability_validated capability l =
      any_of (validates capability) (values (intelligence l).capabilities)

  unfoldable pub can_resume : String → AdaptiveLoop → Result LoopError Bool
  unfolding capability_validated
  can_resume execution_id l = elim (lookup execution_id l.missions) [
    | none ↦ err (unknown_mission execution_id)
    | some mission ↦ ok (all_of (λ c. capability_validated c l) mission.required_capabilities)
  ]

  -- With the answer of `can_resume`.
  unfoldable pub resumed :
      String
      → AdaptiveMission
      → AdaptiveLoop
      → Result LoopError Bool
      → Result LoopError AdaptiveMission × AdaptiveLoop
  resumed execution_id mission l (err e) = (err e, l)
  resumed execution_id mission l (ok ready) =
      let updated : AdaptiveMission = record mission { blocked = false } in
      if not ready
      then (err not_validated, l)
      else (ok updated, record l { missions = insert execution_id updated l.missions })

  unfoldable pub resume_ready :
      String → AdaptiveLoop → Result LoopError AdaptiveMission × AdaptiveLoop
  unfolding resumed
  resume_ready execution_id l = elim (lookup execution_id l.missions) [
    | none ↦ (err (unknown_mission execution_id), l)
    | some mission ↦ resumed execution_id mission l (can_resume execution_id l)
  ]
