-- ===== src/Learning/Escalation.antt =====
-- src/aurelix_core/capability_escalation.py. Python's `str.casefold` is a parameter, and ids are
-- arguments. The dictionary of keys is a list of pairs of a key and the id of its gap.
pub mod Repeated
use Prim.Native.String.{◌++◌ as ◌+++◌}
use aurelix.Base.{
  Bool, true, false, not, ◌&&◌, ◌||◌, ◌≡◌, refl, arith, Option, none, some, List, [], ◌∷◌, String,
  Result, ok, err, if◌then◌else◌, Dict, lookup, insert, is_blank, strip, ◌==◌, string_eq,
  str_beq_refl, lookup-insert_self,
}
use aurelix.Base.Int.{ℤ}
use aurelix.Learning.Study.{
  StudyObjective, ContinuousIntelligence, StudyError, unit_range, propose_objective,
}

pub record CapabilityGap : Type 0 where
  pub gap_id : String
  pub capability : String
  pub reason : String
  pub requested_by : String
  pub study_objective_id : String

pub record CapabilityEscalator : Type 0 where
  pub intelligence : ContinuousIntelligence
  pub gaps : Dict CapabilityGap
  pub by_key : List ((String × String) × String)

pub data EscalationError : Type 0 where
  all_required priority_range : EscalationError
  unknown_gap unknown_objective : String → EscalationError
  study_error : StudyError → EscalationError

abbrev pub same_key : String × String → String × String → Bool
same_key a b = a.0 == b.0 && a.1 == b.1

-- `self._by_key.get(key)`
abbrev pub find_key : String × String → List ((String × String) × String) → Option String
find_key k [] = none
find_key k ((j, v) ∷ ks) = if same_key j k then some v else find_key k ks

abbrev pub Escalated : Type 0
Escalated = Result EscalationError (CapabilityGap × StudyObjective) × CapabilityEscalator

-- `self.gaps[existing]` and the objective of that gap.
objective_of : CapabilityGap → CapabilityEscalator → Option StudyObjective → Escalated
objective_of gap s none = (err (unknown_objective gap.study_objective_id), s)
objective_of gap s (some o) = (ok (gap, o), s)

known_gap : String → CapabilityEscalator → Option CapabilityGap → Escalated
unfolding objective_of
known_gap gap_id s none = (err (unknown_gap gap_id), s)
known_gap gap_id s (some gap) =
    objective_of gap s (lookup gap.study_objective_id s.intelligence.objectives)

-- After `propose_objective`. The key is not there yet, so that `self._by_key[key] = …` adds it.
unfoldable pub new_gap :
    String × String
    → CapabilityGap
    → CapabilityEscalator
    → Result StudyError StudyObjective × ContinuousIntelligence
    → Escalated
new_gap key gap s (err e, i) = (err (study_error e), record s { intelligence = i })
new_gap key gap s (ok o, i) = (
  ok (gap, o),
  record {
    intelligence = i;
    gaps = insert gap.gap_id gap s.gaps;
    by_key = (key, gap.gap_id) ∷ s.by_key;
  },
)

unfoldable pub by_existing :
    String × String → CapabilityGap → ℤ → CapabilityEscalator → Option String → Escalated
unfolding known_gap new_gap
by_existing key gap priority s (some gap_id) = known_gap gap_id s (lookup gap_id s.gaps)
by_existing key gap priority s none = new_gap key gap s (
    propose_objective gap.study_objective_id "capability-development"
      ("Learn capability: " +++ gap.capability)
      ("How can AURELIX perform '"
        +++ (gap.capability +++ ("' safely and reliably? Current gap: " +++ gap.reason)))
      (gap.capability ∷ []) priority s.intelligence)

module _ (casefold : String → String) where
  unfoldable pub escalate :
      String → String → String → String → String → ℤ → CapabilityEscalator → Escalated
  unfolding by_existing
  escalate objective_id gap_id capability reason requested_by priority s =
      let gap : CapabilityGap = record {
        gap_id = gap_id;
        capability = strip capability;
        reason = strip reason;
        requested_by = strip requested_by;
        study_objective_id = objective_id;
      } in
      let key : String × String = (casefold (strip capability), casefold (strip reason)) in
      if is_blank capability || (is_blank reason || is_blank requested_by)
      then (err all_required, s)
      else if not (unit_range priority)
      then (err priority_range, s)
      else by_existing key gap priority s (find_key key s.by_key)
