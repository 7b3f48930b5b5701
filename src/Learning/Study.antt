-- ===== src/Learning/Study.antt =====
-- src/aurelix_core/continuous_intelligence.py. Priorities, strengths, scores and confidences are counted in
-- millionths. The `uuid4()` of what is made is an argument; where a method makes a record of its
-- arguments, the argument here is that record.
pub mod Kept
pub mod Sound
pub mod Objectives
use aurelix.Base.{
  Bool, true, false, not, ◌&&◌, ◌||◌, Option, none, some, List, [], ◌∷◌, String, Result, ok, err,
  if◌then◌else◌, Dict, lookup, insert, is_some, all_of, contains, is_blank, is_empty, strip, ◌==◌,
  string_eq, or_default,
}
use aurelix.Base.Int.{ℤ, pos, leb_ℤ, ltb_ℤ}

pub data StudyStatus : Type 0 where
  proposed active evaluating completed rejected : StudyStatus

pub data EvidenceKind : Type 0 where
  source practice experiment benchmark observation outcome : EvidenceKind

pub data EvaluationStatus : Type 0 where
  pending passed failed : EvaluationStatus

pub data KnowledgeState : Type 0 where
  candidate validated superseded invalidated : KnowledgeState

pub record StudyObjective : Type 0 where
  pub objective_id : String
  pub domain : String
  pub title : String
  pub question : String
  pub target_competencies : List String
  pub priority : ℤ
  pub status : StudyStatus

pub record Evidence : Type 0 where
  pub evidence_id : String
  pub objective_id : String
  pub kind : EvidenceKind
  pub reference : String
  pub strength : ℤ
  pub notes : String

pub record Experiment : Type 0 where
  pub experiment_id : String
  pub objective_id : String
  pub hypothesis : String
  pub method : String
  pub success_criteria : List String

pub record Evaluation : Type 0 where
  pub evaluation_id : String
  pub objective_id : String
  pub status : EvaluationStatus
  pub score : ℤ
  pub evidence_refs : List String

pub record Capability : Type 0 where
  pub capability_id : String
  pub name : String
  pub domain : String
  pub required_competencies : List String
  pub evidence_refs : List String
  pub is_validated : Bool

pub record KnowledgeItem : Type 0 where
  pub knowledge_id : String
  pub domain : String
  pub claim : String
  pub state : KnowledgeState
  pub confidence : ℤ
  pub evidence_refs : List String
  pub supersedes : Option String

-- `domains` is a set, of which only membership is asked.
pub record ContinuousIntelligence : Type 0 where
  pub objectives : Dict StudyObjective
  pub evidence : Dict Evidence
  pub experiments : Dict Experiment
  pub evaluations : Dict Evaluation
  pub capabilities : Dict Capability
  pub knowledge : Dict KnowledgeItem
  pub domains : List String

pub data StudyError : Type 0 where
  domain_required title_and_question_required priority_range reference_required strength_range
        hypothesis_and_method_required score_range unknown_evidence name_and_domain_required
        evidence_required claim_and_evidence_required confidence_range predecessor_required :
      StudyError
  unknown_objective : String → StudyError

-- One, in millionths.
abbrev pub unit_range : ℤ → Bool
unit_range x = leb_ℤ (pos 0) x && leb_ℤ x (pos 1000000)

abbrev pub all_known : Dict Evidence → List String → Bool
all_known d refs = all_of (λ r. is_some (lookup r d)) refs

abbrev pub no_refs : List String → Bool
no_refs [] = true
no_refs (r ∷ rs) = false

abbrev pub add_domain : String → List String → List String
add_domain d ds = if contains d ds then ds else d ∷ ds

unfoldable pub discover_domain :
    String → ContinuousIntelligence → Result StudyError String × ContinuousIntelligence
discover_domain domain c =
    if is_blank domain
    then (err domain_required, c)
    else (ok (strip domain), record c { domains = add_domain (strip domain) c.domains })

-- After `discover_domain`, whose domain stays discovered when the rest is refused.
unfoldable pub proposed_objective :
    StudyObjective
    → Result StudyError String × ContinuousIntelligence
    → Result StudyError StudyObjective × ContinuousIntelligence
proposed_objective o (err e, c) = (err e, c)
proposed_objective o (ok d, c) =
    if is_blank o.title || is_blank o.question
    then (err title_and_question_required, c)
    else if not (unit_range o.priority)
    then (err priority_range, c)
    else (ok o, record c { objectives = insert o.objective_id o c.objectives })

-- The objective keeps the domain as it was given.
unfoldable pub propose_objective :
    String
    → String
    → String
    → String
    → List String
    → ℤ
    → ContinuousIntelligence
    → Result StudyError StudyObjective × ContinuousIntelligence
unfolding proposed_objective
propose_objective objective_id domain title question target_competencies priority c =
    proposed_objective
      (record {
        objective_id = objective_id;
        domain = domain;
        title = title;
        question = question;
        target_competencies = target_competencies;
        priority = priority;
        status = proposed;
      })
      (discover_domain domain c)

abbrev pub has_objective : String → ContinuousIntelligence → Bool
has_objective k c = is_some (lookup k c.objectives)

unfoldable pub record_evidence :
    Evidence → ContinuousIntelligence → Result StudyError Evidence × ContinuousIntelligence
record_evidence e c =
    if not (has_objective e.objective_id c)
    then (err (unknown_objective e.objective_id), c)
    else if is_blank e.reference
    then (err reference_required, c)
    else if not (unit_range e.strength)
    then (err strength_range, c)
    else (ok e, record c { evidence = insert e.evidence_id e c.evidence })

unfoldable pub propose_experiment :
    Experiment → ContinuousIntelligence → Result StudyError Experiment × ContinuousIntelligence
propose_experiment x c =
    if not (has_objective x.objective_id c)
    then (err (unknown_objective x.objective_id), c)
    else if is_blank x.hypothesis || is_blank x.method
    then (err hypothesis_and_method_required, c)
    else (ok x, record c { experiments = insert x.experiment_id x c.experiments })

-- Seven tenths.
abbrev pub passes : ℤ → Bool
passes score = leb_ℤ (pos 700000) score

unfoldable pub evaluate :
    String
    → String
    → ℤ
    → List String
    → ContinuousIntelligence
    → Result StudyError Evaluation × ContinuousIntelligence
evaluate evaluation_id objective_id score evidence_refs c =
    let evaluation : Evaluation = record {
      evaluation_id = evaluation_id;
      objective_id = objective_id;
      status = if passes score then passed else failed;
      score = score;
      evidence_refs = evidence_refs;
    } in
    if not (has_objective objective_id c)
    then (err (unknown_objective objective_id), c)
    else if not (unit_range score)
    then (err score_range, c)
    else if not (all_known c.evidence evidence_refs)
    then (err unknown_evidence, c)
    else (ok evaluation, record c { evaluations = insert evaluation_id evaluation c.evaluations })

unfoldable pub validate_capability :
    String
    → String
    → String
    → List String
    → List String
    → ContinuousIntelligence
    → Result StudyError Capability × ContinuousIntelligence
validate_capability capability_id name domain required_competencies evidence_refs c =
    let capability : Capability = record {
      capability_id = capability_id;
      name = name;
      domain = domain;
      required_competencies = required_competencies;
      evidence_refs = evidence_refs;
      is_validated = true;
    } in
    if is_blank name || is_blank domain
    then (err name_and_domain_required, c)
    else if no_refs evidence_refs
    then (err evidence_required, c)
    else if not (all_known c.evidence evidence_refs)
    then (err unknown_evidence, c)
    else (ok capability, record c { capabilities = insert capability_id capability c.capabilities })

abbrev pub is_superseded : KnowledgeState → Bool
is_superseded superseded = true
is_superseded _ = false

recorded_item :
    KnowledgeItem
    → Result StudyError String × ContinuousIntelligence
    → Result StudyError KnowledgeItem × ContinuousIntelligence
recorded_item k (err e, c) = (err e, c)
recorded_item k (ok d, c) =
    if is_blank k.claim || no_refs k.evidence_refs
    then (err claim_and_evidence_required, c)
    else if not (unit_range k.confidence)
    then (err confidence_range, c)
    else if not (all_known c.evidence k.evidence_refs)
    then (err unknown_evidence, c)
    else if is_superseded k.state && is_empty (or_default k.supersedes "")
    then (err predecessor_required, c)
    else (ok k, record c { knowledge = insert k.knowledge_id k c.knowledge })

unfoldable pub record_knowledge :
    KnowledgeItem
    → ContinuousIntelligence
    → Result StudyError KnowledgeItem × ContinuousIntelligence
unfolding recorded_item
record_knowledge k c = recorded_item k (discover_domain k.domain c)
