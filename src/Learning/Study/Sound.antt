-- ===== src/Learning/Study/Sound.antt =====
-- What the registry of studies keeps.
use aurelix.Base.{
  Bool-cases, is_blank, is_empty, or_default, is_blank, ◌&&◌, ◌||◌, refl, arith, List, [], ◌∷◌,
  String, Result, ok, err, AllValues-insert, Bool-cases, inl, inr, string_eq,
}
use aurelix.Base.Int.{ℤ}
use aurelix.Learning.Study.{
  is_superseded, no_refs, proposed, StudyObjective, Evidence, Experiment, KnowledgeItem,
  ContinuousIntelligence, StudyError, unit_range, all_known, discover_domain, propose_objective,
  proposed_objective, has_objective, record_evidence, propose_experiment, evaluate,
  validate_capability, record_knowledge, recorded_item,
}
use aurelix.Learning.Study.Kept.{
  IsSound, discover_domain-IsSound, objective-IsSound, evidence-IsSound,
}

-- The calls of the registry.
pub data StudyCall : Type 0 where
  discover_call : (domain : String) → StudyCall
  objective_call :
      (objective_id domain title question : String) (competencies : List String) (priority : ℤ)
      → StudyCall
  evidence_call : Evidence → StudyCall
  experiment_call : Experiment → StudyCall
  evaluate_call : (evaluation_id objective_id : String) (score : ℤ) (refs : List String) → StudyCall
  capability_call :
      (capability_id name domain : String) (competencies refs : List String) → StudyCall
  knowledge_call : KnowledgeItem → StudyCall

unfoldable pub study : StudyCall → ContinuousIntelligence → ContinuousIntelligence
study (discover_call domain) c = (discover_domain domain c).1
study (objective_call id domain title question cs priority) c =
    (propose_objective id domain title question cs priority c).1
study (evidence_call e) c = (record_evidence e c).1
study (experiment_call x) c = (propose_experiment x c).1
study (evaluate_call id objective score refs) c = (evaluate id objective score refs c).1
study (capability_call id name domain cs refs) c = (validate_capability id name domain cs refs c).1
study (knowledge_call k) c = (record_knowledge k c).1

unfoldable pub studies : List StudyCall → ContinuousIntelligence → ContinuousIntelligence
unfolding study
studies [] c = c
studies (x ∷ xs) c = studies xs (study x c)

proposed_objective-IsSound :
    (o : StudyObjective) (r : Result StudyError String × ContinuousIntelligence)
    → IsSound r.1
    → IsSound (proposed_objective o r).1
unfolding proposed_objective
proposed_objective-IsSound o (err e, c) h = h
proposed_objective-IsSound o (ok d, c) h =
    elim (Bool-cases (is_blank o.title || is_blank o.question)) [
      | inl refused ↦ rw (proposed_objective, refused) h
      | inr stated ↦ elim (Bool-cases (unit_range o.priority)) [
        | inr refused ↦ rw (proposed_objective, stated, refused) h
        | inl range ↦
            rw (proposed_objective, stated, range) (objective-IsSound o.objective_id o c h)
      ]
    ]

recorded_item-IsSound :
    (k : KnowledgeItem) (r : Result StudyError String × ContinuousIntelligence)
    → IsSound r.1
    → IsSound (recorded_item k r).1
unfolding recorded_item
recorded_item-IsSound k (err e, c) h = h
recorded_item-IsSound k (ok d, c) h =
    elim (Bool-cases (is_blank k.claim || no_refs k.evidence_refs)) [
      | inl refused ↦ rw (recorded_item, refused) h
      | inr stated ↦ elim (Bool-cases (unit_range k.confidence)) [
        | inr refused ↦ rw (recorded_item, stated, refused) h
        | inl range ↦ elim (Bool-cases (all_known c.evidence k.evidence_refs)) [
          | inr refused ↦ rw (recorded_item, stated, range, refused) h
          | inl known ↦
              elim (Bool-cases (is_superseded k.state && is_empty (or_default k.supersedes ""))) [
                | inl refused ↦ rw (recorded_item, stated, range, known, refused) h
                | inr preceded ↦
                    rw (recorded_item, stated, range, known, preceded)
                      (record {
                        evidence_known = h.evidence_known;
                        experiments_known = h.experiments_known;
                        evaluations_known = h.evaluations_known;
                        capabilities_backed = h.capabilities_backed;
                        knowledge_backed =
                            AllValues-insert _ k.knowledge_id k c.knowledge
                              ((ground (arith, stated), known), range) h.knowledge_backed;
                      })
              ]
        ]
      ]
    ]

record_evidence-IsSound :
    (e : Evidence) (c : ContinuousIntelligence) → IsSound c → IsSound (record_evidence e c).1
unfolding record_evidence
record_evidence-IsSound e c h = elim (Bool-cases (has_objective e.objective_id c)) [
  | inr refused ↦ rw (record_evidence, refused) h
  | inl known ↦ elim (Bool-cases (is_blank e.reference)) [
    | inl refused ↦ rw (record_evidence, known, refused) h
    | inr stated ↦ elim (Bool-cases (unit_range e.strength)) [
      | inr refused ↦ rw (record_evidence, known, stated, refused) h
      | inl range ↦
          rw (record_evidence, known, stated, range)
            (evidence-IsSound e.evidence_id e c known range h)
    ]
  ]
]

propose_experiment-IsSound :
    (x : Experiment) (c : ContinuousIntelligence) → IsSound c → IsSound (propose_experiment x c).1
unfolding propose_experiment
propose_experiment-IsSound x c h = elim (Bool-cases (has_objective x.objective_id c)) [
  | inr refused ↦ rw (propose_experiment, refused) h
  | inl known ↦ elim (Bool-cases (is_blank x.hypothesis || is_blank x.method)) [
    | inl refused ↦ rw (propose_experiment, known, refused) h
    | inr stated ↦
        rw (propose_experiment, known, stated)
          (record {
            evidence_known = h.evidence_known;
            experiments_known =
                AllValues-insert _ x.experiment_id x c.experiments known h.experiments_known;
            evaluations_known = h.evaluations_known;
            capabilities_backed = h.capabilities_backed;
            knowledge_backed = h.knowledge_backed;
          })
  ]
]

evaluate-IsSound :
    (id objective : String) (score : ℤ) (refs : List String) (c : ContinuousIntelligence)
    → IsSound c
    → IsSound (evaluate id objective score refs c).1
unfolding evaluate
evaluate-IsSound id objective score refs c h = elim (Bool-cases (has_objective objective c)) [
  | inr refused ↦ rw (evaluate, refused) h
  | inl known ↦ elim (Bool-cases (unit_range score)) [
    | inr refused ↦ rw (evaluate, known, refused) h
    | inl range ↦ elim (Bool-cases (all_known c.evidence refs)) [
      | inr refused ↦ rw (evaluate, known, range, refused) h
      | inl refs_known ↦
          rw (evaluate, known, range, refs_known)
            (record {
              evidence_known = h.evidence_known;
              experiments_known = h.experiments_known;
              evaluations_known =
                  AllValues-insert _ id _ c.evaluations (known, refs_known, refl)
                    h.evaluations_known;
              capabilities_backed = h.capabilities_backed;
              knowledge_backed = h.knowledge_backed;
            })
    ]
  ]
]

validate_capability-IsSound :
    (id name domain : String) (cs refs : List String) (c : ContinuousIntelligence)
    → IsSound c
    → IsSound (validate_capability id name domain cs refs c).1
unfolding validate_capability
validate_capability-IsSound id name domain cs refs c h =
    elim (Bool-cases (is_blank name || is_blank domain)) [
      | inl refused ↦ rw (validate_capability, refused) h
      | inr stated ↦ elim (Bool-cases (no_refs refs)) [
        | inl refused ↦ rw (validate_capability, stated, refused) h
        | inr some_refs ↦ elim (Bool-cases (all_known c.evidence refs)) [
          | inr refused ↦ rw (validate_capability, stated, some_refs, refused) h
          | inl refs_known ↦
              rw (validate_capability, stated, some_refs, refs_known)
                (record {
                  evidence_known = h.evidence_known;
                  experiments_known = h.experiments_known;
                  evaluations_known = h.evaluations_known;
                  capabilities_backed =
                      AllValues-insert _ id _ c.capabilities
                        ((ground (arith, some_refs), refs_known), refl) h.capabilities_backed;
                  knowledge_backed = h.knowledge_backed;
                })
        ]
      ]
    ]

study-IsSound : (x : StudyCall) (c : ContinuousIntelligence) → IsSound c → IsSound (study x c)
unfolding study propose_objective record_knowledge
study-IsSound (discover_call domain) c h = discover_domain-IsSound domain c h
study-IsSound (objective_call id domain title question cs priority) c h =
    proposed_objective-IsSound
      (record {
        objective_id = id;
        domain = domain;
        title = title;
        question = question;
        target_competencies = cs;
        priority = priority;
        status = proposed;
      })
      (discover_domain domain c) (discover_domain-IsSound domain c h)
study-IsSound (evidence_call e) c h = record_evidence-IsSound e c h
study-IsSound (experiment_call x) c h = propose_experiment-IsSound x c h
study-IsSound (evaluate_call id objective score refs) c h =
    evaluate-IsSound id objective score refs c h
study-IsSound (capability_call id name domain cs refs) c h =
    validate_capability-IsSound id name domain cs refs c h
study-IsSound (knowledge_call k) c h =
    recorded_item-IsSound k (discover_domain k.domain c) (discover_domain-IsSound k.domain c h)

-- Whatever calls are made on a sound registry, refused ones among them, it stays sound.
pub studies-IsSound :
    (xs : List StudyCall) (c : ContinuousIntelligence) → IsSound c → IsSound (studies xs c)
unfolding studies
studies-IsSound [] c h = h
studies-IsSound (x ∷ xs) c h = studies-IsSound xs (study x c) (study-IsSound x c h)
