-- ===== src/Learning/Study/Kept.antt =====
-- The invariant of the registry of studies, and what keeps it.
use aurelix.Base.{
  Bool-cases, is_blank, is_blank, true, ◌≡◌, ◌≢◌, refl, arith, List, [], ◌∷◌, String, if◌then◌else◌,
  Dict, lookup, insert, is_some, AllValues, AllValues-insert, AllValues-map, lookup-insert,
  Bool-cases, inl, inr, string_eq,
}
use aurelix.Learning.Study.{
  StudyObjective, Evidence, Experiment, Evaluation, passed, failed, Capability, KnowledgeItem,
  ContinuousIntelligence, unit_range, all_known, discover_domain, has_objective, passes,
}

abbrev pub Backed : Dict Evidence → List String → Type 0
Backed d refs = (refs ≢ []) × (all_known d refs ≡ true)

-- Evidence, experiments and evaluations are of known objectives; what is evaluated, validated or recorded as
-- knowledge refers to known evidence, which is there for a capability and for an item of knowledge.
pub record IsSound (c : ContinuousIntelligence) : Type 0 where
  pub evidence_known :
      AllValues
        (λ (e : Evidence). (has_objective e.objective_id c ≡ true) × (unit_range e.strength ≡ true))
        c.evidence
  pub experiments_known :
      AllValues (λ (x : Experiment). has_objective x.objective_id c ≡ true) c.experiments
  pub evaluations_known :
      AllValues
        (λ (v : Evaluation).
          (has_objective v.objective_id c ≡ true)
          × (all_known c.evidence v.evidence_refs ≡ true)
          × (v.status ≡ (if passes v.score then passed else failed)))
        c.evaluations
  pub capabilities_backed :
      AllValues
        (λ (a : Capability). Backed c.evidence a.evidence_refs × (a.is_validated ≡ true))
        c.capabilities
  pub knowledge_backed :
      AllValues
        (λ (k : KnowledgeItem).
          Backed c.evidence k.evidence_refs × (unit_range k.confidence ≡ true))
        c.knowledge

is_some-insert :
    {V : Type 0} (k j : String) (v : V) (d : Dict V)
    → is_some (lookup j d) ≡ true
    → is_some (lookup j (insert k v d)) ≡ true
is_some-insert k j v d h = ground (arith, lookup-insert k j v d)

all_known-insert :
    (k : String) (e : Evidence) (d : Dict Evidence) (refs : List String)
    → all_known d refs ≡ true
    → all_known (insert k e d) refs ≡ true
all_known-insert k e d [] h = refl
all_known-insert k e d (r ∷ rs) h =
    ground (arith, is_some-insert k r e d, all_known-insert k e d rs)

pub domains-IsSound :
    (ds : List String) (c : ContinuousIntelligence)
    → IsSound c
    → IsSound (record c { domains = ds })
domains-IsSound ds c h = record {
  evidence_known = h.evidence_known;
  experiments_known = h.experiments_known;
  evaluations_known = h.evaluations_known;
  capabilities_backed = h.capabilities_backed;
  knowledge_backed = h.knowledge_backed;
}

pub discover_domain-IsSound :
    (domain : String) (c : ContinuousIntelligence)
    → IsSound c
    → IsSound (discover_domain domain c).1
unfolding discover_domain
discover_domain-IsSound domain c h = elim (Bool-cases (is_blank domain)) [
  | inl refused ↦ rw (discover_domain, refused) h
  | inr given ↦ rw (discover_domain, given) (domains-IsSound _ c h)
]

pub objective-IsSound :
    (k : String) (o : StudyObjective) (c : ContinuousIntelligence)
    → IsSound c
    → IsSound (record c { objectives = insert k o c.objectives })
objective-IsSound k o c h = record {
  evidence_known =
      AllValues-map _ _ c.evidence
        (λ e p. (is_some-insert k e.objective_id o c.objectives p.0, p.1)) h.evidence_known;
  experiments_known =
      AllValues-map _ _ c.experiments (λ x p. is_some-insert k x.objective_id o c.objectives p)
        h.experiments_known;
  evaluations_known =
      AllValues-map _ _ c.evaluations
        (λ v p. (is_some-insert k v.objective_id o c.objectives p.0, p.1, p.2)) h.evaluations_known;
  capabilities_backed = h.capabilities_backed;
  knowledge_backed = h.knowledge_backed;
}

pub evidence-IsSound :
    (k : String) (e : Evidence) (c : ContinuousIntelligence)
    → has_objective e.objective_id c ≡ true
    → unit_range e.strength ≡ true
    → IsSound c
    → IsSound (record c { evidence = insert k e c.evidence })
evidence-IsSound k e c known range h = record {
  evidence_known = AllValues-insert _ k e c.evidence (known, range) h.evidence_known;
  experiments_known = h.experiments_known;
  evaluations_known =
      AllValues-map _ _ c.evaluations
        (λ v p. (p.0, all_known-insert k e c.evidence v.evidence_refs p.1, p.2))
        h.evaluations_known;
  capabilities_backed =
      AllValues-map _ _ c.capabilities
        (λ a p. ((p.0.0, all_known-insert k e c.evidence a.evidence_refs p.0.1), p.1))
        h.capabilities_backed;
  knowledge_backed =
      AllValues-map _ _ c.knowledge
        (λ i p. ((p.0.0, all_known-insert k e c.evidence i.evidence_refs p.0.1), p.1))
        h.knowledge_backed;
}
