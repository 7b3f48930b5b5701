-- ===== src/Examples/Studied.antt =====
-- The learning side on concrete inputs.
use aurelix.Base.{
  String, true, false, ◌≡◌, ◌≢◌, refl, arith, List, [], ◌∷◌, ok, All, is_blank, strip,
}
use aurelix.Base.Int.{pos}
use aurelix.Learning.Study.{
  StudyObjective, Evidence, Capability, ContinuousIntelligence, proposed, source, propose_objective,
  proposed_objective, discover_domain,
}
use aurelix.Learning.Study.Kept.{IsSound}
use aurelix.Learning.Study.Sound.{
  StudyCall, objective_call, evidence_call, evaluate_call, capability_call, studies,
  studies-IsSound,
}
use aurelix.Learning.Escalation.{CapabilityGap, CapabilityEscalator, escalate, by_existing, new_gap}
use aurelix.Learning.Escalation.Repeated.{escalate_again}
use aurelix.Learning.Adaptive.{
  AdaptiveMission, AdaptiveLoop, resume_ready, resumed, can_resume, capability_validated,
}
use aurelix.Learning.Adaptive.Resumed.{IsLearned, resume_ready-IsLearned}
use aurelix.Learning.Providers.{
  CapabilityProvider, CapabilityControlPlane, agent, select, resolve, normalize, resolve_among,
  selected,
}
use aurelix.Learning.Providers.Selected.{In, AtMost, providers_of, select-first}

abbrev nothing_known : ContinuousIntelligence
nothing_known = record {
  objectives = [];
  evidence = [];
  experiments = [];
  evaluations = [];
  capabilities = [];
  knowledge = [];
  domains = [];
}

nothing_known-IsSound : IsSound nothing_known
nothing_known-IsSound = record {
  evidence_known = tt;
  experiments_known = tt;
  evaluations_known = tt;
  capabilities_backed = tt;
  knowledge_backed = tt;
}

abbrev reading : Evidence
reading = record {
  evidence_id = "e1";
  objective_id = "o1";
  kind = source;
  reference = "a book";
  strength = pos 800000;
  notes = "";
}

abbrev calls : List StudyCall
calls =
    evidence_call reading
    ∷ objective_call "o1" "cooking" "Cook" "How?" ("cook" ∷ []) (pos 500000)
    ∷ evidence_call reading
    ∷ evaluate_call "v1" "o1" (pos 700000) ("e1" ∷ [])
    ∷ capability_call "c1" "cook" "cooking" ("cook" ∷ []) ("e1" ∷ [])
    ∷ []

studies-IsSound_example : IsSound (studies calls nothing_known)
studies-IsSound_example = studies-IsSound calls nothing_known nothing_known-IsSound

abbrev objective : StudyObjective
objective = record {
  objective_id = "o1";
  domain = "cooking";
  title = "Cook";
  question = "How?";
  target_competencies = "cook" ∷ [];
  priority = pos 500000;
  status = proposed;
}

abbrev cook : Capability
cook = record {
  capability_id = "c1";
  name = "cook";
  domain = "cooking";
  required_competencies = "cook" ∷ [];
  evidence_refs = "e1" ∷ [];
  is_validated = true;
}

abbrev learned : ContinuousIntelligence
learned = record nothing_known {
  objectives = ("o1", objective) ∷ [];
  evidence = ("e1", reading) ∷ [];
  capabilities = ("c1", cook) ∷ [];
}

some_refs : ◌≢◌ {A = List String} ("e1" ∷ []) []
some_refs = λ e. ground (arith, e)

learned-IsSound : IsSound learned
learned-IsSound = record {
  evidence_known = ((refl, refl), tt);
  experiments_known = tt;
  evaluations_known = tt;
  capabilities_backed = (((some_refs, refl), refl), tt);
  knowledge_backed = tt;
}

abbrev dinner : AdaptiveMission
dinner = record {
  execution_id = "m1";
  objective = "dinner";
  required_capabilities = "cook" ∷ [];
  blocked = true;
  capability_gap_ids = "g1" ∷ [];
}

abbrev kitchen : AdaptiveLoop
kitchen = record {
  escalator = record { intelligence = learned; gaps = []; by_key = [] };
  missions = ("m1", dinner) ∷ [];
  capability_missions = [];
}

abbrev same : String → String
same s = s

dinner-resumes : (resume_ready same "m1" kitchen).0 ≡ ok (record dinner { blocked = false })
unfolding resume_ready resumed can_resume capability_validated
dinner-resumes = refl

resume_ready-IsLearned_example :
    (false ≡ false)
    × ("cook" ∷ [] ≡ dinner.required_capabilities)
    × All (IsLearned same kitchen) ("cook" ∷ [])
resume_ready-IsLearned_example =
    resume_ready-IsLearned same "m1" kitchen dinner (record dinner { blocked = false })
      learned-IsSound refl dinner-resumes

abbrev asking : CapabilityEscalator
asking = record { intelligence = nothing_known; gaps = []; by_key = [] }

abbrev gap : CapabilityGap
gap = record {
  gap_id = "g1";
  capability = "cook";
  reason = "no recipe";
  requested_by = "chef";
  study_objective_id = "o1";
}

abbrev wanted : StudyObjective
wanted = record {
  objective_id = "o1";
  domain = "capability-development";
  title = "Learn capability: cook";
  question = "How can AURELIX perform 'cook' safely and reliably? Current gap: no recipe";
  target_competencies = "cook" ∷ [];
  priority = pos 800000;
  status = proposed;
}

first_time :
    (escalate same "o1" "g1" "cook" "no recipe" "chef" (pos 800000) asking).0 ≡ ok (gap, wanted)
unfolding escalate by_existing new_gap propose_objective proposed_objective discover_domain is_blank
    strip
first_time = refl

escalate_again_example :
    escalate same "o2" "g2" " cook" "no recipe" "waiter"
      (pos 100000)
      (escalate same "o1" "g1" "cook" "no recipe" "chef" (pos 800000) asking).1
    ≡ (ok (gap, wanted), (escalate same "o1" "g1" "cook" "no recipe" "chef" (pos 800000) asking).1)
unfolding is_blank strip
escalate_again_example =
    escalate_again same "o1" "g1" "o2" "g2" "cook" "no recipe" "chef" " cook" "no recipe" "waiter"
      (pos 800000) (pos 100000) asking gap wanted first_time refl refl

abbrev provider : CapabilityProvider
provider = record {
  provider_id = "p1";
  capability = "cook";
  kind = agent;
  enabled = true;
  available = true;
  authorized = true;
  priority = pos 2;
}

abbrev providers : CapabilityControlPlane
providers =
    (
      "cook",
      ("p0", record provider { provider_id = "p0"; priority = pos 1 }) ∷ ("p1", provider) ∷ [],
    )
    ∷ []

provider-selected : select same "cook" providers ≡ ok provider
unfolding select resolve normalize resolve_among selected
provider-selected = refl

select-first_example :
    In provider (providers_of same "cook" providers)
    × ((true ≡ true) × (true ≡ true) × (true ≡ true))
    × All
        (λ q. q.enabled ≡ true → q.authorized ≡ true → q.available ≡ true → AtMost provider q)
        (providers_of same "cook" providers)
select-first_example = select-first same "cook" providers provider provider-selected
