-- ===== src/Workers/Missions.antt =====
-- src/aurelix_runtime/mission_contracts.py. Of `constraints` the list under "blocked_reasons" is kept,
-- the one entry that the class writes; a piece of evidence is a value of `E`.
use aurelix.Base.{
  Bool, true, false, not, ◌≡◌, ◌≢◌, ◌↔◌, ◌⊎◌, refl, arith, List, [], ◌∷◌, ◌++◌, String, Result, ok,
  err, if◌then◌else◌, is_blank, contains, all_of, map, string_eq,
}

pub data MissionState : Type 0 where
  proposed planned running blocked completed failed : MissionState

pub record MissionTask : Type 0 where
  pub name : String
  pub owner : String
  pub purpose : String
  pub depends_on : List String
  pub evidence_required : List String

pub record EconomicMission (E : Type 0) : Type 0 where
  pub objective : String
  pub state : MissionState
  pub tasks : List MissionTask
  pub blocked_reasons : List String
  pub evidence : List E

pub data MissionError : Type 0 where
  objective_required unknown_dependencies not_planned evidence_missing : MissionError

abbrev task_name : MissionTask → String
task_name t = t.name

-- `not set(task.depends_on) - names`
abbrev known_in : List String → MissionTask → Bool
known_in names t = all_of (λ d. contains d names) t.depends_on

abbrev pub dependencies_known : List MissionTask → Bool
dependencies_known tasks = all_of (known_in (map task_name tasks)) tasks

abbrev is_planned : MissionState → Bool
is_planned planned = true
is_planned _ = false

abbrev no_evidence {ℓ} : {E : Type ℓ} → List E → Bool
no_evidence [] = true
no_evidence (e ∷ es) = false

-- A method: the mission comes back whether or not it raised.
abbrev pub Outcome : Type 0 → Type 0
Outcome E = Result MissionError (Unit {0}) × EconomicMission E

pub data MissionCall (E : Type 0) : Type 0 where
  plan_call : List MissionTask → MissionCall E
  start_call : MissionCall E
  block_call : String → MissionCall E
  complete_call : List E → MissionCall E

no_evidence-append {ℓ} :
    {A : Type ℓ} (xs ys : List A) → no_evidence ys ≡ false → no_evidence (xs ++ ys) ≡ false
no_evidence-append [] ys h = h
no_evidence-append (x ∷ xs) ys h = refl

module _ {E : Type 0} where
  unfoldable pub plan : List MissionTask → EconomicMission E → Outcome E
  plan tasks m =
      if is_blank m.objective
      then (err objective_required, m)
      else if not (dependencies_known tasks)
      then (err unknown_dependencies, m)
      else (ok tt, record m { tasks = tasks; state = planned })

  unfoldable pub start : EconomicMission E → Outcome E
  start m =
      if not (is_planned m.state)
      then (err not_planned, m)
      else (ok tt, record m { state = running })

  unfoldable pub block : String → EconomicMission E → Outcome E
  block reason m =
      (ok tt, record m { blocked_reasons = m.blocked_reasons ++ (reason ∷ []); state = blocked })

  unfoldable pub complete : List E → EconomicMission E → Outcome E
  complete evidence m =
      if no_evidence evidence
      then (err evidence_missing, m)
      else (ok tt, record m { evidence = m.evidence ++ evidence; state = completed })

  pub step : MissionCall E → EconomicMission E → EconomicMission E
  unfolding plan start block complete
  step (plan_call tasks) m = (plan tasks m).1
  step start_call m = (start m).1
  step (block_call reason) m = (block reason m).1
  step (complete_call evidence) m = (complete evidence m).1

  pub steps : List (MissionCall E) → EconomicMission E → EconomicMission E
  unfolding step
  steps [] m = m
  steps (call ∷ calls) m = steps calls (step call m)

  -- What a mission's state promises of the rest of it.
  pub record IsSound (m : EconomicMission E) : Type 0 where
    pub known : dependencies_known m.tasks ≡ true
    pub ready : (m.state ≡ planned) ⊎ (m.state ≡ running) → is_blank m.objective ≡ false
    pub proven : m.state ≡ completed → no_evidence m.evidence ≡ false
    pub explained : m.state ≡ blocked → no_evidence m.blocked_reasons ≡ false

  step-IsSound : (call : MissionCall E) (m : EconomicMission E) → IsSound m → IsSound (step call m)
  unfolding step plan start block complete
  step-IsSound (plan_call tasks) m h = record {
    known = ground (arith, h.known);
    ready = ground (arith, h.ready);
    proven = ground (arith, h.proven);
    explained = ground (arith, h.explained);
  }
  step-IsSound start_call m h = record {
    known = ground (arith, h.known);
    ready = ground (arith, h.ready);
    proven = ground (arith, h.proven);
    explained = ground (arith, h.explained);
  }
  step-IsSound (block_call reason) m h = record {
    known = h.known;
    ready = ground arith;
    proven = ground arith;
    explained = λ e. no_evidence-append m.blocked_reasons (reason ∷ []) refl;
  }
  step-IsSound (complete_call evidence) m h = record {
    known = ground (arith, h.known);
    ready = ground (arith, h.ready);
    proven = ground (arith, h.proven, no_evidence-append m.evidence evidence);
    explained = ground (arith, h.explained);
  }

  -- Whatever is called on a sound mission, in any order, it stays sound: its tasks depend on tasks of
  -- the mission only, a planned or running one has an objective, a completed one has evidence, and a
  -- blocked one has a reason.
  steps-IsSound :
      (calls : List (MissionCall E)) (m : EconomicMission E) → IsSound m → IsSound (steps calls m)
  unfolding steps
  steps-IsSound [] m h = h
  steps-IsSound (call ∷ calls) m h = steps-IsSound calls (step call m) (step-IsSound call m h)

  -- A new mission with an objective starts once it is planned with tasks that know their dependencies,
  -- and only then.
  pub start-plan_iff :
      (tasks : List MissionTask) (m : EconomicMission E)
      → m.state ≢ planned
      → ((start (plan tasks m).1).0 ≡ ok tt)
        ↔ ((is_blank m.objective ≡ false) × (dependencies_known tasks ≡ true))
  unfolding start plan
  start-plan_iff tasks m h = ground arith
