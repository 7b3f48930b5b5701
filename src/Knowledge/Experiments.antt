-- ===== src/Knowledge/Experiments.antt =====
-- src/aurelix_core/experiments.py. The uuid4 of a new experiment is an argument, and a budget is an
-- integer in its smallest unit.
use aurelix.Base.{
  false, ◌≡◌, ◌≢◌, refl, inl, inr, Bool-cases, arith, Option, none, some, String, Result, ok, err,
  if◌then◌else◌, Dict, lookup, insert, AllValues, AllValues-insert, AllValues-lookup, List, [], ◌∷◌,
}
use aurelix.Base.Int.{ℤ, pos, ltb_ℤ}

pub data ExperimentStatus : Type 0 where
  proposed approved running completed blocked cancelled : ExperimentStatus

pub record Experiment : Type 0 where
  pub experiment_id : String
  pub opportunity_id : String
  pub objective : String
  pub sandbox : String
  pub success_metric : String
  pub budget_eur : ℤ
  pub status : ExperimentStatus

pub data ExperimentError : Type 0 where
  budget_negative : ExperimentError
  unknown_experiment : String → ExperimentError

-- The service's dictionary `_items`.
abbrev pub ExperimentService : Type 0
ExperimentService = Dict Experiment

unfoldable pub propose :
    String
    → String
    → String
    → String
    → String
    → ℤ
    → ExperimentService
    → Result ExperimentError Experiment × ExperimentService
propose experiment_id opportunity_id objective sandbox success_metric budget_eur items =
    let item : Experiment = record {
      experiment_id = experiment_id;
      opportunity_id = opportunity_id;
      objective = objective;
      sandbox = sandbox;
      success_metric = success_metric;
      budget_eur = budget_eur;
      status = proposed;
    } in
    if ltb_ℤ budget_eur (pos 0)
    then (err budget_negative, items)
    else (ok item, insert experiment_id item items)

unfoldable pub get : String → ExperimentService → Result ExperimentError Experiment
get experiment_id items = elim (lookup experiment_id items) [
  | none ↦ err (unknown_experiment experiment_id)
  | some item ↦ ok item
]

-- What `mark_blocked` and `mark_completed` share: the stored experiment with another status.
mark :
    ExperimentStatus
    → String
    → ExperimentService
    → Option Experiment
    → Result ExperimentError Experiment × ExperimentService
mark status experiment_id items none = (err (unknown_experiment experiment_id), items)
mark status experiment_id items (some current) =
    let updated : Experiment = record current { status = status } in
    (ok updated, insert experiment_id updated items)

unfoldable pub mark_blocked :
    String → ExperimentService → Result ExperimentError Experiment × ExperimentService
unfolding mark
mark_blocked experiment_id items = mark blocked experiment_id items (lookup experiment_id items)

unfoldable pub mark_completed :
    String → ExperimentService → Result ExperimentError Experiment × ExperimentService
unfolding mark
mark_completed experiment_id items = mark completed experiment_id items (lookup experiment_id items)

pub data ExperimentCall : Type 0 where
  propose_call : String → String → String → String → String → ℤ → ExperimentCall
  blocked_call completed_call : String → ExperimentCall

pub step : ExperimentCall → ExperimentService → ExperimentService
unfolding propose mark_blocked mark_completed
step (propose_call i o j s m b) items = (propose i o j s m b items).1
step (blocked_call i) items = (mark_blocked i items).1
step (completed_call i) items = (mark_completed i items).1

pub steps : List ExperimentCall → ExperimentService → ExperimentService
unfolding step
steps [] items = items
steps (call ∷ calls) items = steps calls (step call items)

-- What the service promises of an experiment: its budget is not negative, and it never runs by
-- itself.
pub record IsSound (e : Experiment) : Type 0 where
  pub budgeted : ltb_ℤ e.budget_eur (pos 0) ≡ false
  pub never_run : (e.status ≢ running) × (e.status ≢ approved)

mark-IsSound :
    (status : ExperimentStatus) (i : String) (items : ExperimentService) (found : Option Experiment)
    → (status ≢ running) × (status ≢ approved)
    → ((e : Experiment) → found ≡ some e → IsSound e)
    → AllValues IsSound items
    → AllValues IsSound (mark status i items found).1
unfolding mark
mark-IsSound status i items none h sound all = all
mark-IsSound status i items (some e) h sound all =
    AllValues-insert IsSound i (record e { status = status }) items
      (record { budgeted = (sound e refl).budgeted; never_run = h }) all

step-IsSound :
    (call : ExperimentCall) (items : ExperimentService)
    → AllValues IsSound items
    → AllValues IsSound (step call items)
unfolding step propose mark_blocked mark_completed
step-IsSound (propose_call i o j s m b) items all =
    let item : Experiment = record {
      experiment_id = i;
      opportunity_id = o;
      objective = j;
      sandbox = s;
      success_metric = m;
      budget_eur = b;
      status = proposed;
    } in
    elim (Bool-cases (ltb_ℤ b (pos 0))) [
      | inl negative ↦ rw (AllValues, negative) all
      | inr fits ↦
          rw (AllValues, fits)
            (AllValues-insert IsSound i item items
              (record { budgeted = fits; never_run = ground arith }) all)
    ]
step-IsSound (blocked_call i) items all =
    mark-IsSound blocked i items (lookup i items) (ground arith)
      (λ e. AllValues-lookup IsSound i e items all) all
step-IsSound (completed_call i) items all =
    mark-IsSound completed i items (lookup i items) (ground arith)
      (λ e. AllValues-lookup IsSound i e items all) all

-- Whatever is called on a sound service, every experiment it holds has a budget that is not negative
-- and is neither approved nor running.
pub steps-AllSound :
    (calls : List ExperimentCall) (items : ExperimentService)
    → AllValues IsSound items
    → AllValues IsSound (steps calls items)
unfolding steps
steps-AllSound [] items all = all
steps-AllSound (call ∷ calls) items all =
    steps-AllSound calls (step call items) (step-IsSound call items all)
