-- ===== src/Runtime/Trials.antt =====
-- The experiments of AurelixRuntime in src/aurelix_runtime/runtime.py: the tables `experiments` and
-- `observations`, and `submit_experiment`. Criteria, results and observations are documents. Ids and
-- times are arguments; rows of equal times stay in the order of insertion.
pub mod Stored
use aurelix.Base.{
  ℕ, String, Bool, true, false, ◌&&◌, ◌||◌, not, Option, none, some, List, [], ◌∷◌, ◌++◌, any_of,
  keep, map, leb, if◌then◌else◌, ◌==◌, string_eq, Result, ok, err, is_some,
}
use aurelix.Governance.Audit.{text}
use aurelix.Store.Tables.{
  is_queued, is_running, is_completed, Job, JobRecord, RuntimeStore, StoreError, record_of, enqueue,
  audit,
}
use aurelix.Runtime.Handlers.{AurelixRuntime, is_registered}

pub record Experiment (D : Type 0) : Type 0 where
  pub id : String
  pub hypothesis : String
  pub success_criteria : D
  pub status : String
  pub result : Option D

-- A row of the table `experiments`.
pub record ExperimentRow (D : Type 0) : Type 0 where
  pub experiment : Experiment D
  pub created_at : ℕ
  pub updated_at : ℕ

-- A row of the table `observations`.
pub record ObservationRow (D : Type 0) : Type 0 where
  pub id : String
  pub experiment_id : String
  pub observation : D
  pub recorded_at : ℕ

pub record Tables (D : Type 0) : Type 0 where
  pub store : RuntimeStore D
  pub experiments : List (ExperimentRow D)
  pub observations : List (ObservationRow D)

pub data TrialError : Type 0 where
  experiment_not_found unregistered_kind : String → TrialError
  duplicate_observation : TrialError
  store_error : StoreError → TrialError

module _ {D : Type 0} where
  abbrev pub is_complete : Experiment D → Bool
  is_complete e = e.status == "complete"

  -- `ON CONFLICT(experiment_id) DO UPDATE`: what is complete keeps its status and its result.
  abbrev pub merged : Experiment D → ℕ → ExperimentRow D → ExperimentRow D
  merged e now r = record r {
    experiment = record e {
      status = if is_complete r.experiment then r.experiment.status else e.status;
      result = if is_complete r.experiment then r.experiment.result else e.result;
    };
    updated_at = now;
  }

  abbrev pub upsert : Experiment D → ℕ → List (ExperimentRow D) → List (ExperimentRow D)
  upsert e now [] = record { experiment = e; created_at = now; updated_at = now } ∷ []
  upsert e now (r ∷ rs) =
      if r.experiment.id == e.id then merged e now r ∷ rs else r ∷ upsert e now rs

  unfoldable pub register_experiment : Experiment D → ℕ → Tables D → Tables D
  register_experiment e now t = record t { experiments = upsert e now t.experiments }

  unfoldable pub record_observation :
      String → String → D → ℕ → Tables D → Result TrialError String × Tables D
  record_observation observation_id experiment_id observation now t =
      if any_of (λ (o : ObservationRow D). o.id == observation_id) t.observations
      then (err duplicate_observation, t)
      else (
        ok observation_id,
        record t {
          observations =
              t.observations
              ++ (record {
                id = observation_id;
                experiment_id = experiment_id;
                observation = observation;
                recorded_at = now;
              }
                  ∷ []);
        },
      )

  -- `ORDER BY recorded_at`
  abbrev place_observation : ObservationRow D → List (ObservationRow D) → List (ObservationRow D)
  place_observation o [] = o ∷ []
  place_observation o (p ∷ ps) =
      if leb o.recorded_at p.recorded_at then o ∷ p ∷ ps else p ∷ place_observation o ps

  abbrev by_recorded_at : List (ObservationRow D) → List (ObservationRow D)
  by_recorded_at [] = []
  by_recorded_at (o ∷ os) = place_observation o (by_recorded_at os)

  unfoldable pub query_experiment_observations : String → Tables D → List D
  query_experiment_observations experiment_id t =
      map (λ (o : ObservationRow D). o.observation)
        (by_recorded_at
          (keep (λ (o : ObservationRow D). o.experiment_id == experiment_id) t.observations))

  -- `ORDER BY created_at DESC`
  abbrev pub place_row : ExperimentRow D → List (ExperimentRow D) → List (ExperimentRow D)
  place_row r [] = r ∷ []
  place_row r (x ∷ xs) = if leb x.created_at r.created_at then r ∷ x ∷ xs else x ∷ place_row r xs

  abbrev pub newest_first : List (ExperimentRow D) → List (ExperimentRow D)
  newest_first [] = []
  newest_first (r ∷ rs) = place_row r (newest_first rs)

  -- Without a status, and with the empty one, every experiment is listed.
  abbrev with_status : Option String → ExperimentRow D → Bool
  with_status none r = true
  with_status (some s) r = if s == "" then true else r.experiment.status == s

  unfoldable pub query_experiments : Option String → Tables D → List (ExperimentRow D)
  query_experiments status t = newest_first (keep (with_status status) t.experiments)

  abbrev pub first_match : String → List (ExperimentRow D) → Option (ExperimentRow D)
  first_match k [] = none
  first_match k (r ∷ rs) = if r.experiment.id == k then some r else first_match k rs

  unfoldable pub get_experiment : String → Tables D → Result TrialError (Experiment D)
  unfolding query_experiments
  get_experiment experiment_id t = elim (first_match experiment_id (query_experiments none t)) [
    | none ↦ err (experiment_not_found experiment_id)
    | some r ↦ ok r.experiment
  ]

-- `experiment_of` reads `$.experiment_id` of a payload, and `payload_for` is `{"experiment_id": …}`.
module _ {D : Type 0} (experiment_of : D → Option String) (payload_for : String → D) where
  abbrev pub runs_experiment : String → Job D → Bool
  runs_experiment experiment_id r =
      r.name == "experiment.run"
      && (elim (experiment_of r.payload) [ none ↦ false | some e ↦ e == experiment_id ])

  abbrev later : Job D → Option (Job D) → Job D
  later r none = r
  later r (some b) = if leb b.created_at r.created_at then r else b

  -- `ORDER BY created_at DESC LIMIT 1`
  abbrev newest_job : List (Job D) → Option (Job D)
  newest_job [] = none
  newest_job (r ∷ rs) = some (later r (newest_job rs))

  unfoldable pub find_experiment_job : String → RuntimeStore D → Option (JobRecord D)
  find_experiment_job experiment_id s =
      elim (newest_job (keep (runs_experiment experiment_id) s.jobs)) [
        | none ↦ none
        | some r ↦ some (record_of r)
      ]

  abbrev pub queue_event : Bool → String
  queue_event again = if again then "experiment.requeued" else "experiment.queued"

  -- `enqueue` and its audit event; `previous` is the job that the new one follows.
  queued_experiment :
      String
      → Option String
      → String
      → ℕ
      → Result StoreError (JobRecord D) × RuntimeStore D
      → Tables D
      → Result TrialError String × Tables D
  queued_experiment experiment_id previous event_id now (err e, s) t =
      (err (store_error e), record t { store = s })
  queued_experiment experiment_id previous event_id now (ok r, s) t = (
    ok r.job_id,
    record t {
      store =
          audit event_id (queue_event (is_some previous)) "runtime" r.job_id "queued"
            (("experiment_id", text experiment_id)
              ∷ (elim previous [ none ↦ [] | some j ↦ ("previous_job_id", text j) ∷ [] ]))
            now s;
    },
  )

  -- The tests of `submit_experiment` on the job that it finds: true for another run.
  abbrev pub reruns : Experiment D → JobRecord D → Bool
  reruns persisted existing =
      if is_complete persisted && is_some persisted.result
      then false
      else if is_queued existing.status || is_running existing.status
      then false
      else persisted.status == "awaiting_measurement" && is_completed existing.status

  submit_persisted :
      String
      → String
      → String
      → String
      → ℕ
      → JobRecord D
      → Result TrialError (Experiment D)
      → Tables D
      → Result TrialError String × Tables D
  unfolding queued_experiment
  submit_persisted experiment_id kind job_id event_id now existing (err e) t = (err e, t)
  submit_persisted experiment_id kind job_id event_id now existing (ok persisted) t =
      if reruns persisted existing
      then queued_experiment experiment_id (some existing.job_id) event_id now
          (enqueue job_id kind (payload_for experiment_id) now t.store) t
      else (ok existing.job_id, t)

  submit_found :
      Experiment D
      → String
      → String
      → String
      → ℕ
      → Option (JobRecord D)
      → Tables D
      → Result TrialError String × Tables D
  unfolding submit_persisted
  submit_found e kind job_id event_id now none t =
      queued_experiment e.id none event_id now (enqueue job_id kind (payload_for e.id) now t.store)
        t
  submit_found e kind job_id event_id now (some existing) t =
      submit_persisted e.id kind job_id event_id now existing (get_experiment e.id t) t

  unfoldable pub submit_experiment :
      AurelixRuntime D
      → Experiment D
      → String
      → String
      → String
      → ℕ
      → Tables D
      → Result TrialError String × Tables D
  unfolding submit_found
  submit_experiment rt e kind job_id event_id now t =
      let registered = register_experiment e now t in
      if not (is_registered kind rt)
      then (err (unregistered_kind kind), t)
      else submit_found e kind job_id event_id now (find_experiment_job e.id t.store) registered
