-- ===== src/Runtime/Trials/Stored.antt =====
-- What the table of experiments gives back.
use aurelix.Base.{
  ℕ, String, false, ◌≡◌, refl, arith, Option, none, some, List, [], ◌∷◌, keep, if◌then◌else◌, ◌==◌,
  string_eq, eq_iff, ok, Bool-cases, inl, inr,
}
use aurelix.Runtime.Trials.{
  Experiment, ExperimentRow, Tables, merged, upsert, register_experiment, place_row, newest_first,
  query_experiments, first_match, get_experiment, with_status, is_complete,
}

module _ {D : Type 0} where
  -- No two rows are of the same experiment.
  abbrev pub UniqueRows : List (ExperimentRow D) → Type 0
  UniqueRows [] = Unit
  UniqueRows (r ∷ rs) = (first_match r.experiment.id rs ≡ none) × UniqueRows rs

  -- What is read of an experiment once it is registered, by what the table held of it: the outcome of
  -- a complete experiment is final.
  abbrev pub held_after : Experiment D → Option (ExperimentRow D) → Experiment D
  held_after e none = e
  held_after e (some r) =
      if is_complete r.experiment
      then record e { status = r.experiment.status; result = r.experiment.result }
      else e

  first_match-place_row :
      (k : String) (r : ExperimentRow D) (xs : List (ExperimentRow D))
      → first_match r.experiment.id xs ≡ none
      → first_match k (place_row r xs) ≡ (if r.experiment.id == k then some r else first_match k xs)
  first_match-place_row k r [] h = refl
  first_match-place_row k r (x ∷ xs) h = ground (
    arith,
    first_match-place_row k r xs,
    eq_iff x.experiment.id k,
    eq_iff r.experiment.id k,
    eq_iff x.experiment.id r.experiment.id,
  )

  first_match-newest_first :
      (k : String) (rs : List (ExperimentRow D))
      → UniqueRows rs
      → first_match k (newest_first rs) ≡ first_match k rs
  first_match-newest_first k [] u = refl
  first_match-newest_first k (r ∷ rs) u = ground (
    arith,
    first_match-newest_first k rs u.1,
    first_match-newest_first r.experiment.id rs u.1,
    first_match-place_row k r (newest_first rs),
  )

  keep-with_status : (rs : List (ExperimentRow D)) → keep (with_status none) rs ≡ rs
  keep-with_status [] = refl
  keep-with_status (r ∷ rs) = ground (arith, keep-with_status rs)

  first_match-upsert :
      (e : Experiment D) (now : ℕ) (k : String) (rs : List (ExperimentRow D))
      → first_match k (upsert e now rs) ≡ (
          if e.id == k
          then some (elim (first_match k rs) [
            | none ↦ record { experiment = e; created_at = now; updated_at = now }
            | some r ↦ merged e now r
          ])
          else first_match k rs)
  first_match-upsert e now k [] = refl
  first_match-upsert e now k (r ∷ rs) = ground (
    arith,
    first_match-upsert e now k rs,
    eq_iff r.experiment.id k,
    eq_iff e.id k,
    eq_iff r.experiment.id e.id,
  )

  pub UniqueRows-upsert :
      (e : Experiment D) (now : ℕ) (rs : List (ExperimentRow D))
      → UniqueRows rs
      → UniqueRows (upsert e now rs)
  UniqueRows-upsert e now [] u = (refl, tt)
  UniqueRows-upsert e now (r ∷ rs) u = ground (
    arith,
    first_match-upsert e now r.experiment.id rs,
    UniqueRows-upsert e now rs u.1,
    eq_iff r.experiment.id e.id,
    eq_iff e.id r.experiment.id,
  )

  -- The row that an upsert leaves holds what the registration is to give.
  upserted-held_after :
      (e : Experiment D) (now : ℕ) (o : Option (ExperimentRow D))
      → (elim o as (λ _. ExperimentRow D) [
        | none ↦ record { experiment = e; created_at = now; updated_at = now }
        | some r ↦ merged e now r
      ]).experiment
        ≡ held_after e o
  upserted-held_after e now none = refl
  upserted-held_after e now (some r) = elim (Bool-cases (is_complete r.experiment)) [
    | inl ended ↦ rw (ended) refl
    | inr open_ ↦ rw (open_) refl
  ]

  -- Where the table has one row for each experiment, an experiment that is registered is read back as
  -- it was given, except that one that is complete keeps the status and the result it had; every other
  -- experiment is read back as before, and the table still has one row for each.
  pub get_experiment-register_experiment :
      (e : Experiment D) (now : ℕ) (t : Tables D)
      → UniqueRows t.experiments
      → let t' = register_experiment e now t in
        (get_experiment e.id t' ≡ ok (held_after e (first_match e.id t.experiments)))
        × ((k : String) → (e.id == k) ≡ false → get_experiment k t' ≡ get_experiment k t)
        × UniqueRows t'.experiments
  unfolding get_experiment query_experiments register_experiment
  get_experiment-register_experiment e now t u =
      let rows = upsert e now t.experiments in
      let u' = UniqueRows-upsert e now t.experiments u in
      (
        ground (
          arith,
          keep-with_status rows,
          first_match-newest_first e.id rows u',
          first_match-upsert e now e.id t.experiments,
          eq_iff e.id e.id,
          upserted-held_after e now (first_match e.id t.experiments),
        ),
        λ k ne. ground (
          arith,
          keep-with_status rows,
          keep-with_status t.experiments,
          first_match-newest_first k rows u',
          first_match-newest_first k t.experiments u,
          first_match-upsert e now k t.experiments,
        ),
        u',
      )
