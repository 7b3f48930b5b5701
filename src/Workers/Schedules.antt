-- ===== src/Workers/Schedules.antt =====
-- src/aurelix_runtime/scheduler.py: `add`, `_submit` up to the queue's `enqueue`, and the branch of
-- `tick` that drives a runtime. Intervals are microseconds; `time_ns()`'s text is an argument, and the
-- runtime's `run_once` is a parameter: it says whether it ran a job.
use aurelix.Base.{
  ℕ, zero, suc, ◌+◌, ◌≤◌, Bool, true, false, not, ◌&&◌, ◌≡◌, refl, arith, List, [], ◌∷◌, ◌++◌,
  String, Result, ok, err, none, some, Option, if◌then◌else◌, Dict, contains, keep, length, ◌==◌,
  string_eq, eq_iff, All, All-append, Option-cases, Bool-cases, inl, inr, subst, lookup, ◌<◌,
}
use aurelix.Base.Int.{ℤ, pos, ltb_ℤ}

pub record Schedule : Type 0 where
  pub name : String
  pub interval : ℤ
  pub job_kind : String
  pub payload : Dict String

pub data SchedulerError : Type 0 where
  interval_too_short : SchedulerError
  kind_not_approved : String → SchedulerError

abbrev pub approved_job_kinds : List String
approved_job_kinds = "research_pipeline" ∷ "autonomy.run" ∷ "pipeline.run" ∷ "system.cycle" ∷ []

-- The loop of `add`: the list with the schedule of the same name replaced, if there is one.
abbrev replaced : Schedule → List Schedule → Option (List Schedule)
replaced s [] = none
replaced s (x ∷ xs) =
    let rest = replaced s xs in
    if x.name == s.name then some (s ∷ xs) else elim rest [ none ↦ none | some ys ↦ some (x ∷ ys) ]

abbrev placed : Schedule → List Schedule → Option (List Schedule) → List Schedule
placed s xs none = xs ++ (s ∷ [])
placed s xs (some ys) = ys

-- `uses_default` is `_uses_default_submit`.
unfoldable pub add : Bool → Schedule → List Schedule → Result SchedulerError (List Schedule)
add uses_default s schedules =
    if ltb_ℤ s.interval (pos 1000000)
    then err interval_too_short
    else if uses_default && not (contains s.job_kind approved_job_kinds)
    then err (kind_not_approved s.job_kind)
    else ok (placed s schedules (replaced s schedules))

-- The schedules of a name.
abbrev named : String → List Schedule → ℕ
named n xs = length (keep (λ s. s.name == n) xs)

-- What the scheduler's list promises: no name twice, no interval under a second, and with the default
-- `submit` only approved kinds of job.
abbrev IsAllowed : Bool → Schedule → Type 0
IsAllowed uses_default s =
    (ltb_ℤ s.interval (pos 1000000) ≡ false)
    × ((uses_default && not (contains s.job_kind approved_job_kinds)) ≡ false)

pub record IsSound (uses_default : Bool) (schedules : List Schedule) : Type 0 where
  pub once : (n : String) → named n schedules ≤ 1
  pub allowed : All (IsAllowed uses_default) schedules

named-replaced :
    (s : Schedule) (xs ys : List Schedule) (n : String)
    → replaced s xs ≡ some ys
    → named n ys ≡ named n xs
named-replaced s [] ys n h = cc
named-replaced s (x ∷ xs) ys n h = elim (Option-cases (replaced s xs)) [
  | inl none_there ↦
      ground (arith, none_there, eq_iff x.name s.name, eq_iff x.name n, eq_iff s.name n)
  | inr (zs, there) ↦ ground (
    arith,
    there,
    eq_iff x.name s.name,
    eq_iff x.name n,
    eq_iff s.name n,
    named-replaced s xs zs n there,
  )
]

named-missing : (s : Schedule) (xs : List Schedule) → replaced s xs ≡ none → named s.name xs ≡ 0
named-missing s [] h = refl
named-missing s (x ∷ xs) h = elim (Option-cases (replaced s xs)) [
  | inl missing ↦ ground (arith, missing, named-missing s xs missing)
  | inr (ys, there) ↦ ground (arith, there)
]

All-replaced :
    (P : Schedule → Type 0) (s : Schedule) (xs ys : List Schedule)
    → P s
    → All P xs
    → replaced s xs ≡ some ys
    → All P ys
All-replaced P s [] ys p h e = cc
All-replaced P s (x ∷ xs) ys p h e = elim (Bool-cases (x.name == s.name)) [
  | inl same ↦ let q : s ∷ xs ≡ ys = ground (arith, same) in subst (All P) q (p, h.1)
  | inr other ↦ elim (Option-cases (replaced s xs)) [
    | inl none_there ↦ ground (arith, other, none_there)
    | inr (zs, there) ↦
        let q : x ∷ zs ≡ ys = ground (arith, other, there) in
        subst (All P) q (h.0, All-replaced P s xs zs p h.1 there)
  ]
]

named-append : (n : String) (xs ys : List Schedule) → named n (xs ++ ys) ≡ named n xs + named n ys
named-append n [] ys = omega arith
named-append n (x ∷ xs) ys = ground (arith, named-append n xs ys)

All-placed :
    (P : Schedule → Type 0) (s : Schedule) (xs : List Schedule)
    → P s
    → All P xs
    → All P (placed s xs (replaced s xs))
All-placed P s xs p h = elim (Option-cases (replaced s xs)) [
  | inl missing ↦ rw missing (All-append P xs (s ∷ []) h (p, tt))
  | inr (ys, there) ↦ rw there (All-replaced P s xs ys p h there)
]

named-placed :
    (s : Schedule) (xs : List Schedule) (n : String)
    → ((m : String) → named m xs ≤ 1)
    → named n (placed s xs (replaced s xs)) ≤ 1
named-placed s xs n once = elim (Option-cases (replaced s xs)) [
  | inl missing ↦ ground (
    arith,
    missing,
    named-append n xs (s ∷ []),
    named-missing s xs missing,
    once n,
    eq_iff s.name n,
  )
  | inr (ys, there) ↦ ground (arith, there, named-replaced s xs ys n there, once n)
]

-- A schedule that is accepted, whether it is new or takes the place of its name, keeps a sound
-- list sound: no name twice, no interval under a second, and with the default `submit` only
-- approved kinds of job.
add-IsSound :
    (uses_default : Bool) (s : Schedule) (xs ys : List Schedule)
    → IsSound uses_default xs
    → add uses_default s xs ≡ ok ys
    → IsSound uses_default ys
unfolding add
add-IsSound uses_default s xs ys sound h =
    let fits : IsAllowed uses_default s = ground arith in
    let q : placed s xs (replaced s xs) ≡ ys = ground arith in
    subst (IsSound uses_default) q (record {
      once = λ n. named-placed s xs n sound.once;
      allowed = All-placed (IsAllowed uses_default) s xs fits sound.allowed;
    })

-- `_submit`: the id of the job that is enqueued, and the objective that it is enqueued with.
abbrev joined : String → String → String
joined String.[] t = t
joined (String.◌∷◌ c s) t = String.◌∷◌ c (joined s t)

abbrev or_empty : Option String → String
or_empty none = ""
or_empty (some t) = t

unfoldable pub submit : String → String → Dict String → Result SchedulerError (String × String)
submit time_ns job_kind payload =
    if not (contains job_kind approved_job_kinds)
    then err (kind_not_approved job_kind)
    else ok (
      joined "scheduled-" (joined job_kind (joined "-" time_ns)),
      or_empty (lookup "objective" payload),
    )

-- `tick` with a runtime, whose `run_once` takes its state `W` along.
module _ {W : Type 0} (run_once : W → Bool × W) where
  tick_loop : ℕ → W → List String × W
  tick_loop zero w = ([], w)
  tick_loop (suc n) w =
      let (ran, w') = run_once w in
      let rest = tick_loop n w' in if not ran then ([], w') else ("runtime" ∷ rest.0, rest.1)

  unfoldable pub tick : ℕ → W → List String × W
  unfolding tick_loop
  tick max_jobs_per_tick w = tick_loop max_jobs_per_tick w

  -- What the runtime answers when it is asked for the i-th time from a state.
  abbrev pub answers : ℕ → W → Bool
  answers zero w = (run_once w).0
  answers (suc i) w = answers i (run_once w).1

  abbrev count : ℕ → W → ℕ
  count n w = length (tick_loop n w).0

  count_bound : (n : ℕ) (w : W) → count n w ≤ n
  unfolding tick_loop
  count_bound zero w = omega arith
  count_bound (suc n) w = ground (arith, count_bound n (run_once w).1)

  answers_before : (n i : ℕ) (w : W) → i < count n w → answers i w ≡ true
  unfolding tick_loop
  answers_before zero i w h = ground arith
  answers_before (suc n) zero w h = ground arith
  answers_before (suc n) (suc i) w h = let later = answers_before n i (run_once w).1 in ground arith

  answers_after : (n : ℕ) (w : W) → count n w < n → answers (count n w) w ≡ false
  unfolding tick_loop
  answers_after zero w h = ground arith
  answers_after (suc n) w h =
      let later = answers_after n (run_once w).1 in
      elim (Bool-cases (run_once w).0) [
        | inl ran ↦ rw ran (later (ground (arith, ran)))
        | inr idle ↦ rw idle idle
      ]

  -- A tick runs at most `max_jobs_per_tick` jobs, each of them run by the runtime, and it stops before
  -- that only when the runtime had no job to run.
  tick_runs :
      (max_jobs_per_tick : ℕ) (w : W)
      → let jobs = length (tick max_jobs_per_tick w).0 in
        (jobs ≤ max_jobs_per_tick)
        × ((i : ℕ) → i < jobs → answers i w ≡ true)
        × (jobs < max_jobs_per_tick → answers jobs w ≡ false)
  unfolding tick
  tick_runs n w = (count_bound n w, λ i. answers_before n i w, answers_after n w)
