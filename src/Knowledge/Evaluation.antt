-- ===== src/Knowledge/Evaluation.antt =====
-- src/aurelix_core/evaluation.py. A number is an exact fraction, so that the rounding of floats is left out,
-- and the texts of the reasons are constructors with what the texts show.
use aurelix.Base.{
  inl, inr, Option-cases, ℕ, ◌+◌, Option-cases, Bool, true, false, not, ◌&&◌, ◌≡◌, ◌≢◌, ◌↔◌, arith,
  Option, none, some, List, [], ◌∷◌, String, if◌then◌else◌, Dict, lookup, length, All, ◌==◌, nat_eq,
  string_eq, inl, inr,
}
use aurelix.Base.Int.{pos, leb_ℤ, ◌*ℤ◌}
use aurelix.Economy.Evidence.{Fraction}

-- What JSON gives for a measurement or a target: `flag` is a bool, which Python takes for a number.
pub data Value : Type 0 where
  number : Fraction → Value
  flag : Bool → Value
  other : Value

-- A criterion with its defaults filled in: an empty metric, and the operator `>=`.
pub record Criterion : Type 0 where
  pub metric : String
  pub operator : String
  pub target : Value

pub data Reason : Type 0 where
  no_success_criteria : Reason
  missing_metric_or_target unsupported_operator : String → Reason
  criterion_failed : Criterion → Fraction → Reason

pub record EvaluationResult : Type 0 where
  pub experiment_id : String
  pub passed : Bool
  pub confidence : Fraction
  pub metrics : Dict Fraction
  pub reasons : List Reason

-- `_numeric`
unfoldable pub numeric : Dict Value → Dict Fraction
numeric [] = []
numeric ((k, number x) ∷ d) = (k, x) ∷ numeric d
numeric ((k, flag b) ∷ d) = numeric d
numeric ((k, other) ∷ d) = numeric d

-- `isinstance(target, (int, float))`
abbrev pub target_of : Value → Option Fraction
target_of (number x) = some x
target_of (flag b) = some (record { num = if b then pos 1 else pos 0; den = 1 })
target_of other = none

abbrev pub at_most : Fraction → Fraction → Bool
at_most x y = leb_ℤ (x.num *ℤ pos y.den) (y.num *ℤ pos x.den)

-- The table of operators: `none` for one that is not in it.
abbrev pub compare_by : String → Fraction → Fraction → Option Bool
compare_by op actual target =
    if op == ">="
    then some (at_most target actual)
    else if op == ">"
    then some (not (at_most actual target))
    else if op == "<="
    then some (at_most actual target)
    else if op == "<"
    then some (not (at_most target actual))
    else if op == "=="
    then some (at_most target actual && at_most actual target)
    else none

-- The reason against a criterion, `none` for one that is met.
abbrev compared : Criterion → Fraction → Option Bool → Option Reason
compared c actual none = some (unsupported_operator c.operator)
compared c actual (some true) = none
compared c actual (some false) = some (criterion_failed c actual)

abbrev measured : Criterion → Option Fraction → Option Fraction → Option Reason
measured c none target = some (missing_metric_or_target c.metric)
measured c (some actual) none = some (missing_metric_or_target c.metric)
measured c (some actual) (some target) = compared c actual (compare_by c.operator actual target)

unfoldable pub against : Dict Fraction → Criterion → Option Reason
against metrics c = measured c (lookup c.metric metrics) (target_of c.target)

-- The loop: how many criteria are met, and the reasons against the others.
unfoldable pub evaluate_loop : Dict Fraction → List Criterion → ℕ × List Reason
evaluate_loop metrics [] = (0, [])
evaluate_loop metrics (c ∷ cs) =
    let (count, reasons) = evaluate_loop metrics cs in
    elim (against metrics c) [ none ↦ (count + 1, reasons) | some r ↦ (count, r ∷ reasons) ]

abbrev no_reasons : List Reason → Bool
no_reasons [] = true
no_reasons (r ∷ rs) = false

unfoldable pub evaluate : String → List Criterion → Dict Value → EvaluationResult
unfolding evaluate_loop numeric
evaluate experiment_id [] metrics = record {
  experiment_id = experiment_id;
  passed = false;
  confidence = record { num = pos 0; den = 1 };
  metrics = numeric metrics;
  reasons = no_success_criteria ∷ [];
}
evaluate experiment_id (c ∷ cs) metrics =
    let (count, reasons) = evaluate_loop (numeric metrics) (c ∷ cs) in
    record {
      experiment_id = experiment_id;
      passed = (count == length (c ∷ cs)) && no_reasons reasons;
      confidence = record { num = pos count; den = length (c ∷ cs) };
      metrics = numeric metrics;
      reasons = reasons;
    }

-- The loop counts every criterion, with no reason against one, exactly when all are met.
abbrev AllMet : Dict Fraction → List Criterion → Type 0
AllMet metrics cs = All (λ c. against metrics c ≡ none) cs

evaluate_loop-AllMet_iff :
    (metrics : Dict Fraction) (cs : List Criterion)
    → ((((evaluate_loop metrics cs).0 == length cs) && no_reasons (evaluate_loop metrics cs).1)
        ≡ true)
      ↔ AllMet metrics cs
unfolding evaluate_loop
evaluate_loop-AllMet_iff metrics [] = ground arith
evaluate_loop-AllMet_iff metrics (c ∷ cs) =
    let rest = evaluate_loop-AllMet_iff metrics cs in
    elim (Option-cases (against metrics c)) [
      | inl met ↦ rw (evaluate_loop, met) (ground (arith, rest))
      | inr (r, unmet) ↦ rw (evaluate_loop, unmet) (ground arith)
    ]

-- An experiment passes exactly when it has a criterion and each of its criteria is met: its metric was
-- measured as a number, its target is a number, its operator is known, and the comparison holds.
evaluate-passed_iff :
    (id : String) (cs : List Criterion) (metrics : Dict Value)
    → ((evaluate id cs metrics).passed ≡ true) ↔ ((cs ≢ []) × AllMet (numeric metrics) cs)
unfolding evaluate
evaluate-passed_iff id [] metrics = ground arith
evaluate-passed_iff id (c ∷ cs) metrics =
    ground (arith, evaluate_loop-AllMet_iff (numeric metrics) (c ∷ cs))
