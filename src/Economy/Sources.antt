-- ===== src/Economy/Sources.antt =====
-- src/aurelix_core/opportunity_revenue_bridge.py. The uuid4 of a source and of a revenue record are
-- arguments. An expected amount is a fraction: a month's revenue over thirty.
use aurelix.Base.{
  Bool, true, false, not, ◌&&◌, ◌||◌, ◌≡◌, arith, Option, none, some, List, String, Result, ok, err,
  if◌then◌else◌, Dict, lookup, insert, values, is_blank, ◌==◌, string_eq,
}
use aurelix.Base.Int.{ℤ, pos, ltb_ℤ, leb_ℤ}
use aurelix.Economy.Evidence.{Fraction, one}
use aurelix.Economy.Opportunities.{Opportunity, OpportunityStage, approved, recommended}
use aurelix.Economy.Qualification.{EconomicQualification, is_qualified, smaller}
use aurelix.Economy.Revenue.{
  RevenueEngine, RevenueRecord, RevenueError, record_revenue, total_for_activity,
}

pub data SourceStage : Type 0 where
  candidate validating active degraded replaced : SourceStage

pub record RevenueSource : Type 0 where
  pub source_id : String
  pub opportunity_id : String
  pub owner_role : String
  pub channel : String
  pub stage : SourceStage
  pub expected_daily_eur : Fraction
  pub observed_daily_eur : ℤ
  pub confidence : Fraction
  pub risk : ℤ
  pub replacement_for : Option String

abbrev pub is_active : SourceStage → Bool
is_active active = true
is_active _ = false

unfoldable pub is_productive : RevenueSource → Bool
is_productive s = is_active s.stage && ltb_ℤ (pos 0) s.observed_daily_eur

pub record OpportunityRevenueBridge : Type 0 where
  pub revenue : RevenueEngine
  pub sources : Dict RevenueSource

pub data SourceError : Type 0 where
  not_recommended not_qualified role_and_channel_required amount_not_positive same_source :
      SourceError
  unknown_source : String → SourceError
  not_recorded : RevenueError → SourceError

abbrev pub admissible : OpportunityStage → Bool
admissible approved = true
admissible recommended = true
admissible _ = false

-- The qualification is one of this opportunity, and a positive one.
abbrev pub matches : EconomicQualification → Opportunity → Bool
matches q o = is_qualified q && q.opportunity_id == o.opportunity_id

abbrev pub admitted_source :
    String → Opportunity → EconomicQualification → String → String → RevenueSource
admitted_source source_id o q owner_role channel = record {
  source_id = source_id;
  opportunity_id = o.opportunity_id;
  owner_role = owner_role;
  channel = channel;
  stage = validating;
  expected_daily_eur = record {
    num =
        if ltb_ℤ (pos 0) o.estimated_monthly_revenue_eur
        then o.estimated_monthly_revenue_eur
        else pos 0;
    den = 30;
  };
  observed_daily_eur = pos 0;
  confidence = smaller (record { num = o.confidence; den = one }) q.confidence;
  risk = o.risk;
  replacement_for = none;
}

unfoldable pub admit :
    String
    → Opportunity
    → EconomicQualification
    → String
    → String
    → OpportunityRevenueBridge
    → Result SourceError RevenueSource × OpportunityRevenueBridge
admit source_id o q owner_role channel b =
    let source = admitted_source source_id o q owner_role channel in
    if not (admissible o.stage)
    then (err not_recommended, b)
    else if not (matches q o)
    then (err not_qualified, b)
    else if is_blank owner_role || is_blank channel
    then (err role_and_channel_required, b)
    else (ok source, record b { sources = insert source_id source b.sources })

-- After the revenue engine's `record`: the source is active with its activity's total.
observed :
    RevenueSource
    → String
    → OpportunityRevenueBridge
    → Result RevenueError RevenueRecord × RevenueEngine
    → Result SourceError RevenueSource × OpportunityRevenueBridge
observed source source_id b (err e, revenue) =
    (err (not_recorded e), record b { revenue = revenue })
observed source source_id b (ok r, revenue) =
    let updated : RevenueSource = record source {
      stage = active;
      observed_daily_eur = total_for_activity source_id revenue;
    } in
    (ok updated, record { revenue = revenue; sources = insert source_id updated b.sources })

observe_found :
    String
    → String
    → ℤ
    → Option String
    → OpportunityRevenueBridge
    → Option RevenueSource
    → Result SourceError RevenueSource × OpportunityRevenueBridge
unfolding observed
observe_found revenue_id source_id amount reference b none = (err (unknown_source source_id), b)
observe_found revenue_id source_id amount reference b (some source) =
    if leb_ℤ amount (pos 0)
    then (err amount_not_positive, b)
    else observed source source_id b
        (record_revenue revenue_id source_id amount source.channel reference b.revenue)

unfoldable pub record_observation :
    String
    → String
    → ℤ
    → Option String
    → OpportunityRevenueBridge
    → Result SourceError RevenueSource × OpportunityRevenueBridge
unfolding observe_found
record_observation revenue_id source_id amount reference b =
    observe_found revenue_id source_id amount reference b (lookup source_id b.sources)

unfoldable pub degrade :
    String → OpportunityRevenueBridge → Result SourceError RevenueSource × OpportunityRevenueBridge
degrade source_id b = elim (lookup source_id b.sources) [
  | none ↦ (err (unknown_source source_id), b)
  | some source ↦
      let updated : RevenueSource = record source { stage = degraded } in
      (ok updated, record b { sources = insert source_id updated b.sources })
]

replace_found :
    RevenueSource
    → OpportunityRevenueBridge
    → RevenueSource
    → Result SourceError (RevenueSource × RevenueSource) × OpportunityRevenueBridge
replace_found replacement b old =
    let retired : RevenueSource = record old { stage = replaced } in
    let promoted : RevenueSource = record replacement { replacement_for = some old.source_id } in
    if replacement.source_id == old.source_id then (err same_source, b) else (
      ok (retired, promoted),
      record b {
        sources = insert promoted.source_id promoted (insert old.source_id retired b.sources);
      },
    )

unfoldable pub replace :
    String
    → RevenueSource
    → OpportunityRevenueBridge
    → Result SourceError (RevenueSource × RevenueSource) × OpportunityRevenueBridge
unfolding replace_found
replace source_id replacement b = elim (lookup source_id b.sources) [
  | none ↦ (err (unknown_source source_id), b)
  | some old ↦ replace_found replacement b old
]

abbrev pub portfolio : OpportunityRevenueBridge → List RevenueSource
portfolio b = values b.sources

-- A source is admitted only for an opportunity that is recommended or approved and qualified, and it
-- starts with no revenue: an estimate never counts as observed.
admit-ok :
    (id : String) (o : Opportunity) (q : EconomicQualification) (role channel : String)
    (b : OpportunityRevenueBridge) (source : RevenueSource)
    → (admit id o q role channel b).0 ≡ ok source
    → (admissible o.stage ≡ true)
      × (matches q o ≡ true)
      × (source.observed_daily_eur ≡ pos 0)
      × (is_productive source ≡ false)
unfolding admit is_productive
admit-ok id o q role channel b source h = ground arith
