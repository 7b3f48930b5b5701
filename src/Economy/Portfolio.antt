-- ===== src/Economy/Portfolio.antt =====
-- src/aurelix_core/revenue_portfolio.py. Amounts are integers in the smallest unit, and a confidence or
-- a risk is counted in millionths. Events keep their names and their source; time stamps are left out.
-- A source is the object that the portfolio holds: callers that change it are not modelled.
pub mod Consented
use aurelix.Base.{
  ℕ, Bool, true, false, not, ◌&&◌, ◌||◌, Option, none, some, List, [], ◌∷◌, ◌++◌, String, Result,
  ok, err, if◌then◌else◌, Dict, lookup, insert, values, keep, length, leb, is_empty, is_some,
  or_default,
}
use aurelix.Base.Int.{ℤ, pos, ltb_ℤ, leb_ℤ, ◌+ℤ◌}
use aurelix.Economy.Evidence.{clamp, one}

pub data SourceStatus : Type 0 where
  discovered validating ready active degraded paused retired : SourceStatus

pub record RevenueSource : Type 0 where
  pub source_id : String
  pub owner_role : String
  pub name : String
  pub channel : String
  pub status : SourceStatus
  pub expected_daily_eur : ℤ
  pub realized_daily_eur : ℤ
  pub confidence : ℤ
  pub risk : ℤ
  pub human_approval_required : Bool
  pub human_approved : Bool
  pub replacement_for : Option String
  pub connector : Option String

abbrev pub is_active : SourceStatus → Bool
is_active active = true
is_active _ = false

abbrev pub is_ready : SourceStatus → Bool
is_ready ready = true
is_ready _ = false

abbrev pub is_failed : SourceStatus → Bool
is_failed degraded = true
is_failed retired = true
is_failed _ = false

-- Six tenths and four tenths.
abbrev pub viable : RevenueSource → Bool
viable s =
    (is_ready s.status || is_active s.status)
    && (leb_ℤ (pos 600000) s.confidence
        && (leb_ℤ s.risk (pos 400000) && (not s.human_approval_required || s.human_approved)))

pub record PortfolioTarget : Type 0 where
  pub minimum_sources : ℕ
  pub preferred_sources : ℕ
  pub maximum_sources : ℕ

pub record RevenuePortfolio : Type 0 where
  pub target : PortfolioTarget
  pub sources : Dict RevenueSource
  pub events : List (String × String)

pub data PortfolioError : Type 0 where
  portfolio_full duplicate_source negative_revenue approval_required no_connector not_failed
        not_viable :
      PortfolioError
  unknown_source : String → PortfolioError

abbrev pub Outcome : Type 0
Outcome = Result PortfolioError RevenueSource × RevenuePortfolio

-- `_event`
abbrev logged : String → String → RevenuePortfolio → RevenuePortfolio
logged event source_id p = record p { events = p.events ++ ((event, source_id) ∷ []) }

-- A source that was changed, under the id it is stored by, and the event.
abbrev pub stored : String → String → RevenueSource → RevenuePortfolio → RevenuePortfolio
stored event key source p =
    logged event source.source_id (record p { sources = insert key source p.sources })

unfoldable pub add : RevenueSource → RevenuePortfolio → Outcome
add source p =
    if leb p.target.maximum_sources (length p.sources)
    then (err portfolio_full, p)
    else if is_some (lookup source.source_id p.sources)
    then (err duplicate_source, p)
    else if ltb_ℤ source.expected_daily_eur (pos 0) || ltb_ℤ source.realized_daily_eur (pos 0)
    then (err negative_revenue, p)
    else (ok source, stored "source.added" source.source_id source p)

abbrev pub discovered_source :
    String → String → String → String → ℤ → ℤ → ℤ → Option String → RevenueSource
discovered_source source_id owner_role name channel expected confidence risk connector = record {
  source_id = source_id;
  owner_role = owner_role;
  name = name;
  channel = channel;
  status = discovered;
  expected_daily_eur = expected;
  realized_daily_eur = pos 0;
  confidence = clamp one confidence;
  risk = clamp one risk;
  human_approval_required = true;
  human_approved = false;
  replacement_for = none;
  connector = connector;
}

unfoldable pub discover :
    String → String → String → String → ℤ → ℤ → ℤ → Option String → RevenuePortfolio → Outcome
unfolding add
discover source_id owner_role name channel expected confidence risk connector p =
    add (discovered_source source_id owner_role name channel expected confidence risk connector) p

-- `get`, and the rest of the method on the source that it finds.
abbrev with_source :
    String → (RevenueSource → RevenuePortfolio → Outcome) → RevenuePortfolio → Outcome
with_source source_id body p = elim (lookup source_id p.sources) [
  | none ↦ (err (unknown_source source_id), p)
  | some source ↦ body source p
]

approved_source : String → RevenueSource → RevenuePortfolio → Outcome
approved_source source_id source p =
    let source' : RevenueSource = record source { human_approved = true; status = ready } in
    (ok source', stored "source.approved" source_id source' p)

unfoldable pub approve : String → RevenuePortfolio → Outcome
unfolding approved_source
approve source_id = with_source source_id (approved_source source_id)

activated_source : String → RevenueSource → RevenuePortfolio → Outcome
activated_source source_id source p =
    let source' : RevenueSource = record source { status = active } in
    if source.human_approval_required && not source.human_approved
    then (err approval_required, p)
    else if is_empty (or_default source.connector "")
    then (err no_connector, p)
    else (ok source', stored "source.activated" source_id source' p)

unfoldable pub activate : String → RevenuePortfolio → Outcome
unfolding activated_source
activate source_id = with_source source_id (activated_source source_id)

abbrev is_zero : ℤ → Bool
is_zero x = leb_ℤ x (pos 0) && leb_ℤ (pos 0) x

realized_source : String → ℤ → RevenueSource → RevenuePortfolio → Outcome
realized_source source_id amount source p =
    let source' : RevenueSource = record source {
      realized_daily_eur = amount;
      status = if is_active source.status && is_zero amount then degraded else source.status;
    } in
    (ok source', stored "source.revenue_recorded" source_id source' p)

unfoldable pub record_realized_daily : String → ℤ → RevenuePortfolio → Outcome
unfolding realized_source
record_realized_daily source_id amount p =
    if ltb_ℤ amount (pos 0)
    then (err negative_revenue, p)
    else with_source source_id (realized_source source_id amount) p

-- `replace`, on the two sources that it finds.
replaced_sources : String → String → RevenueSource → RevenueSource → RevenuePortfolio → Outcome
replaced_sources failed_id candidate_id failed candidate p =
    let candidate' : RevenueSource = record candidate {
      replacement_for = some failed.source_id;
      status = active;
    } in
    let failed' : RevenueSource = record failed { status = retired } in
    if not (is_failed failed.status)
    then (err not_failed, p)
    else if not (viable candidate)
    then (err not_viable, p)
    else (
      ok candidate',
      logged "source.replaced" failed.source_id (record p {
        sources = insert failed_id failed' (insert candidate_id candidate' p.sources);
      }),
    )

unfoldable pub replace : String → String → RevenuePortfolio → Outcome
unfolding replaced_sources
replace failed_id candidate_id p =
    with_source failed_id
      (λ failed p.
        with_source candidate_id
          (λ candidate p. replaced_sources failed_id candidate_id failed candidate p) p)
      p

abbrev sum_realized : List RevenueSource → ℤ
sum_realized [] = pos 0
sum_realized (s ∷ ss) = s.realized_daily_eur +ℤ sum_realized ss

pub record PortfolioHealth : Type 0 where
  pub total_sources : ℕ
  pub active_sources : ℕ
  pub viable_sources : ℕ
  pub daily_realized_eur : ℤ
  pub minimum_target_met : Bool
  pub preferred_target_met : Bool
  pub maximum_target : ℕ

unfoldable pub health : RevenuePortfolio → PortfolioHealth
health p =
    let sources = values p.sources in
    let many = length (keep viable sources) in
    record {
      total_sources = length p.sources;
      active_sources = length (keep (λ s. is_active s.status) sources);
      viable_sources = many;
      daily_realized_eur = sum_realized sources;
      minimum_target_met = leb p.target.minimum_sources many;
      preferred_target_met = leb p.target.preferred_sources many;
      maximum_target = p.target.maximum_sources;
    }

unfoldable pub needs_replacement : RevenuePortfolio → List RevenueSource
needs_replacement p = keep (λ s. is_failed s.status) (values p.sources)

unfoldable pub replacement_candidates : RevenuePortfolio → List RevenueSource
replacement_candidates p = keep (λ s. is_ready s.status && viable s) (values p.sources)
