-- ===== src/Economy/Opportunities.antt =====
-- src/aurelix_core/opportunities.py. Amounts are integers in the smallest unit in use, hours too; a
-- confidence is counted in millionths. The uuid4 of an opportunity is an argument.
use aurelix.Base.{
  ℕ, Bool, not, ◌&&◌, ◌||◌, ◌≡◌, arith, List, String, Result, ok, err, if◌then◌else◌,
}
use aurelix.Base.Int.{ℤ, pos, ltb_ℤ, leb_ℤ, ◌+ℤ◌, ◌-ℤ◌, ◌*ℤ◌, ◌≤ℤ◌}
use aurelix.Economy.Evidence.{one}

pub data OpportunityStage : Type 0 where
  discovered evaluating recommended approved rejected : OpportunityStage

pub record Opportunity : Type 0 where
  pub opportunity_id : String
  pub title : String
  pub source_finding_ids : List String
  pub cost_eur : ℤ
  pub estimated_monthly_revenue_eur : ℤ
  pub hours_to_first_result : ℤ
  pub complexity : ℤ
  pub risk : ℤ
  pub confidence : ℤ
  pub stage : OpportunityStage

pub data OpportunityError : Type 0 where
  negative_amount confidence_out_of_range complexity_or_risk_out_of_range : OpportunityError

unfoldable pub expected_monthly_net_eur : Opportunity → ℤ
expected_monthly_net_eur o = o.estimated_monthly_revenue_eur -ℤ o.cost_eur

-- `max(0, value - penalty)` in millionths of the smallest unit. `unit` is the number of smallest units
-- in a euro and in an hour.
unfoldable pub score : ℕ → Opportunity → ℤ
score unit o =
    let value = o.estimated_monthly_revenue_eur *ℤ o.confidence in
    let penalty =
      (o.cost_eur +ℤ o.hours_to_first_result *ℤ pos 2)
      +ℤ (o.complexity +ℤ o.risk) *ℤ (pos 5 *ℤ pos unit) in
    let rest = value -ℤ penalty *ℤ pos one in if ltb_ℤ rest (pos 0) then pos 0 else rest

abbrev in_range : ℤ → ℤ → ℤ → Bool
in_range low high x = leb_ℤ low x && leb_ℤ x high

unfoldable pub build_opportunity :
    String → String → List String → ℤ → ℤ → ℤ → ℤ → ℤ → ℤ → Result OpportunityError Opportunity
build_opportunity opportunity_id title finding_ids cost monthly hours complexity risk confidence =
    if ltb_ℤ cost (pos 0) || (ltb_ℤ monthly (pos 0) || ltb_ℤ hours (pos 0))
    then err negative_amount
    else if not (in_range (pos 0) (pos one) confidence)
    then err confidence_out_of_range
    else if not (in_range (pos 0) (pos 10) complexity) || not (in_range (pos 0) (pos 10) risk)
    then err complexity_or_risk_out_of_range
    else ok (record {
      opportunity_id = opportunity_id;
      title = title;
      source_finding_ids = finding_ids;
      cost_eur = cost;
      estimated_monthly_revenue_eur = monthly;
      hours_to_first_result = hours;
      complexity = complexity;
      risk = risk;
      confidence = confidence;
      stage = discovered;
    })

-- An opportunity that is built is only discovered, and waits for its approval; its cost is not negative
-- and its risk is the given one, from 0 to 10.
build_opportunity-discovered :
    (id title : String) (findings : List String) (cost monthly hours complexity risk confidence : ℤ)
    (o : Opportunity)
    → build_opportunity id title findings cost monthly hours complexity risk confidence ≡ ok o
    → (o.stage ≡ discovered)
      × (pos 0 ≤ℤ cost)
      × (pos 0 ≤ℤ risk)
      × (risk ≤ℤ pos 10)
      × (o.risk ≡ risk)
unfolding build_opportunity
build_opportunity-discovered id title findings cost monthly hours complexity risk confidence o h =
    ground arith
