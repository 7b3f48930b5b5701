-- ===== src/Examples/Economic.antt =====
-- The economic side on concrete inputs.
use aurelix.Base.{
  String, false, ◌≡◌, ◌⊎◌, Option, some, List, [], ◌∷◌, Result, ok, err, Dict, true, refl,
}
use aurelix.Base.Int.{ℤ, pos}
use aurelix.Execution.Breaker
use aurelix.Execution.Scope.{business}
use aurelix.Economy.Evidence.{Evidence, supports, one}
use aurelix.Economy.Opportunities.{Opportunity, approved}
use aurelix.Economy.Qualification.{qualified}
use aurelix.Economy.Business.{OpportunityExecutionBridge, BusinessAction, execute_business}
use aurelix.Economy.Business.Cleared.{IsCleared, execute_business-IsCleared}
use aurelix.Economy.Portfolio.{RevenuePortfolio, RevenueSource, discovered_source, ready}
use aurelix.Economy.Portfolio.Consented.{
  PortfolioCall, discover_call, approve_call, activate_call, realize_call, replace_call,
  perform_all, IsLawful, perform_all-IsLawful, add_call,
}

abbrev opportunity : Opportunity
opportunity = record {
  opportunity_id = "o1";
  title = "newsletter";
  source_finding_ids = "f1" ∷ [];
  cost_eur = pos 100;
  estimated_monthly_revenue_eur = pos 900;
  hours_to_first_result = pos 3;
  complexity = pos 2;
  risk = pos 2;
  confidence = pos 800000;
  stage = approved;
}

abbrev support : Evidence
support = record {
  evidence_id = "e1";
  source_ref = "s1";
  claim = "demand";
  relation = supports;
  quality = pos 900000;
}

abbrev backing : Dict (List Evidence)
backing =
    ("demand", support ∷ [])
    ∷ ("monetization_path", support ∷ [])
    ∷ ("source_reality", support ∷ [])
    ∷ []

abbrev action : BusinessAction
action = record {
  opportunity = opportunity;
  qualification = record {
    opportunity_id = "o1";
    status = qualified;
    confidence = record { num = pos 900000; den = one };
    claim_statuses = [];
    evidence_refs = [];
  };
  actor_id = "agent";
  owner_role = "writer";
  channel = "mail";
  permission = record {
    actor_id = "agent";
    resource = business;
    operations = "execute" ∷ [];
    scope = "*";
  };
  requires_capital = false;
  production_change = false;
}

abbrev bridge : OpportunityExecutionBridge
bridge = record {
  runtime = record { breaker = Breaker.new 3 };
  revenue = record { revenue = []; sources = [] };
}

abbrev revenue_of : ℤ → Option (Result String ℤ)
revenue_of x = some (ok x)

execute_business-IsCleared_example :
    let o = execute_business revenue_of "r1" "s1" "v1" action (ok (pos 5)) bridge in
    ((o ≡ execute_business revenue_of "r1" "s1" "v1" action (err "down") bridge) × (o.1 ≡ bridge))
    ⊎ IsCleared action
execute_business-IsCleared_example =
    execute_business-IsCleared revenue_of "r1" "s1" "v1" action (ok (pos 5)) (err "down") bridge

abbrev portfolio : RevenuePortfolio
portfolio = record {
  target = record { minimum_sources = 1; preferred_sources = 2; maximum_sources = 3 };
  sources = [];
  events = [];
}

-- A source that comes in ready, approved and with a connector.
abbrev known_source : RevenueSource
known_source =
    record (discovered_source "s2" "writer" "books" "shop" (pos 2) (pos 500000) (pos 100000)
      (some "api")) { status = ready; human_approved = true }

abbrev calls : List PortfolioCall
calls =
    add_call known_source
    ∷ discover_call "s1" "writer" "letters" "mail" (pos 4) (pos 800000) (pos 200000) (some "smtp")
    ∷ activate_call "s1"
    ∷ approve_call "s1"
    ∷ activate_call "s1"
    ∷ realize_call "s1" (pos 0)
    ∷ replace_call "s1" "s2"
    ∷ []

perform_all-IsLawful_example : IsLawful (perform_all calls portfolio)
perform_all-IsLawful_example = perform_all-IsLawful calls portfolio (refl, tt) tt
