-- ===== src/Economy/Business.antt =====
-- src/aurelix_core/opportunity_execution_bridge.py. The caller's operation is a result or an exception,
-- and `revenue_of` reads "revenue_eur" of its output, `none` where there is none, as a Decimal in the
-- smallest unit, or as what raises. The uuid4s are arguments.
pub mod Cleared
use aurelix.Base.{
  Bool, true, false, not, ◌||◌, ◌≡◌, ◌⊎◌, inl, inr, refl, ap, arith, Bool-cases, Option, none, some,
  String, Result, ok, err, if◌then◌else◌, is_ok, Result-cases, [], ◌∷◌, List, ◌==◌, string_eq,
  eq_iff, contains,
}
use aurelix.Base.Int.{ℤ, pos, ltb_ℤ, ◌≤ℤ◌}
use aurelix.Governance.Governor.{
  GovernorRoute, policy_allowed, owner_required, blocked, OrchestrationResult, RouteError, route,
  route_of, route-policy_allowed_iff,
}
use aurelix.Execution.Scope.{
  business, ResourcePermission, ResourceRequest, ScopeDenied, authorize_resource,
  authorize_resource-ok_iff,
}
use aurelix.Execution.Runtime.{
  ExecutionRequest, ExecutionResult, ExecutionError, ExecutionRuntime, execute,
}
use aurelix.Economy.Opportunities.{Opportunity, OpportunityStage, approved}
use aurelix.Economy.Qualification.{EconomicQualification}
use aurelix.Economy.Sources.{
  OpportunityRevenueBridge, RevenueSource, SourceError, admit, record_observation, matches,
}

pub record OpportunityExecutionBridge : Type 0 where
  pub runtime : ExecutionRuntime
  pub revenue : OpportunityRevenueBridge

pub record OpportunityExecutionOutcome (O : Type 0) : Type 0 where
  pub opportunity_id : String
  pub route : GovernorRoute
  pub executed : Bool
  pub execution : Option (ExecutionResult O)
  pub revenue_source_id : Option String
  pub observed_revenue_eur : ℤ

-- `X` is the type of the exceptions of an operation, and of `Decimal`.
pub data BridgeError (X : Type 0) : Type 0 where
  not_approved no_matching_qualification : BridgeError X
  routing_error : RouteError → BridgeError X
  out_of_scope : ScopeDenied → BridgeError X
  source_error : SourceError → BridgeError X
  execution_error : ExecutionError X → BridgeError X
  unreadable_revenue : X → BridgeError X

abbrev pub is_approved : OpportunityStage → Bool
is_approved approved = true
is_approved _ = false

-- The caller's arguments.
pub record BusinessAction : Type 0 where
  pub opportunity : Opportunity
  pub qualification : EconomicQualification
  pub actor_id : String
  pub owner_role : String
  pub channel : String
  pub permission : ResourcePermission
  pub requires_capital : Bool
  pub production_change : Bool

abbrev pub resource_of : BusinessAction → ResourceRequest
resource_of a = record {
  actor_id = a.actor_id;
  resource = business;
  operation = "execute";
  target_scope = a.opportunity.opportunity_id;
}

abbrev pub request_of : BusinessAction → ExecutionRequest
request_of a = record { actor_id = a.actor_id; resource = resource_of a; permission = a.permission }

abbrev pub Answer : Type 0 → Type 0 → Type 0
Answer X O = Result (BridgeError X) (OpportunityExecutionOutcome O) × OpportunityExecutionBridge

abbrev held_back : {O : Type 0} → BusinessAction → GovernorRoute → OpportunityExecutionOutcome O
held_back a r = record {
  opportunity_id = a.opportunity.opportunity_id;
  route = r;
  executed = false;
  execution = none;
  revenue_source_id = none;
  observed_revenue_eur = pos 0;
}

abbrev carried_out :
    {O : Type 0}
    → BusinessAction
    → GovernorRoute
    → ExecutionResult O
    → RevenueSource
    → ℤ
    → OpportunityExecutionOutcome O
carried_out a r result source observed = record {
  opportunity_id = a.opportunity.opportunity_id;
  route = r;
  executed = true;
  execution = some result;
  revenue_source_id = some source.source_id;
  observed_revenue_eur = observed;
}

module _ {X O : Type 0} (revenue_of : O → Option (Result X ℤ)) where
  -- The source after the observation of a positive revenue.
  recorded :
      BusinessAction
      → GovernorRoute
      → ExecutionResult O
      → ℤ
      → ExecutionRuntime
      → Result SourceError RevenueSource × OpportunityRevenueBridge
      → Answer X O
  recorded a r result amount runtime (err e, revenue) =
      (err (source_error e), record { runtime = runtime; revenue = revenue })
  recorded a r result amount runtime (ok source, revenue) =
      (ok (carried_out a r result source amount), record { runtime = runtime; revenue = revenue })

  realized :
      String
      → BusinessAction
      → GovernorRoute
      → RevenueSource
      → ExecutionResult O
      → OpportunityExecutionBridge
      → Option (Result X ℤ)
      → Answer X O
  unfolding recorded
  realized revenue_id a r source result b none = (ok (carried_out a r result source (pos 0)), b)
  realized revenue_id a r source result b (some (err x)) = (err (unreadable_revenue x), b)
  realized revenue_id a r source result b (some (ok amount)) =
      if ltb_ℤ (pos 0) amount
      then recorded a r result amount b.runtime
          (record_observation revenue_id source.source_id amount none b.revenue)
      else (ok (carried_out a r result source amount), b)

  operated :
      String
      → BusinessAction
      → GovernorRoute
      → RevenueSource
      → OpportunityRevenueBridge
      → Result (ExecutionError X) (ExecutionResult O) × ExecutionRuntime
      → Answer X O
  unfolding realized
  operated revenue_id a r source revenue (err e, runtime) =
      (err (execution_error e), record { runtime = runtime; revenue = revenue })
  operated revenue_id a r source revenue (ok result, runtime) =
      realized revenue_id a r source result (record { runtime = runtime; revenue = revenue })
        (revenue_of result.output)

  admitted :
      String
      → BusinessAction
      → GovernorRoute
      → Result X O
      → ExecutionRuntime
      → Result SourceError RevenueSource × OpportunityRevenueBridge
      → Answer X O
  unfolding operated
  admitted revenue_id a r operation runtime (err e, revenue) =
      (err (source_error e), record { runtime = runtime; revenue = revenue })
  admitted revenue_id a r operation runtime (ok source, revenue) =
      operated revenue_id a r source revenue (execute (request_of a) operation runtime)

  unfoldable pub routed :
      String
      → String
      → BusinessAction
      → Result X O
      → OpportunityExecutionBridge
      → Result RouteError OrchestrationResult
      → Answer X O
  unfolding admitted
  routed source_id revenue_id a operation b (err e) = (err (routing_error e), b)
  routed source_id revenue_id a operation b (ok r) = elim r.route [
    | policy_allowed ↦ elim (authorize_resource (resource_of a) a.permission) [
      | err e ↦ (err (out_of_scope e), b)
      | ok u ↦
          admitted revenue_id a r.route operation b.runtime
            (admit source_id a.opportunity a.qualification a.owner_role a.channel b.revenue)
    ]
    | _ ↦ (ok (held_back a r.route), b)
  ]

  -- `execute`
  unfoldable pub execute_business :
      String
      → String
      → String
      → BusinessAction
      → Result X O
      → OpportunityExecutionBridge
      → Answer X O
  unfolding routed
  execute_business request_id source_id revenue_id a operation b =
      if not (is_approved a.opportunity.stage)
      then (err not_approved, b)
      else if not (matches a.qualification a.opportunity)
      then (err no_matching_qualification, b)
      else routed source_id revenue_id a operation b (
          route request_id a.opportunity.opportunity_id "business.execute" a.requires_capital
            a.opportunity.risk a.production_change)
