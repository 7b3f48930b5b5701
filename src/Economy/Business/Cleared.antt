-- ===== src/Economy/Business/Cleared.antt =====
-- What an action needs before its operation can make a difference.
use aurelix.Base.{
  true, false, ◌≡◌, ◌⊎◌, inl, inr, refl, ap, Bool-cases, Option, String, Result, ok, err,
  Result-cases, [], ◌∷◌, contains, string_eq,
}
use aurelix.Base.Int.{ℤ, pos, ◌≤ℤ◌}
use aurelix.Governance.Governor.{
  GovernorRoute, policy_allowed, owner_required, blocked, OrchestrationResult, RouteError, route,
  route_of, route-policy_allowed_iff,
}
use aurelix.Execution.Scope.{authorize_resource, authorize_resource-ok_iff}
use aurelix.Economy.Sources.{matches}
use aurelix.Economy.Business.{
  OpportunityExecutionBridge, BusinessAction, is_approved, resource_of, routed, execute_business,
}

-- What an action needs before its operation may run.
abbrev pub IsCleared : BusinessAction → Type 0
IsCleared a =
    (is_approved a.opportunity.stage ≡ true)
    × (matches a.qualification a.opportunity ≡ true)
    × (a.opportunity.risk ≤ℤ pos 4)
    × (a.requires_capital ≡ false)
    × (a.production_change ≡ false)
    × (a.actor_id ≡ a.permission.actor_id)
    × (contains "execute" a.permission.operations ≡ true)

module _ {X O : Type 0} (revenue_of : O → Option (Result X ℤ)) where
  routed-either :
      (source_id revenue_id : String) (a : BusinessAction) (operation other : Result X O)
      (b : OpportunityExecutionBridge) (r : Result RouteError OrchestrationResult)
      → ((routed revenue_of source_id revenue_id a operation b r
            ≡ routed revenue_of source_id revenue_id a other b r)
          × ((routed revenue_of source_id revenue_id a operation b r).1 ≡ b))
        ⊎ ((route_of r ≡ policy_allowed ∷ [])
            × (authorize_resource (resource_of a) a.permission ≡ ok tt))
  unfolding routed
  routed-either source_id revenue_id a operation other b (err e) = inl (refl, refl)
  routed-either source_id revenue_id a operation other b (ok r) = by_route r.route refl
    where
      by_route :
          (g : GovernorRoute)
          → r.route ≡ g
          → ((routed revenue_of source_id revenue_id a operation b (ok r)
                ≡ routed revenue_of source_id revenue_id a other b (ok r))
              × ((routed revenue_of source_id revenue_id a operation b (ok r)).1 ≡ b))
            ⊎ ((r.route ∷ [] ≡ policy_allowed ∷ [])
                × (authorize_resource (resource_of a) a.permission ≡ ok tt))
      by_route owner_required h = unfold routed in rw h (inl (refl, refl))
      by_route blocked h = unfold routed in rw h (inl (refl, refl))
      by_route policy_allowed h =
          elim (Result-cases (authorize_resource (resource_of a) a.permission)) [
            | inl (u, holds) ↦ inr (ap (λ g. g ∷ []) h, holds)
            | inr (e, fails) ↦ unfold routed in rw h (inl (rw fails refl, rw (routed, fails) refl))
          ]

  -- The operation of an action makes a difference only if the opportunity is approved and qualified, its
  -- risk is at most 4, neither capital nor production is touched, and the actor's own permission
  -- lists "execute": of any other action, the outcome is the same whatever the operation is, and neither
  -- the runtime nor the revenue changes.
  pub execute_business-IsCleared :
      (request_id source_id revenue_id : String) (a : BusinessAction) (operation other : Result X O)
      (b : OpportunityExecutionBridge)
      → let o = execute_business revenue_of request_id source_id revenue_id a operation b in
        ((o ≡ execute_business revenue_of request_id source_id revenue_id a other b) × (o.1 ≡ b))
        ⊎ IsCleared a
  unfolding execute_business
  execute_business-IsCleared request_id source_id revenue_id a operation other b =
      let r =
        route request_id a.opportunity.opportunity_id "business.execute" a.requires_capital
          a.opportunity.risk a.production_change in
      let allowed =
        route-policy_allowed_iff request_id a.opportunity.opportunity_id "business.execute"
          a.requires_capital a.opportunity.risk a.production_change in
      elim (Bool-cases (is_approved a.opportunity.stage)) [
        | inr fails ↦ rw fails (inl (refl, refl))
        | inl holds ↦ elim (Bool-cases (matches a.qualification a.opportunity)) [
          | inr fails ↦ rw (holds, fails) (inl (refl, refl))
          | inl qualifies ↦ elim (routed-either source_id revenue_id a operation other b r) [
            | inl same ↦ rw (holds, qualifies) (inl same)
            | inr (through, scope) ↦
                let (_, _, _, risk, capital, production) = allowed.0 through in
                let (actor, _, listed, _) =
                  (authorize_resource-ok_iff (resource_of a) a.permission).0 scope in
                inr (holds, qualifies, risk, capital, production, actor, listed)
          ]
        ]
      ]
