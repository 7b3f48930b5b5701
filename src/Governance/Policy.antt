-- ===== src/Governance/Policy.antt =====
-- src/aurelix_core/policy.py.
use Prim.Native.String.{◌++◌ as str_append}
use aurelix.Base.{ℕ, ◌≤◌, true, false, ◌≡◌, ◌↔◌, arith, ltb, leb, if◌then◌else◌, String}
use aurelix.Governance.Models.{
  AutonomyLevel, a0, a1, a2, a3, a4, proposed, approved, rejected, ActionClass, read, research,
  build, deploy, financial, security, governance, autonomy_value, DecisionRequest, Decision,
}

pub minimum_level : ActionClass → AutonomyLevel
minimum_level read = a0
minimum_level research = a1
minimum_level build = a2
minimum_level deploy = a4
minimum_level financial = a4
minimum_level security = a4
minimum_level governance = a4

-- The place of a level in the enumeration.
abbrev pub rank : AutonomyLevel → ℕ
rank a0 = 0
rank a1 = 1
rank a2 = 2
rank a3 = 3
rank a4 = 4

unfoldable pub below_required : AutonomyLevel → AutonomyLevel → String
below_required has needs = str_append "Actor autonomy " (
    str_append (autonomy_value has)
      (str_append " is below required " (str_append (autonomy_value needs) ".")))

unfoldable pub evaluate : DecisionRequest → Decision
unfolding minimum_level
evaluate r =
    let minimum = minimum_level r.action in
    let actor_rank = rank r.actor.autonomy in
    let minimum_rank = rank minimum in
    let requires_owner = leb (rank a4) minimum_rank in
    if requires_owner
    then record {
      request_id = r.id;
      status = proposed;
      allowed = false;
      reason = "Protected action requires explicit owner authorization.";
      requires_owner = true;
    }
    else if ltb actor_rank minimum_rank
    then record {
      request_id = r.id;
      status = rejected;
      allowed = false;
      reason = below_required r.actor.autonomy minimum;
      requires_owner = false;
    }
    else record {
      request_id = r.id;
      status = approved;
      allowed = true;
      reason = "Action is within the actor's configured autonomy boundary.";
      requires_owner = false;
    }

-- The actions that only the owner can let through.
abbrev pub IsProtected : ActionClass → Type 0
IsProtected read = ⊥
IsProtected research = ⊥
IsProtected build = ⊥
IsProtected _ = Unit

-- A protected action is never allowed, whatever the autonomy of its actor: it is proposed to the
-- owner.
pub evaluate-protected :
    (r : DecisionRequest)
    → IsProtected r.action
    → ((evaluate r).allowed ≡ false)
      × ((evaluate r).requires_owner ≡ true)
      × ((evaluate r).status ≡ proposed)
unfolding evaluate
evaluate-protected r h = ground arith

-- The actions that an actor may take on its own, by the level of its autonomy.
abbrev pub IsWithin : ActionClass → AutonomyLevel → Type 0
IsWithin read _ = Unit
IsWithin research a0 = ⊥
IsWithin research _ = Unit
IsWithin build a0 = ⊥
IsWithin build a1 = ⊥
IsWithin build _ = Unit
IsWithin _ _ = ⊥

-- An action is allowed, with the status `approved`, exactly when it is within the autonomy of its
-- actor: reading from A0 on, research from A1 on, building from A2 on. It is proposed to the owner, and
-- needs the owner, exactly when it is protected, and in every other case it is rejected.
pub evaluate-allowed_iff :
    (r : DecisionRequest)
    → let d = evaluate r in
      ((d.allowed ≡ true) ↔ IsWithin r.action r.actor.autonomy)
      × ((d.status ≡ approved) ↔ IsWithin r.action r.actor.autonomy)
      × ((d.status ≡ proposed) ↔ IsProtected r.action)
      × ((d.requires_owner ≡ true) ↔ IsProtected r.action)
      × ((d.status ≡ rejected)
          ↔ ((¬ IsWithin r.action r.actor.autonomy) × (¬ IsProtected r.action)))
unfolding evaluate minimum_level
evaluate-allowed_iff r = ground arith

-- Giving an actor more autonomy never takes an allowed action away.
pub evaluate_monotone :
    (r : DecisionRequest) (level : AutonomyLevel)
    → rank r.actor.autonomy ≤ rank level
    → (evaluate r).allowed ≡ true
    → (evaluate (record r { actor = record (r.actor) { autonomy = level } })).allowed ≡ true
unfolding evaluate
evaluate_monotone r level h ok = ground arith
