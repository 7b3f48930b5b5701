-- ===== src/Execution/Scope.antt =====
-- src/aurelix_core/resource_scope.py.
use aurelix.Base.{
  ℕ, nat_eq, String, Bool, true, false, not, ◌||◌, ◌≡◌, ◌↔◌, ◌⊎◌, arith, if◌then◌else◌, List,
  contains, Result, ok, err, ◌==◌, string_eq, eq_iff,
}

pub data ResourceKind : Type 0 where
  research knowledge experiment build business revenue treasury governor secrets production :
      ResourceKind

-- The place of a member in the enumeration: two members are equal when they are the same one.
abbrev kind_index : ResourceKind → ℕ
kind_index research = 0
kind_index knowledge = 1
kind_index experiment = 2
kind_index build = 3
kind_index business = 4
kind_index revenue = 5
kind_index treasury = 6
kind_index governor = 7
kind_index secrets = 8
kind_index production = 9

pub data ScopeDenied : Type 0 where
  outside_scope : ScopeDenied

-- `operations` is a frozenset, of which only membership is asked.
pub record ResourcePermission : Type 0 where
  pub actor_id : String
  pub resource : ResourceKind
  pub operations : List String
  pub scope : String

pub record ResourceRequest : Type 0 where
  pub actor_id : String
  pub resource : ResourceKind
  pub operation : String
  pub target_scope : String

unfoldable pub allows : ResourcePermission → String → ResourceKind → String → String → Bool
allows p actor_id resource operation target_scope =
    if not (actor_id == p.actor_id) || not (kind_index resource == kind_index p.resource)
    then false
    else if not (contains operation p.operations)
    then false
    else target_scope == p.scope || p.scope == "*"

unfoldable pub authorize_resource :
    ResourceRequest → ResourcePermission → Result ScopeDenied (Unit {0})
unfolding allows
authorize_resource r p =
    if not (allows p r.actor_id r.resource r.operation r.target_scope)
    then err outside_scope
    else ok tt

kind_index_injective : (a b : ResourceKind) → kind_index a ≡ kind_index b → a ≡ b
kind_index_injective a b h = ground arith

-- A request is authorised exactly when the permission is the actor's own, is for the same kind of
-- resource, lists the operation, and has the target's scope or the scope `*`.
pub authorize_resource-ok_iff :
    (r : ResourceRequest) (p : ResourcePermission)
    → (authorize_resource r p ≡ ok tt) ↔ (
        (r.actor_id ≡ p.actor_id)
        × (r.resource ≡ p.resource)
        × (contains r.operation p.operations ≡ true)
        × ((r.target_scope ≡ p.scope) ⊎ (p.scope ≡ "*")))
unfolding authorize_resource
authorize_resource-ok_iff r p = ground (
  arith,
  eq_iff r.actor_id p.actor_id,
  eq_iff r.target_scope p.scope,
  eq_iff p.scope "*",
  kind_index_injective r.resource p.resource,
)
