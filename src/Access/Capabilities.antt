-- ===== src/Access/Capabilities.antt =====
-- src/aurelix_core/authorization.py, with the identities of identity.py that it reads, and the
-- `authenticate` of identity.py. The key derivation `scrypt` is a parameter; `compare_digest` is
-- equality.
use aurelix.Base.{
  All, Bool-cases, inl, inr, subst, sym, Bool, true, false, not, ◌&&◌, ◌||◌, ◌≡◌, ◌≢◌, ◌↔◌, String,
  List, [], ◌∷◌, some, none, if◌then◌else◌, Result, ok, err, is_empty, Dict, lookup, or_default,
  contains, Comparable, string_eq, ◌==◌, eq_iff, arith,
}

pub data IdentityStatus : Type 0 where
  active revoked disabled : IdentityStatus

pub record Identity : Type 0 where
  pub id : String
  pub role : String
  pub status : IdentityStatus

pub record CredentialRecord : Type 0 where
  pub identity_id : String
  pub salt : String
  pub digest : String

abbrev is_active : IdentityStatus → Bool
is_active active = true
is_active _ = false

pub data AuthenticationError : Type 0 where
  not_active identity_mismatch invalid_credential : AuthenticationError

module _ (scrypt : String → String → String) where
  -- `scrypt secret salt` is the digest of a secret under a salt.
  unfoldable pub authenticate :
      Identity → CredentialRecord → String → Result AuthenticationError Identity
  authenticate identity r secret =
      if not (is_active identity.status)
      then err not_active
      else if not (r.identity_id == identity.id)
      then err identity_mismatch
      else if not (scrypt secret r.salt == r.digest)
      then err invalid_credential
      else ok identity

pub record Capability : Type 0 where
  pub resource : String
  pub operation : String
  pub target_scope : String

abbrev same_capability : Capability → Capability → Bool
same_capability a b =
    a.resource == b.resource && (a.operation == b.operation && a.target_scope == b.target_scope)

pub same_capability_iff : (a b : Capability) → (same_capability a b ≡ true) ↔ (a ≡ b)
same_capability_iff a b = ground (
  arith,
  eq_iff a.resource b.resource,
  eq_iff a.operation b.operation,
  eq_iff a.target_scope b.target_scope,
)

instance abbrev pub capability_eq : Comparable Capability
capability_eq = record { equals = same_capability; equals_iff = same_capability_iff }

pub data AuthorizationDenied : Type 0 where
  identity_not_active scope_required scope_denied : AuthorizationDenied

-- The capabilities that each identity was granted.
abbrev pub AuthorizationPolicy : Type 0
AuthorizationPolicy = Dict (List Capability)

unfoldable pub authorize :
    Identity
    → String
    → String
    → String
    → AuthorizationPolicy
    → Result AuthorizationDenied (Unit {0})
authorize identity resource operation target_scope capabilities =
    let requested : Capability = record {
      resource = resource;
      operation = operation;
      target_scope = target_scope;
    } in
    if not (is_active identity.status)
    then err identity_not_active
    else if is_empty resource || (is_empty operation || is_empty target_scope)
    then err scope_required
    else if not (contains requested (or_default (lookup identity.id capabilities) []))
    then err scope_denied
    else ok tt

abbrev private_scope : String → String → Capability
private_scope resource operation = record {
  resource = resource;
  operation = operation;
  target_scope = "private";
}

abbrev owner_resources : List Capability
owner_resources =
    private_scope "control" "snapshot"
    ∷ private_scope "control" "experiments.read"
    ∷ private_scope "control" "knowledge.read"
    ∷ private_scope "control" "audit.read"
    ∷ private_scope "control" "autonomy.read"
    ∷ private_scope "control" "diagnostics.read"
    ∷ private_scope "control" "validation.read"
    ∷ private_scope "actions" "research.execute"
    ∷ private_scope "actions" "experiments.execute"
    ∷ private_scope "actions" "objectives.submit"
    ∷ private_scope "actions" "economic.outcome.record"
    ∷ []

unfoldable pub owner_read_only_policy : String → AuthorizationPolicy
owner_read_only_policy identity_id = (identity_id, owner_resources) ∷ []

-- A call is authorized exactly for an active identity, with three texts that are not empty, whose
-- own grants hold exactly this capability.
pub authorize-granted_iff :
    (identity : Identity) (c : Capability) (capabilities : AuthorizationPolicy)
    → (authorize identity c.resource c.operation c.target_scope capabilities ≡ ok tt) ↔ (
        (identity.status ≡ active)
        × (c.resource ≢ "")
        × (c.operation ≢ "")
        × (c.target_scope ≢ "")
        × (contains c (or_default (lookup identity.id capabilities) []) ≡ true))
unfolding authorize
authorize-granted_iff identity c capabilities =
    ground (arith, eq_iff c.resource "", eq_iff c.operation "", eq_iff c.target_scope "")

-- What a list of grants has in common, every capability found in it has.
contains-All :
    (P : Capability → Type 0) (c : Capability) (cs : List Capability)
    → All P cs
    → contains c cs ≡ true
    → P c
contains-All P c [] all found = cc
contains-All P c (d ∷ cs) all found = elim (Bool-cases (c == d)) [
  | inl same ↦ subst P (sym ((same_capability_iff c d).0 same)) all.0
  | inr other ↦ contains-All P c cs all.1 (ground arith)
]

abbrev pub IsPrivate : Capability → Type 0
IsPrivate c = c.target_scope ≡ "private"

owner_resources-IsPrivate : All IsPrivate owner_resources
owner_resources-IsPrivate = ground arith

granted : String → String → List Capability
granted owner id = or_default (lookup id ((owner, owner_resources) ∷ [])) []

granted-IsPrivate :
    (owner id : String) (c : Capability)
    → contains c (granted owner id) ≡ true
    → (id ≡ owner) × IsPrivate c
unfolding granted
granted-IsPrivate owner id c found = elim (Bool-cases (owner == id)) [
  | inl same ↦ (
    sym ((eq_iff owner id).0 same),
    contains-All IsPrivate c owner_resources owner_resources-IsPrivate (
        subst (λ b. contains c (or_default (if b then some owner_resources else none) []) ≡ true)
          same found),
  )
  | inr other ↦ ground (arith, found, other)
]

-- The owner's policy grants nothing to another identity, and nothing outside the private scope to
-- anyone.
owner_read_only_policy-IsPrivate :
    (owner : String) (identity : Identity) (c : Capability)
    → authorize identity c.resource c.operation c.target_scope (owner_read_only_policy owner)
      ≡ ok tt
    → (identity.id ≡ owner) × IsPrivate c
unfolding owner_read_only_policy granted
owner_read_only_policy-IsPrivate owner identity c h =
    granted-IsPrivate owner identity.id c
      ((authorize-granted_iff identity c (owner_read_only_policy owner)).0 h).4
