-- ===== src/Learning/Providers.antt =====
-- src/aurelix_core/capability_control_plane.py. What `normalize` does to the text, which is `casefold`,
-- `replace` and `split` of Python's, is a parameter: the normalized text is empty for one that is refused.
pub mod Selected
use aurelix.Base.{
  Bool, true, false, not, Option, none, some, List, [], ◌∷◌, String, Result, ok, err, if◌then◌else◌,
  Dict, lookup, insert, erase, values, keep, any_of, or_default, is_blank, is_empty, strip,
  string_eq,
}
use aurelix.Base.Int.{ℤ, ltb_ℤ}
use aurelix.Store.Lease.{text_before}

pub data CapabilityStatus : Type 0 where
  resolved blocked missing learning_required unauthorized unavailable : CapabilityStatus

pub data ProviderKind : Type 0 where
  agent tool service : ProviderKind

pub record CapabilityProvider : Type 0 where
  pub provider_id : String
  pub capability : String
  pub kind : ProviderKind
  pub enabled : Bool
  pub available : Bool
  pub authorized : Bool
  pub priority : ℤ

pub record CapabilityResolution : Type 0 where
  pub capability : String
  pub status : CapabilityStatus
  pub providers : List CapabilityProvider
  pub reason : Option String

-- `_providers`
abbrev pub CapabilityControlPlane : Type 0
CapabilityControlPlane = Dict (Dict CapabilityProvider)

pub data ProviderError : Type 0 where
  capability_required provider_id_required : ProviderError
  not_resolved : CapabilityResolution → ProviderError

-- The key `(-p.priority, p.provider_id)` of the first is not after that of the second.
abbrev pub comes_first : CapabilityProvider → CapabilityProvider → Bool
comes_first a b =
    if ltb_ℤ b.priority a.priority
    then true
    else if ltb_ℤ a.priority b.priority
    then false
    else not (text_before b.provider_id a.provider_id)

abbrev pub place : CapabilityProvider → List CapabilityProvider → List CapabilityProvider
place p [] = p ∷ []
place p (q ∷ qs) = if comes_first p q then p ∷ q ∷ qs else q ∷ place p qs

-- `sorted`
abbrev pub by_priority : List CapabilityProvider → List CapabilityProvider
by_priority [] = []
by_priority (p ∷ ps) = place p (by_priority ps)

abbrev pub resolution :
    String → CapabilityStatus → List CapabilityProvider → Option String → CapabilityResolution
resolution capability status providers reason = record {
  capability = capability;
  status = status;
  providers = providers;
  reason = reason;
}

-- `resolve`, on the providers of the capability.
unfoldable pub resolve_among : String → List CapabilityProvider → CapabilityResolution
resolve_among key [] = resolution key missing [] (some "no provider is registered")
resolve_among key (p ∷ ps) =
    let enabled = keep (λ (x : CapabilityProvider). x.enabled) (p ∷ ps) in
    let authorized = keep (λ (x : CapabilityProvider). x.authorized) enabled in
    let available = keep (λ (x : CapabilityProvider). x.available) authorized in
    if not (any_of (λ (x : CapabilityProvider). x.enabled) (p ∷ ps))
    then resolution key blocked (p ∷ ps) (some "all providers are disabled")
    else if not (any_of (λ (x : CapabilityProvider). x.authorized) enabled)
    then resolution key unauthorized enabled (some "no enabled provider is authorized")
    else if not (any_of (λ (x : CapabilityProvider). x.available) authorized)
    then resolution key unavailable authorized (some "no authorized provider is available")
    else resolution key resolved (by_priority available) none

-- `providers[0]` of a resolution, which a resolved one has.
unfoldable pub selected : CapabilityResolution → Result ProviderError CapabilityProvider
selected r = elim r.status [
  | resolved ↦ elim r.providers [ [] ↦ err (not_resolved r) | p ∷ ps ↦ ok p ]
  | _ ↦ err (not_resolved r)
]

module _ (normalized : String → String) where
  unfoldable pub normalize : String → Result ProviderError String
  normalize capability =
      if is_empty (normalized capability)
      then err capability_required
      else ok (normalized capability)

  registered :
      CapabilityProvider
      → CapabilityControlPlane
      → Result ProviderError String
      → Result ProviderError CapabilityProvider × CapabilityControlPlane
  registered p c (err e) = (err e, c)
  registered p c (ok key) =
      let p' : CapabilityProvider = record p {
        provider_id = strip p.provider_id;
        capability = key;
      } in
      if is_blank p.provider_id
      then (err provider_id_required, c)
      else (ok p', insert key (insert (strip p.provider_id) p' (or_default (lookup key c) [])) c)

  unfoldable pub register :
      CapabilityProvider
      → CapabilityControlPlane
      → Result ProviderError CapabilityProvider × CapabilityControlPlane
  unfolding registered
  register p c = registered p c (normalize p.capability)

  abbrev without :
      String → Dict CapabilityProvider → CapabilityControlPlane → CapabilityControlPlane
  without key [] c = erase key c
  without key (p ∷ ps) c = insert key (p ∷ ps) c

  abbrev drop_provider :
      String
      → String
      → Option (Dict CapabilityProvider)
      → CapabilityControlPlane
      → CapabilityControlPlane
  drop_provider provider_id key none c = c
  drop_provider provider_id key (some []) c = c
  drop_provider provider_id key (some (p ∷ ps)) c = without key (erase provider_id (p ∷ ps)) c

  unfoldable pub unregister :
      String
      → String
      → CapabilityControlPlane
      → Result ProviderError (Unit {0}) × CapabilityControlPlane
  unregister provider_id capability c = elim (normalize capability) [
    | err e ↦ (err e, c)
    | ok key ↦ (ok tt, drop_provider provider_id key (lookup key c) c)
  ]

  unfoldable pub resolve :
      String → CapabilityControlPlane → Result ProviderError CapabilityResolution
  unfolding resolve_among
  resolve capability c = elim (normalize capability) [
    | err e ↦ err e
    | ok key ↦ ok (resolve_among key (values (or_default (lookup key c) [])))
  ]

  unfoldable pub select : String → CapabilityControlPlane → Result ProviderError CapabilityProvider
  unfolding selected
  select capability c = elim (resolve capability c) [ err e ↦ err e | ok r ↦ selected r ]
