-- ===== src/Economy/Attribution.antt =====
-- src/aurelix_core/economic_attribution.py. Amounts are integers in the smallest unit in use.
use aurelix.Base.{
  Bool, true, false, not, ◌&&◌, ◌||◌, ◌≡◌, arith, List, [], ◌∷◌, String, Option, none, some, Result,
  ok, err, inl, inr, if◌then◌else◌, Dict, lookup, insert, values, keep, is_blank, is_empty, strip,
  or_default, ◌==◌, string_eq, eq_iff, lookup-insert, Option-cases,
}
use aurelix.Base.Int.{ℤ, pos, ltb_ℤ, leb_ℤ, ◌-ℤ◌}

pub record EconomicAttribution : Type 0 where
  pub opportunity_id : String
  pub source_id : String
  pub governor_decision_id : String
  pub resource_scope : Option String
  pub expected_daily_eur : ℤ
  pub observed_daily_eur : ℤ
  pub variance_daily_eur : ℤ
  pub verified : Bool
  pub external_reference : String

-- The ledger's `_entries`, by external reference.
abbrev pub EconomicAttributionLedger : Type 0
EconomicAttributionLedger = Dict EconomicAttribution

pub data AttributionError : Type 0 where
  ids_required negative_amount not_verified decision_required reference_required reference_taken :
      AttributionError

abbrev same_text_option : Option String → Option String → Bool
same_text_option none none = true
same_text_option (some a) (some b) = a == b
same_text_option _ _ = false

abbrev same_int : ℤ → ℤ → Bool
same_int a b = leb_ℤ a b && leb_ℤ b a

abbrev same_bool : Bool → Bool → Bool
same_bool true b = b
same_bool false b = not b

-- `existing == entry`, the equality of the dataclass: field by field
abbrev pub same_entry : EconomicAttribution → EconomicAttribution → Bool
same_entry a b =
    a.opportunity_id == b.opportunity_id
    && (a.source_id == b.source_id
        && (a.governor_decision_id == b.governor_decision_id
            && (same_text_option a.resource_scope b.resource_scope
                && (same_int a.expected_daily_eur b.expected_daily_eur
                    && (same_int a.observed_daily_eur b.observed_daily_eur
                        && (same_int a.variance_daily_eur b.variance_daily_eur
                            && (same_bool a.verified b.verified
                                && a.external_reference == b.external_reference)))))))

-- What a caller reports.
pub record Observation : Type 0 where
  pub opportunity_id : String
  pub source_id : String
  pub expected_daily_eur : ℤ
  pub observed_daily_eur : ℤ
  pub governor_decision_id : Option String
  pub resource_scope : Option String
  pub verified : Bool
  pub external_reference : Option String

abbrev pub entry_of : Observation → EconomicAttribution
entry_of o = record {
  opportunity_id = o.opportunity_id;
  source_id = o.source_id;
  governor_decision_id = or_default o.governor_decision_id "";
  resource_scope = o.resource_scope;
  expected_daily_eur = o.expected_daily_eur;
  observed_daily_eur = o.observed_daily_eur;
  variance_daily_eur = o.observed_daily_eur -ℤ o.expected_daily_eur;
  verified = true;
  external_reference = strip (or_default o.external_reference "");
}

-- The checks before an entry is made, in order.
abbrev pub refusal : Observation → Option AttributionError
refusal o =
    if is_blank o.opportunity_id || is_blank o.source_id
    then some ids_required
    else if ltb_ℤ o.expected_daily_eur (pos 0) || ltb_ℤ o.observed_daily_eur (pos 0)
    then some negative_amount
    else if not o.verified
    then some not_verified
    else if is_empty (or_default o.governor_decision_id "")
    then some decision_required
    else if is_blank (or_default o.external_reference "")
    then some reference_required
    else none

-- After the lookup under the reference.
record_found :
    EconomicAttribution
    → EconomicAttributionLedger
    → Option EconomicAttribution
    → Result AttributionError EconomicAttribution × EconomicAttributionLedger
record_found entry l none = (ok entry, insert entry.external_reference entry l)
record_found entry l (some existing) =
    if same_entry existing entry then (ok existing, l) else (err reference_taken, l)

unfoldable pub record_observation :
    Observation
    → EconomicAttributionLedger
    → Result AttributionError EconomicAttribution × EconomicAttributionLedger
unfolding record_found
record_observation o l = elim (refusal o) [
  | some e ↦ (err e, l)
  | none ↦ record_found (entry_of o) l (lookup (entry_of o).external_reference l)
]

-- `all`
abbrev pub all_entries : EconomicAttributionLedger → List EconomicAttribution
all_entries l = values l

unfoldable pub by_opportunity : String → EconomicAttributionLedger → List EconomicAttribution
by_opportunity opportunity_id l = keep (λ e. e.opportunity_id == opportunity_id) (values l)

pub record_all : List Observation → EconomicAttributionLedger → EconomicAttributionLedger
unfolding record_observation
record_all [] l = l
record_all (o ∷ os) l = record_all os (record_observation o l).1

record_observation-kept :
    (o : Observation) (l : EconomicAttributionLedger) (k : String) (e : EconomicAttribution)
    → lookup k l ≡ some e
    → lookup k (record_observation o l).1 ≡ some e
unfolding record_observation record_found
record_observation-kept o l k e h = elim (Option-cases (refusal o)) [
  | inr (x, refused) ↦ ground (arith, refused, h)
  | inl fine ↦ elim (Option-cases (lookup (entry_of o).external_reference l)) [
    | inr (old, there) ↦ ground (arith, fine, there, h)
    | inl free ↦ ground (
      arith,
      fine,
      free,
      h,
      eq_iff (entry_of o).external_reference k,
      lookup-insert (entry_of o).external_reference k (entry_of o) l,
    )
  ]
]

-- An entry of the ledger stays what it is under any reports that follow: a reference is never given to
-- other facts.
record_all-kept :
    (os : List Observation) (l : EconomicAttributionLedger) (k : String) (e : EconomicAttribution)
    → lookup k l ≡ some e
    → lookup k (record_all os l) ≡ some e
unfolding record_all
record_all-kept [] l k e h = h
record_all-kept (o ∷ os) l k e h =
    record_all-kept os (record_observation o l).1 k e (record_observation-kept o l k e h)
