-- ===== src/Economy/Qualification.antt =====
-- src/aurelix_core/economic_opportunity_validation.py. The dictionary of results is the list of them,
-- in the order of the required claims.
use aurelix.Base.{
  Bool, true, false, not, ◌&&◌, ◌≡◌, ◌≢◌, List, [], ◌∷◌, ◌++◌, map, String, ok, err, if◌then◌else◌,
  Dict, lookup, any_of, all_of, or_default, All,
}
use aurelix.Base.Int.{pos, ltb_ℤ, ◌*ℤ◌}
use aurelix.Economy.Evidence.{
  Evidence, Fraction, one, ClaimStatus, supported, conflicted, VerificationResult, verify_claim,
  below, is_contradiction, status_of,
}
use aurelix.Economy.Opportunities.{Opportunity}

pub data QualificationStatus : Type 0 where
  unqualified qualified conflicting : QualificationStatus

pub record EconomicQualification : Type 0 where
  pub opportunity_id : String
  pub status : QualificationStatus
  pub confidence : Fraction
  pub claim_statuses : List (String × ClaimStatus)
  pub evidence_refs : List String

abbrev pub is_qualified : EconomicQualification → Bool
is_qualified q = elim q.status [ qualified ↦ true | _ ↦ false ]

abbrev pub required_claims : List String
required_claims = "demand" ∷ "monetization_path" ∷ "source_reality" ∷ []

-- `verify_claim` of a required claim, whose name is not blank, so that it never raises.
abbrev pub verified : Dict (List Evidence) → String → List VerificationResult
verified evidence_by_claim claim =
    elim (verify_claim claim (or_default (lookup claim evidence_by_claim) [])) [
      | ok r ↦ r ∷ []
      | err e ↦ []
    ]

abbrev pub results_of : Dict (List Evidence) → List String → List VerificationResult
results_of evidence_by_claim [] = []
results_of evidence_by_claim (c ∷ cs) =
    verified evidence_by_claim c ++ results_of evidence_by_claim cs

abbrev is_conflicted : VerificationResult → Bool
is_conflicted r = elim r.status [ conflicted ↦ true | _ ↦ false ]

abbrev pub is_strong : VerificationResult → Bool
is_strong r = elim r.status [ supported ↦ true | _ ↦ false ] && not (below 6 r.confidence)

-- The smaller of two fractions, the first of equal ones.
abbrev pub smaller : Fraction → Fraction → Fraction
smaller f g = if ltb_ℤ (g.num *ℤ pos f.den) (f.num *ℤ pos g.den) then g else f

abbrev least : Fraction → List VerificationResult → Fraction
least f [] = f
least f (r ∷ rs) = least (smaller f r.confidence) rs

abbrev least_of : List VerificationResult → Fraction
least_of [] = record { num = pos 0; den = one }
least_of (r ∷ rs) = least r.confidence rs

abbrev refs_of : List VerificationResult → List String
refs_of [] = []
refs_of (r ∷ rs) = r.evidence_refs ++ refs_of rs

abbrev pub status_from : List VerificationResult → QualificationStatus
status_from rs =
    if any_of is_conflicted rs
    then conflicting
    else if all_of is_strong rs
    then qualified
    else unqualified

unfoldable pub qualify_opportunity : Opportunity → Dict (List Evidence) → EconomicQualification
unfolding verify_claim
qualify_opportunity o evidence_by_claim =
    let results = results_of evidence_by_claim required_claims in
    record {
      opportunity_id = o.opportunity_id;
      status = status_from results;
      confidence = least_of results;
      claim_statuses = map (λ r. (r.claim, r.status)) results;
      evidence_refs = refs_of results;
    }

-- `evidence_is_execution_safe`
unfoldable pub evidence_is_execution_safe : List Evidence → Bool
evidence_is_execution_safe evidence = not (any_of is_contradiction evidence)

-- What stands for each required claim in a dictionary of evidence.
abbrev pub evidence_for : Dict (List Evidence) → String → List Evidence
evidence_for d c = or_default (lookup c d) []

abbrev pub IsBacked : Dict (List Evidence) → String → Type 0
IsBacked d c = (status_of (evidence_for d c) ≡ supported) × (evidence_for d c ≢ [])

abbrev AllBacked : Dict (List Evidence) → List String → Type 0
AllBacked d cs = All (IsBacked d) cs
