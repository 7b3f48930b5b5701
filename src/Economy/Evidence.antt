-- ===== src/Economy/Evidence.antt =====
-- src/aurelix_core/evidence.py. A quality from 0 to 1 is counted in millionths. A confidence is a
-- fraction; quotients are exact, so the rounding of a Decimal at 28 digits is left out. The uuid4 of a
-- piece of evidence is an argument.
use aurelix.Base.{
  ℕ, ◌*◌, ◌≤◌, ◌+◌, Bool-cases, inl, inr, ◌<◌, Bool, true, false, not, ◌&&◌, ◌||◌, ◌≡◌, ◌↔◌, arith,
  List, [], ◌∷◌, map, String, Result, ok, err, if◌then◌else◌, keep, length, is_blank, ltb,
}
use aurelix.Base.Int.{pos_part, neg_part, ℤ, pos, negsuc, ltb_ℤ, leb_ℤ, ◌+ℤ◌, ◌-ℤ◌, ◌*ℤ◌}

pub data EvidenceRelation : Type 0 where
  supports contradicts context : EvidenceRelation

pub record Evidence : Type 0 where
  pub evidence_id : String
  pub source_ref : String
  pub claim : String
  pub relation : EvidenceRelation
  pub quality : ℤ

-- `num` parts of `den`
pub record Fraction : Type 0 where
  pub num : ℤ
  pub den : ℕ

abbrev pub one : ℕ
one = 1000000

pub data ClaimStatus : Type 0 where
  unverified conflicted supported inconclusive : ClaimStatus

pub record VerificationResult : Type 0 where
  pub claim : String
  pub evidence_refs : List String
  pub supporting_count : ℕ
  pub contradicting_count : ℕ
  pub confidence : Fraction
  pub status : ClaimStatus

pub data EvidenceError : Type 0 where
  claim_required source_and_claim_required quality_out_of_range : EvidenceError

abbrev pub is_support : Evidence → Bool
is_support e = elim e.relation [ supports ↦ true | _ ↦ false ]

abbrev pub is_contradiction : Evidence → Bool
is_contradiction e = elim e.relation [ contradicts ↦ true | _ ↦ false ]

abbrev pub total_quality : List Evidence → ℤ
total_quality [] = pos 0
total_quality (e ∷ es) = e.quality +ℤ total_quality es

-- `max(0, min(bound, x))`
abbrev pub clamp : ℕ → ℤ → ℤ
clamp bound x =
    let low = if ltb_ℤ (pos bound) x then pos bound else x in
    if ltb_ℤ low (pos 0) then pos 0 else low

-- The quality of the support less that of the contradictions.
abbrev pub balance : List Evidence → ℤ
balance es = total_quality (keep is_support es) -ℤ total_quality (keep is_contradiction es)

-- The scores are divided by the number of pieces of evidence.
abbrev pub confidence_of : List Evidence → Fraction
confidence_of es = record { num = clamp (length es * one) (balance es); den = length es * one }

-- `confidence < tenths / 10`
abbrev pub below : ℕ → Fraction → Bool
below tenths f = ltb_ℤ (pos 10 *ℤ f.num) (pos (tenths * f.den))

abbrev pub some_of {ℓ} : {A : Type ℓ} → List A → Bool
some_of [] = false
some_of (x ∷ xs) = true

abbrev pub status_of : List Evidence → ClaimStatus
status_of es =
    if some_of (keep is_contradiction es) && below 5 (confidence_of es)
    then conflicted
    else if some_of (keep is_support es) && not (below 6 (confidence_of es))
    then supported
    else inconclusive

unfoldable pub verify_claim : String → List Evidence → Result EvidenceError VerificationResult
verify_claim claim evidence = if is_blank claim then err claim_required else elim evidence [
  | [] ↦ ok (record {
    claim = claim;
    evidence_refs = [];
    supporting_count = 0;
    contradicting_count = 0;
    confidence = record { num = pos 0; den = one };
    status = unverified;
  })
  | e ∷ es ↦ ok (record {
    claim = claim;
    evidence_refs = map (λ x. x.evidence_id) (e ∷ es);
    supporting_count = length (keep is_support (e ∷ es));
    contradicting_count = length (keep is_contradiction (e ∷ es));
    confidence = confidence_of (e ∷ es);
    status = status_of (e ∷ es);
  })
]

unfoldable pub make_evidence :
    String → String → String → EvidenceRelation → ℤ → Result EvidenceError Evidence
make_evidence evidence_id source_ref claim relation quality =
    if is_blank source_ref || is_blank claim
    then err source_and_claim_required
    else if not (leb_ℤ (pos 0) quality && leb_ℤ quality (pos one))
    then err quality_out_of_range
    else ok (record {
      evidence_id = evidence_id;
      source_ref = source_ref;
      claim = claim;
      relation = relation;
      quality = quality;
    })

-- Ten times an integer, without the product of integers.
times_ten :
    (x : ℤ) (d : ℕ) → ltb_ℤ (pos 10 *ℤ x) (pos d) ≡ ltb (10 * pos_part x) (d + 10 * neg_part x)
unfolding ◌*ℤ◌
times_ten (pos n) d = ground arith
times_ten (negsuc n) d = ground arith

-- The clamp makes no difference to a comparison with a part of the bound.
clamp-below :
    (d t : ℕ) (x : ℤ)
    → 0 < t
    → t ≤ 10 * d
    → ltb_ℤ (pos 10 *ℤ clamp d x) (pos t) ≡ ltb_ℤ (pos 10 *ℤ x) (pos t)
clamp-below d t (pos n) h g = ground (arith, times_ten (clamp d (pos n)) t, times_ten (pos n) t)
clamp-below d t (negsuc n) h g =
    ground (arith, times_ten (clamp d (negsuc n)) t, times_ten (negsuc n) t)

length-some : (es : List Evidence) → some_of (keep is_support es) ≡ true → 0 < length es
length-some [] h = ground arith
length-some (e ∷ es) h = omega arith

-- A claim is supported exactly when some evidence supports it and the quality of the support exceeds
-- that of the contradictions by six tenths of a full piece for each piece of evidence.
status_of-supported_iff :
    (es : List Evidence)
    → (status_of es ≡ supported) ↔ (
        (some_of (keep is_support es) ≡ true)
        × (ltb_ℤ (pos 10 *ℤ balance es) (pos (6 * (length es * one))) ≡ false))
status_of-supported_iff es = elim (Bool-cases (some_of (keep is_support es))) [
  | inr nothing ↦ ground (arith, nothing)
  | inl found ↦
      let d = length es * one in
      let many = length-some es found in
      let half = clamp-below d (5 * d) (balance es) (omega arith) (omega arith) in
      let most = clamp-below d (6 * d) (balance es) (omega arith) (omega arith) in
      let half' = times_ten (balance es) (5 * d) in
      let most' = times_ten (balance es) (6 * d) in ground (arith, found)
]
