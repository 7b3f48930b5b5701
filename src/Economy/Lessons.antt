-- ===== src/Economy/Lessons.antt =====
-- src/aurelix_core/verified_economic_learning.py. The set of fingerprints is a list, and a fingerprint
-- is the signal it is taken from, without the flag that is always set.
use aurelix.Base.{
  ◌==◌, Option-cases, All, List, ◌≡◌, Bool-cases, true, inl, inr, refl, arith, str_beq_refl, Bool,
  true, false, not, ◌&&◌, List, [], ◌∷◌, if◌then◌else◌, values, is_empty, any_of, string_eq,
}
use aurelix.Base.Int.{ℤ, pos, leb_ℤ}
use aurelix.Economy.Attribution.{EconomicAttribution, EconomicAttributionLedger, same_entry}

-- A signal has the fields of the entry that it comes from.
abbrev pub Signal : Type 0
Signal = EconomicAttribution

-- `realization_ratio`, as a fraction of the observed over the expected amount
unfoldable pub realization_ratio : Signal → ℤ × ℤ
realization_ratio s =
    if leb_ℤ s.expected_daily_eur (pos 0)
    then (pos 0, pos 1)
    else (s.observed_daily_eur, s.expected_daily_eur)

abbrev is_evidence : EconomicAttribution → Bool
is_evidence e = e.verified && not (is_empty e.governor_decision_id)

abbrev signals_of : List EconomicAttribution → List Signal
signals_of [] = []
signals_of (e ∷ es) = if is_evidence e then e ∷ signals_of es else signals_of es

unfoldable pub signals : EconomicAttributionLedger → List Signal
signals l = signals_of (values l)

abbrev pub emitted_before : Signal → List Signal → Bool
emitted_before s emitted = any_of (λ x. same_entry x s) emitted

-- The loop of `emit`: the fresh signals, and the fingerprints after it.
emit_loop : List Signal → List Signal → List Signal × List Signal
emit_loop [] emitted = ([], emitted)
emit_loop (s ∷ ss) emitted = elim (emitted_before s emitted) [
  | true ↦ emit_loop ss emitted
  | false ↦ let (fresh, after) = emit_loop ss (s ∷ emitted) in (s ∷ fresh, after)
]

-- `emit` on the fingerprints emitted so far.
unfoldable pub emit : EconomicAttributionLedger → List Signal → List Signal × List Signal
unfolding emit_loop signals
emit l emitted = emit_loop (signals l) emitted

same_signal_refl :
    (s : Signal)
    → ((s.opportunity_id == s.opportunity_id) ≡ true)
      × ((s.source_id == s.source_id) ≡ true)
      × ((s.governor_decision_id == s.governor_decision_id) ≡ true)
      × ((s.external_reference == s.external_reference) ≡ true)
same_signal_refl s = (
  str_beq_refl s.opportunity_id,
  str_beq_refl s.source_id,
  str_beq_refl s.governor_decision_id,
  str_beq_refl s.external_reference,
)

same_entry_refl : (s : Signal) → same_entry s s ≡ true
same_entry_refl s = elim (Option-cases s.resource_scope) [
  | inl empty ↦ ground (arith, empty, same_signal_refl s)
  | inr (t, full) ↦ ground (arith, full, same_signal_refl s, str_beq_refl t)
]

-- The loop forgets no fingerprint.
emit_loop-kept :
    (s : Signal) (ss emitted : List Signal)
    → emitted_before s emitted ≡ true
    → emitted_before s (emit_loop ss emitted).1 ≡ true
unfolding emit_loop
emit_loop-kept s [] emitted h = h
emit_loop-kept s (x ∷ ss) emitted h = elim (Bool-cases (emitted_before x emitted)) [
  | inl known ↦ ground (arith, known, emit_loop-kept s ss emitted h)
  | inr fresh ↦ ground (arith, fresh, emit_loop-kept s ss (x ∷ emitted))
]

abbrev AllEmitted : List Signal → List Signal → Type 0
AllEmitted ss emitted = All (λ s. emitted_before s emitted ≡ true) ss

emit_loop-AllEmitted : (ss emitted : List Signal) → AllEmitted ss (emit_loop ss emitted).1
unfolding emit_loop
emit_loop-AllEmitted [] emitted = tt
emit_loop-AllEmitted (x ∷ ss) emitted = elim (Bool-cases (emitted_before x emitted)) [
  | inl known ↦
      let kept = emit_loop-kept x ss emitted known in
      let rest = emit_loop-AllEmitted ss emitted in ground (arith, known)
  | inr fresh ↦
      let kept = emit_loop-kept x ss (x ∷ emitted) (ground (arith, same_entry_refl x)) in
      let rest = emit_loop-AllEmitted ss (x ∷ emitted) in ground (arith, fresh)
]

emit_loop-nothing :
    (ss emitted : List Signal) → AllEmitted ss emitted → emit_loop ss emitted ≡ ([], emitted)
unfolding emit_loop
emit_loop-nothing [] emitted h = refl
emit_loop-nothing (x ∷ ss) emitted h = rw (emit_loop, h.0) (emit_loop-nothing ss emitted h.1)

-- Nothing is emitted twice: with no new entry in the ledger, the next call emits nothing and changes
-- nothing, whatever was emitted before the first.
emit_once :
    (l : EconomicAttributionLedger) (emitted : List Signal)
    → let after = (emit l emitted).1 in emit l after ≡ ([], after)
unfolding emit
emit_once l emitted =
    emit_loop-nothing (signals l) (emit_loop (signals l) emitted).1
      (emit_loop-AllEmitted (signals l) emitted)
