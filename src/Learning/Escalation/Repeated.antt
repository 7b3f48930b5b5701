-- ===== src/Learning/Escalation/Repeated.antt =====
-- Asking for the same capability again.
use aurelix.Base.{
  ap, subst, ◌∷◌, Bool, true, ◌≡◌, refl, sym, ◌∙◌, arith, Option, none, some, List, String, Result,
  ok, err, lookup, is_blank, strip, string_eq, str_beq_refl, lookup-insert_self, inl, inr, ◌||◌,
  ◌&&◌, not, Option-cases,
}
use aurelix.Base.Int.{ℤ}
use aurelix.Learning.Study.{StudyObjective, ContinuousIntelligence, StudyError, unit_range}
use aurelix.Learning.Study.Objectives.{propose_objective-stored}
use aurelix.Learning.Escalation.{
  CapabilityGap, CapabilityEscalator, find_key, escalate, by_existing, known_gap, new_gap,
  objective_of,
}

-- The key stands for this gap, and the gap for this objective.
abbrev pub HasGap : String × String → CapabilityGap → StudyObjective → CapabilityEscalator → Type 0
HasGap key gap o s =
    (j : String) × (find_key key s.by_key ≡ some j)
    × (lookup j s.gaps ≡ some gap)
    × (lookup gap.study_objective_id s.intelligence.objectives ≡ some o)

find_key-cons :
    (key : String × String) (j : String) (ks : List ((String × String) × String))
    → find_key key ((key, j) ∷ ks) ≡ some j
find_key-cons (a, b) j ks = ground (arith, str_beq_refl a, str_beq_refl b)

known_gap-HasGap :
    (key : String × String) (j : String) (s : CapabilityEscalator) (g : Option CapabilityGap)
    (gap : CapabilityGap) (o : StudyObjective)
    → find_key key s.by_key ≡ some j
    → lookup j s.gaps ≡ g
    → (known_gap j s g).0 ≡ ok (gap, o)
    → HasGap key gap o (known_gap j s g).1
unfolding known_gap
known_gap-HasGap key j s none gap o k l h = ground (arith, h)
known_gap-HasGap key j s (some g) gap o k l h =
    elim (Option-cases (lookup g.study_objective_id s.intelligence.objectives)) [
      | inl gone ↦ ground (arith, h, gone)
      | inr (x, there) ↦
          let same : g ≡ gap = ground (arith, h, there) in
          let read : x ≡ o = ground (arith, h, there) in
          rw there (j, k, ground (arith, l, same), ground (arith, there, same, read))
    ]

new_gap-HasGap :
    (key : String × String) (gap' gap : CapabilityGap) (s : CapabilityEscalator)
    (r : Result StudyError StudyObjective × ContinuousIntelligence) (o : StudyObjective)
    → ((x : StudyObjective) → r.0 ≡ ok x → lookup gap'.study_objective_id r.1.objectives ≡ some x)
    → (new_gap key gap' s r).0 ≡ ok (gap, o)
    → HasGap key gap o (new_gap key gap' s r).1
unfolding new_gap
new_gap-HasGap key gap' gap s (err e, i) o stored h = ground (arith, h)
new_gap-HasGap key gap' gap s (ok x, i) o stored h =
    let same : gap' ≡ gap = ground (arith, h) in
    let read : x ≡ o = ground (arith, h) in
    (
      gap'.gap_id,
      find_key-cons key gap'.gap_id s.by_key,
      ground (arith, lookup-insert_self gap'.gap_id gap' s.gaps, same),
      ground (arith, stored x refl, same, read),
    )

by_existing-HasGap :
    (key : String × String) (made gap : CapabilityGap) (priority : ℤ) (s : CapabilityEscalator)
    (o : StudyObjective)
    → (by_existing key made priority s (find_key key s.by_key)).0 ≡ ok (gap, o)
    → HasGap key gap o (by_existing key made priority s (find_key key s.by_key)).1
by_existing-HasGap key made gap priority s o h = by_key (find_key key s.by_key) refl h
  where
    by_key :
        (m : Option String)
        → find_key key s.by_key ≡ m
        → (by_existing key made priority s m).0 ≡ ok (gap, o)
        → HasGap key gap o (by_existing key made priority s m).1
    by_key none k h =
        unfold by_existing in
        new_gap-HasGap key made gap s _ o (λ x e. propose_objective-stored _ _ _ _ _ _ _ x e) h
    by_key (some j) k h =
        unfold by_existing in known_gap-HasGap key j s (lookup j s.gaps) gap o k refl h

by_existing-known :
    (key : String × String) (made gap : CapabilityGap) (priority : ℤ) (s : CapabilityEscalator)
    (o : StudyObjective)
    → HasGap key gap o s
    → by_existing key made priority s (find_key key s.by_key) ≡ (ok (gap, o), s)
unfolding by_existing known_gap objective_of
by_existing-known key made gap priority s o (j, k, g, l) = rw (k, g, l) refl

-- What an escalation asks for is given, and its priority is from zero to one.
abbrev pub is_well_formed : String → String → String → ℤ → Bool
is_well_formed capability reason requested_by priority =
    not (is_blank capability || (is_blank reason || is_blank requested_by)) && unit_range priority

module _ (casefold : String → String) where
  abbrev pub key_of : String → String → String × String
  key_of capability reason = (casefold (strip capability), casefold (strip reason))

  abbrev made_gap : String → String → String → String → String → CapabilityGap
  made_gap id gap_id capability reason by = record {
    gap_id = gap_id;
    capability = strip capability;
    reason = strip reason;
    requested_by = strip by;
    study_objective_id = id;
  }

  escalate-by_existing :
      (id gap_id capability reason by : String) (priority : ℤ) (s : CapabilityEscalator)
      → is_well_formed capability reason by priority ≡ true
      → escalate casefold id gap_id capability reason by priority s
        ≡ by_existing
            (key_of capability reason)
            (made_gap id gap_id capability reason by)
            priority
            s
            (find_key (key_of capability reason) s.by_key)
  unfolding escalate
  escalate-by_existing id gap_id capability reason by priority s w = ground (arith, w)

  escalate-is_well_formed :
      (id gap_id capability reason by : String) (priority : ℤ) (s : CapabilityEscalator)
      (x : CapabilityGap × StudyObjective)
      → (escalate casefold id gap_id capability reason by priority s).0 ≡ ok x
      → is_well_formed capability reason by priority ≡ true
  unfolding escalate
  escalate-is_well_formed id gap_id capability reason by priority s x h = ground (arith, h)

  -- An escalation that succeeds is remembered: another one of the same capability and reason, up to the
  -- white space around them and the folding of letters, gives the same gap and the same study objective,
  -- and changes nothing, if that call is itself well formed: its capability, its reason and its requester
  -- are not blank and its priority is from 0 to 1. Requester and priority may differ from the first.
  pub escalate_again :
      (id gap_id id' gap_id' capability reason by capability' reason' by' : String)
      (priority priority' : ℤ) (s : CapabilityEscalator) (gap : CapabilityGap) (o : StudyObjective)
      → let first = escalate casefold id gap_id capability reason by priority s in
        first.0 ≡ ok (gap, o)
        → key_of capability' reason' ≡ key_of capability reason
        → is_well_formed capability' reason' by' priority' ≡ true
        → escalate casefold id' gap_id' capability' reason' by' priority' first.1
          ≡ (ok (gap, o), first.1)
  escalate_again id gap_id id' gap_id' capability reason by capability' reason' by' priority
        priority' s gap o h k w =
      let entry =
        escalate-by_existing id gap_id capability reason by priority s
          (escalate-is_well_formed id gap_id capability reason by priority s (gap, o) h) in
      let after : CapabilityEscalator =
        (by_existing (key_of capability reason) (made_gap id gap_id capability reason by) priority s
          (find_key (key_of capability reason) s.by_key)).1 in
      let kept =
        by_existing-HasGap (key_of capability reason) (made_gap id gap_id capability reason by) gap
          priority s o (ap (λ x. x.0) (sym entry) ∙ h) in
      let known = subst (λ key. HasGap key gap o after) (sym k) kept in
      rw entry (
        escalate-by_existing id' gap_id' capability' reason' by' priority' after w
        ∙ by_existing-known (key_of capability' reason')
            (made_gap id' gap_id' capability' reason' by') gap priority' after o known)
