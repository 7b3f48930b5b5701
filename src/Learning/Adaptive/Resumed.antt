-- ===== src/Learning/Adaptive/Resumed.antt =====
-- When a blocked mission goes on.
use aurelix.Base.{
  Bool, true, false, ◌≡◌, inl, inr, arith, Bool-cases, some, List, [], ◌∷◌, String, ok, Dict,
  lookup, values, any_of, all_of, All, AllValues, string_eq, eq_iff,
}
use aurelix.Learning.Study.{Capability}
use aurelix.Learning.Study.Kept.{IsSound, Backed}
use aurelix.Learning.Adaptive.{
  AdaptiveMission, AdaptiveLoop, intelligence, validates, capability_validated, can_resume, resumed,
  resume_ready,
}

any_of-values :
    {V : Type 0} (p : V → Bool) (P : V → Type 0) (d : Dict V)
    → any_of p (values d) ≡ true
    → AllValues P d
    → (v : V) × (p v ≡ true) × P v
any_of-values p P [] h a = cc
any_of-values p P ((k, v) ∷ d) h a = elim (Bool-cases (p v)) [
  | inl hit ↦ (v, hit, a.0)
  | inr miss ↦ any_of-values p P d (ground arith) a.1
]

module _ (casefold : String → String) where
  -- The loop knows a capability of this name that is validated and rests on known evidence.
  abbrev pub IsLearned : AdaptiveLoop → String → Type 0
  IsLearned l name =
      (c : Capability) × (casefold c.name ≡ casefold name)
      × (c.is_validated ≡ true)
      × Backed (intelligence l).evidence c.evidence_refs

  capability_validated-IsLearned :
      (l : AdaptiveLoop) (name : String)
      → IsSound (intelligence l)
      → capability_validated casefold name l ≡ true
      → IsLearned l name
  unfolding capability_validated
  capability_validated-IsLearned l name sound h =
      let (c, hit, p) =
        any_of-values (validates casefold name) _ (intelligence l).capabilities h
          sound.capabilities_backed in
      (c, ground (arith, hit, eq_iff (casefold c.name) (casefold name)), ground (arith, hit), p.0)

  all-IsLearned :
      (l : AdaptiveLoop) (names : List String)
      → IsSound (intelligence l)
      → all_of (λ c. capability_validated casefold c l) names ≡ true
      → All (IsLearned l) names
  all-IsLearned l [] sound h = tt
  all-IsLearned l (n ∷ ns) sound h = (
    capability_validated-IsLearned l n sound (ground arith),
    all-IsLearned l ns sound (ground arith),
  )

  -- Over a sound registry a mission resumes only when for each capability that it requires there is one
  -- of that name, letters folded, that is validated and rests on known evidence; it is then no longer
  -- blocked, and requires what it did.
  pub resume_ready-IsLearned :
      (k : String) (l : AdaptiveLoop) (mission m : AdaptiveMission)
      → IsSound (intelligence l)
      → lookup k l.missions ≡ some mission
      → (resume_ready casefold k l).0 ≡ ok m
      → (m.blocked ≡ false)
        × (m.required_capabilities ≡ mission.required_capabilities)
        × All (IsLearned l) mission.required_capabilities
  unfolding resume_ready resumed can_resume
  resume_ready-IsLearned k l mission m sound found h =
      elim (Bool-cases
        (all_of (λ c. capability_validated casefold c l) mission.required_capabilities)) [
          | inl ready ↦ (
            ground (arith, found, ready, h),
            ground (arith, found, ready, h),
            all-IsLearned l mission.required_capabilities sound ready,
          )
          | inr unready ↦ absurd (ground (arith, found, unready, h))
        ]
