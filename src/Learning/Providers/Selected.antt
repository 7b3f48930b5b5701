-- ===== src/Learning/Providers/Selected.antt =====
-- Which provider is selected.
use aurelix.Base.{
  lookup, is_empty, or_default, values, subst, Bool, true, ◌≡◌, ◌⊎◌, inl, inr, refl, arith, none,
  List, [], ◌∷◌, String, ok, keep, any_of, All, Bool-cases,
}
use aurelix.Base.Int.{◌≤ℤ◌}
use aurelix.Learning.Providers.{
  normalize, resolve, select, CapabilityControlPlane, CapabilityProvider, comes_first, resolution,
  resolved, place, by_priority, resolve_among, selected,
}

-- The provider is one of the list.
abbrev pub In : CapabilityProvider → List CapabilityProvider → Type 0
In p [] = ⊥
In p (q ∷ qs) = (q ≡ p) ⊎ In p qs

abbrev pub AtMost : CapabilityProvider → CapabilityProvider → Type 0
AtMost p q = q.priority ≤ℤ p.priority

AtMost-trans :
    (p q : CapabilityProvider) (qs : List CapabilityProvider)
    → AtMost p q
    → All (AtMost q) qs
    → All (AtMost p) qs
AtMost-trans p q [] h a = tt
AtMost-trans p q (x ∷ xs) h a = (ground (arith, h, a.0), AtMost-trans p q xs h a.1)

by_priority-nil : (ps : List CapabilityProvider) → by_priority ps ≡ [] → ps ≡ []
by_priority-nil [] h = refl
by_priority-nil (p ∷ ps) h = absurd (place-nil p (by_priority ps) h)
  where
    place-nil : (p : CapabilityProvider) (qs : List CapabilityProvider) → place p qs ≡ [] → ⊥
    place-nil p [] h = ground (arith, h)
    place-nil p (q ∷ qs) h = ground (arith, h)

by_priority-first :
    (ps xs : List CapabilityProvider) (x : CapabilityProvider)
    → by_priority ps ≡ x ∷ xs
    → In x ps × All (AtMost x) ps
by_priority-first [] xs x h = absurd (ground (arith, h))
by_priority-first (p ∷ ps) xs x h =
    by_rest (by_priority ps) refl h (λ y ys e. by_priority-first ps ys y e)
  where
    by_rest :
        (qs : List CapabilityProvider)
        → by_priority ps ≡ qs
        → place p (by_priority ps) ≡ x ∷ xs
        → ((y : CapabilityProvider) (ys : List CapabilityProvider)
            → by_priority ps ≡ y ∷ ys
            → In y ps × All (AtMost y) ps)
        → In x (p ∷ ps) × All (AtMost x) (p ∷ ps)
    by_rest [] e h ih =
        let none_left = by_priority-nil ps e in
        let same : p ≡ x = ground (arith, h, e) in
        (inl same, (subst (λ q. AtMost q p) same (omega arith), rw none_left tt))
    by_rest (y ∷ ys) e h ih =
        let (here, most) = ih y ys e in
        elim (Bool-cases (comes_first p y)) [
          | inl first ↦
              let same : p ≡ x = ground (arith, h, e, first) in
              let le : AtMost p y = ground (arith, first) in
              subst (λ q. In q (p ∷ ps) × All (AtMost q) (p ∷ ps)) same
                (inl refl, (omega arith, AtMost-trans p y ps le most))
          | inr later ↦
              let same : y ≡ x = ground (arith, h, e, later) in
              let le : AtMost y p = ground (arith, later) in
              subst (λ q. In q (p ∷ ps) × All (AtMost q) (p ∷ ps)) same (inr here, (le, most))
        ]

keep-In :
    (f : CapabilityProvider → Bool) (x : CapabilityProvider) (ps : List CapabilityProvider)
    → In x (keep f ps)
    → In x ps × (f x ≡ true)
keep-In f x [] i = elim i [ ]
keep-In f x (p ∷ ps) i = elim (Bool-cases (f p)) [
  | inl kept ↦ by_head kept (rw kept at i) (keep-In f x ps)
  | inr gone ↦ let (j, e) = keep-In f x ps (rw gone at i) in (inr j, e)
]
  where
    by_head :
        f p ≡ true
        → In x (p ∷ keep f ps)
        → (In x (keep f ps) → In x ps × (f x ≡ true))
        → In x (p ∷ ps) × (f x ≡ true)
    by_head kept (inl same) rest = (inl same, subst (λ q. f q ≡ true) same kept)
    by_head kept (inr j) rest = let (j', e) = rest j in (inr j', e)

keep-All :
    (f : CapabilityProvider → Bool) (P : CapabilityProvider → Type 0) (ps : List CapabilityProvider)
    → All P (keep f ps)
    → All (λ q. f q ≡ true → P q) ps
keep-All f P [] a = tt
keep-All f P (p ∷ ps) a = elim (Bool-cases (f p)) [
  | inl kept ↦ let b = rw kept at a in ((λ _. b.0), keep-All f P ps b.1)
  | inr gone ↦ ((λ h. absurd (ground (arith, h, gone))), keep-All f P ps (rw gone at a))
]

-- The providers that `select` chooses from.
abbrev usable : List CapabilityProvider → List CapabilityProvider
usable ps = keep (λ x. x.available) (keep (λ x. x.authorized) (keep (λ x. x.enabled) ps))

head-ok :
    (key : String) (xs : List CapabilityProvider) (p : CapabilityProvider)
    → selected (resolution key resolved xs none) ≡ ok p
    → (ys : List CapabilityProvider) × (xs ≡ p ∷ ys)
unfolding selected
head-ok key [] p h = absurd (ground (arith, h))
head-ok key (x ∷ xs) p h = (xs, ground (arith, h))

resolve_among-first :
    (key : String) (ps : List CapabilityProvider) (p : CapabilityProvider)
    → selected (resolve_among key ps) ≡ ok p
    → (xs : List CapabilityProvider) × (by_priority (usable ps) ≡ p ∷ xs)
unfolding selected resolve_among
resolve_among-first key [] p h = absurd (ground (arith, h))
resolve_among-first key (q ∷ qs) p h =
    elim (Bool-cases (any_of (λ (x : CapabilityProvider). x.enabled) (q ∷ qs))) [
      | inr none_on ↦ absurd (ground (arith, rw (none_on) at h))
      | inl on ↦
          elim (Bool-cases
            (any_of (λ (x : CapabilityProvider). x.authorized) (keep (λ x. x.enabled) (q ∷ qs)))) [
              | inr barred ↦ absurd (ground (arith, rw (on, barred) at h))
              | inl let_in ↦
                  elim (Bool-cases (
                    any_of (λ (x : CapabilityProvider). x.available)
                      (keep (λ x. x.authorized) (keep (λ x. x.enabled) (q ∷ qs))))) [
                        | inr away ↦ absurd (ground (arith, rw (on, let_in, away) at h))
                        | inl here ↦
                            head-ok key (by_priority (usable (q ∷ qs))) p
                              (rw (on, let_in, here) at h)
                      ]
            ]
    ]

module _ (normalized : String → String) where
  -- The providers of a capability.
  abbrev pub providers_of : String → CapabilityControlPlane → List CapabilityProvider
  providers_of capability c = values (or_default (lookup (normalized capability) c) [])

  -- A provider that is selected is registered for the capability, enabled, authorized and available, and
  -- no other provider of the capability that is so has a higher priority.
  pub select-first :
      (capability : String) (c : CapabilityControlPlane) (p : CapabilityProvider)
      → select normalized capability c ≡ ok p
      → In p (providers_of capability c)
        × ((p.enabled ≡ true) × (p.authorized ≡ true) × (p.available ≡ true))
        × All
            (λ q. q.enabled ≡ true → q.authorized ≡ true → q.available ≡ true → AtMost p q)
            (providers_of capability c)
  unfolding select resolve normalize
  select-first capability c p h = elim (Bool-cases (is_empty (normalized capability))) [
    | inl refused ↦ absurd (ground (arith, rw (select, resolve, normalize, refused) at h))
    | inr named ↦
        let ps = providers_of capability c in
        let on = keep (λ (x : CapabilityProvider). x.enabled) ps in
        let (xs, first) =
          resolve_among-first (normalized capability) ps p
            (rw (select, resolve, normalize, named) at h) in
        let (here, most) = by_priority-first (usable ps) xs p first in
        let (in_allowed, available) =
          keep-In (λ x. x.available) p (keep (λ x. x.authorized) on) here in
        let (in_on, authorized) = keep-In (λ x. x.authorized) p on in_allowed in
        let (listed, enabled) = keep-In (λ x. x.enabled) p ps in_on in
        (
          listed,
          (enabled, authorized, available),
          keep-All (λ x. x.enabled) _ ps
              (keep-All (λ x. x.authorized) _ on
                (keep-All (λ x. x.available) _ (keep (λ x. x.authorized) on) most)),
        )
  ]
