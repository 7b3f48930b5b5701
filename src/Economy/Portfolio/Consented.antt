-- ===== src/Economy/Portfolio/Consented.antt =====
-- No source earns without the approval that it requires.
use aurelix.Base.{
  false, not, ◌&&◌, ◌||◌, ◌≡◌, refl, arith, Option, some, List, [], ◌∷◌, String, lookup, AllValues,
  AllValues-insert, AllValues-lookup, is_empty, or_default, is_some, length, leb, Bool-cases,
  Option-cases, inl, inr,
}
use aurelix.Base.Int.{ℤ, pos, ltb_ℤ}
use aurelix.Economy.Portfolio.{
  with_source, Outcome, RevenueSource, RevenuePortfolio, is_active, is_failed, viable, add,
  discover, discovered_source, approve, approved_source, activate, activated_source,
  record_realized_daily, realized_source, replace, replaced_sources,
}

-- A source that is active has the approval that it requires.
abbrev pub IsConsented : RevenueSource → Type 0
IsConsented s = (is_active s.status && (s.human_approval_required && not s.human_approved)) ≡ false

abbrev pub IsLawful : RevenuePortfolio → Type 0
IsLawful p = AllValues IsConsented p.sources

-- The calls of the portfolio; a discovered source comes with its arguments.
pub data PortfolioCall : Type 0 where
  add_call : (source : RevenueSource) → PortfolioCall
  discover_call :
      (source_id owner_role name channel : String) (expected confidence risk : ℤ)
      (connector : Option String)
      → PortfolioCall
  approve_call activate_call : (source_id : String) → PortfolioCall
  realize_call : (source_id : String) (amount : ℤ) → PortfolioCall
  replace_call : (failed_id candidate_id : String) → PortfolioCall

unfoldable pub perform : PortfolioCall → RevenuePortfolio → RevenuePortfolio
perform (add_call source) p = (add source p).1
perform (discover_call id role name channel expected confidence risk connector) p =
    (discover id role name channel expected confidence risk connector p).1
perform (approve_call id) p = (approve id p).1
perform (activate_call id) p = (activate id p).1
perform (realize_call id amount) p = (record_realized_daily id amount p).1
perform (replace_call failed candidate) p = (replace failed candidate p).1

unfoldable pub perform_all : List PortfolioCall → RevenuePortfolio → RevenuePortfolio
unfolding perform
perform_all [] p = p
perform_all (c ∷ cs) p = perform_all cs (perform c p)

with_source-IsLawful :
    (id : String) (body : RevenueSource → RevenuePortfolio → Outcome) (p : RevenuePortfolio)
    → IsLawful p
    → ((s : RevenueSource) → lookup id p.sources ≡ some s → IsLawful (body s p).1)
    → IsLawful (with_source id body p).1
with_source-IsLawful id body p h k = elim (Option-cases (lookup id p.sources)) [
  | inl absent ↦ rw (with_source, absent) h
  | inr (s, found) ↦ rw (with_source, found) (k s found)
]

approve-IsLawful : (id : String) (p : RevenuePortfolio) → IsLawful p → IsLawful (approve id p).1
unfolding approve approved_source
approve-IsLawful id p h =
    with_source-IsLawful id (approved_source id) p h
      (λ s _. AllValues-insert IsConsented id _ p.sources refl h)

activated-IsLawful :
    (id : String) (s : RevenueSource) (p : RevenuePortfolio)
    → IsLawful p
    → IsLawful (activated_source id s p).1
unfolding activated_source
activated-IsLawful id s p h =
    elim (Bool-cases (s.human_approval_required && not s.human_approved)) [
      | inl refused ↦ rw (activated_source, refused) h
      | inr free ↦ elim (Bool-cases (is_empty (or_default s.connector ""))) [
        | inl unconnected ↦ rw (activated_source, free, unconnected) h
        | inr connected ↦
            rw (activated_source, free, connected)
              (AllValues-insert IsConsented id _ p.sources free h)
      ]
    ]

add-IsLawful :
    (source : RevenueSource) (p : RevenuePortfolio)
    → IsConsented source
    → IsLawful p
    → IsLawful (add source p).1
unfolding add
add-IsLawful source p consented h =
    elim (Bool-cases (leb p.target.maximum_sources (length p.sources))) [
      | inl full ↦ rw (add, full) h
      | inr room ↦ elim (Bool-cases (is_some (lookup source.source_id p.sources))) [
        | inl taken ↦ rw (add, room, taken) h
        | inr fresh ↦
            elim (Bool-cases (
              ltb_ℤ source.expected_daily_eur (pos 0) || ltb_ℤ source.realized_daily_eur (pos 0))) [
                | inl negative ↦ rw (add, room, fresh, negative) h
                | inr fine ↦
                    rw (add, room, fresh, fine)
                      (AllValues-insert IsConsented source.source_id source p.sources consented h)
              ]
      ]
    ]

discover-IsLawful :
    (id role name channel : String) (expected confidence risk : ℤ) (connector : Option String)
    (p : RevenuePortfolio)
    → IsLawful p
    → IsLawful (discover id role name channel expected confidence risk connector p).1
unfolding discover
discover-IsLawful id role name channel expected confidence risk connector p h =
    add-IsLawful (discovered_source id role name channel expected confidence risk connector) p refl
      h

realize-IsLawful :
    (id : String) (amount : ℤ) (p : RevenuePortfolio)
    → IsLawful p
    → IsLawful (record_realized_daily id amount p).1
unfolding record_realized_daily realized_source
realize-IsLawful id amount p h = elim (Bool-cases (ltb_ℤ amount (pos 0))) [
  | inl negative ↦ rw (record_realized_daily, negative) h
  | inr fine ↦
      rw (record_realized_daily, fine)
        (with_source-IsLawful id (realized_source id amount) p h (λ s found.
          let before = AllValues-lookup IsConsented id s p.sources h found in
          AllValues-insert IsConsented id _ p.sources (ground (arith, before)) h))
]

replaced-IsLawful :
    (failed_id candidate_id : String) (failed candidate : RevenueSource) (p : RevenuePortfolio)
    → IsLawful p
    → IsLawful (replaced_sources failed_id candidate_id failed candidate p).1
unfolding replaced_sources
replaced-IsLawful failed_id candidate_id failed candidate p h =
    elim (Bool-cases (is_failed failed.status)) [
      | inr sound ↦ rw (replaced_sources, sound) h
      | inl gone ↦ elim (Bool-cases (viable candidate)) [
        | inr weak ↦ rw (replaced_sources, gone, weak) h
        | inl fit ↦
            rw (replaced_sources, gone, fit)
              (AllValues-insert IsConsented failed_id _ _ refl
                (AllValues-insert IsConsented candidate_id _ p.sources (ground (arith, fit)) h))
      ]
    ]

replace-IsLawful :
    (failed_id candidate_id : String) (p : RevenuePortfolio)
    → IsLawful p
    → IsLawful (replace failed_id candidate_id p).1
unfolding replace
replace-IsLawful failed_id candidate_id p h =
    with_source-IsLawful failed_id
      (λ failed p.
        with_source candidate_id
          (λ candidate p. replaced_sources failed_id candidate_id failed candidate p) p)
      p h
      (λ failed _.
        with_source-IsLawful candidate_id
          (λ candidate p. replaced_sources failed_id candidate_id failed candidate p) p h
          (λ candidate _. replaced-IsLawful failed_id candidate_id failed candidate p h))

activate-IsLawful : (id : String) (p : RevenuePortfolio) → IsLawful p → IsLawful (activate id p).1
unfolding activate
activate-IsLawful id p h =
    with_source-IsLawful id (activated_source id) p h (λ s _. activated-IsLawful id s p h)

-- What a call adds is active only with the approval that it requires; `add` does not look.
abbrev pub AddsConsented : List PortfolioCall → Type 0
AddsConsented [] = Unit
AddsConsented (add_call source ∷ cs) = IsConsented source × AddsConsented cs
AddsConsented (_ ∷ cs) = AddsConsented cs

-- If every active source has the approval that it requires, this stays so whatever methods of the
-- portfolio are called, calls that are refused among them, as long as no source that is given to
-- `add` is itself active without the approval that it requires.
pub perform_all-IsLawful :
    (cs : List PortfolioCall) (p : RevenuePortfolio)
    → AddsConsented cs
    → IsLawful p
    → IsLawful (perform_all cs p)
unfolding perform_all perform
perform_all-IsLawful [] p a h = h
perform_all-IsLawful (add_call source ∷ cs) p a h =
    perform_all-IsLawful cs (add source p).1 a.1 (add-IsLawful source p a.0 h)
perform_all-IsLawful (discover_call id role name channel expected confidence risk connector ∷ cs) p
      a h =
    perform_all-IsLawful cs _ a
      (discover-IsLawful id role name channel expected confidence risk connector p h)
perform_all-IsLawful (approve_call id ∷ cs) p a h =
    perform_all-IsLawful cs _ a (approve-IsLawful id p h)
perform_all-IsLawful (activate_call id ∷ cs) p a h =
    perform_all-IsLawful cs _ a (activate-IsLawful id p h)
perform_all-IsLawful (realize_call id amount ∷ cs) p a h =
    perform_all-IsLawful cs _ a (realize-IsLawful id amount p h)
perform_all-IsLawful (replace_call failed candidate ∷ cs) p a h =
    perform_all-IsLawful cs _ a (replace-IsLawful failed candidate p h)
