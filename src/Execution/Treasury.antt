-- ===== src/Execution/Treasury.antt =====
-- src/aurelix_core/treasury.py. Amounts are counted in the smallest unit in use; the lock makes each
-- method one step.
use aurelix.Base.{
  Bool, true, false, ◌≡◌, arith, if◌then◌else◌, List, [], ◌∷◌, Result, ok, err, is_ok,
}
use aurelix.Base.Int.{ℤ, pos, ◌+ℤ◌, ◌-ℤ◌, ◌≤ℤ◌, ltb_ℤ, leb_ℤ}

pub record TreasurySnapshot : Type 0 where
  pub available_eur : ℤ
  pub reserved_eur : ℤ
  pub spent_eur : ℤ

abbrev pub free_eur : TreasurySnapshot → ℤ
free_eur s = s.available_eur -ℤ s.reserved_eur

pub record Treasury : Type 0 where
  pub available : ℤ
  pub reserved : ℤ
  pub spent : ℤ

pub data TreasuryError : Type 0 where
  negative_initial not_positive insufficient : TreasuryError

-- `__init__`
unfoldable pub new : ℤ → Result TreasuryError Treasury
new initial_eur =
    if ltb_ℤ initial_eur (pos 0)
    then err negative_initial
    else ok (record { available = initial_eur; reserved = pos 0; spent = pos 0 })

unfoldable pub snapshot : Treasury → TreasurySnapshot
snapshot t = record { available_eur = t.available; reserved_eur = t.reserved; spent_eur = t.spent }

unfoldable pub can_reserve : ℤ → Treasury → Bool
can_reserve amount t =
    if leb_ℤ amount (pos 0) then false else leb_ℤ amount (t.available -ℤ t.reserved)

unfoldable pub reserve : ℤ → Treasury → Result TreasuryError TreasurySnapshot × Treasury
unfolding snapshot
reserve amount t =
    if leb_ℤ amount (pos 0)
    then (err not_positive, t)
    else if ltb_ℤ (t.available -ℤ t.reserved) amount
    then (err insufficient, t)
    else (let t' = record t { reserved = t.reserved +ℤ amount } in (ok (snapshot t'), t'))

pub record IsSolvent (t : Treasury) : Type 0 where
  pub nonneg : pos 0 ≤ℤ t.reserved
  pub covered : t.reserved ≤ℤ t.available
  pub unspent : t.spent ≡ pos 0

-- A new treasury has reserved nothing and is solvent.
pub new-IsSolvent : (v : ℤ) {t : Treasury} → new v ≡ ok t → IsSolvent t × (t.available ≡ v)
unfolding new
new-IsSolvent v h = ground arith

-- `can_reserve` says beforehand whether `reserve` returns or raises. A reservation that returns lowers
-- what is free by its amount and leaves the balance alone; one that raises changes nothing.
pub reserve_exact :
    (v : ℤ) (t : Treasury)
    → (is_ok (reserve v t).0 ≡ can_reserve v t)
      × (can_reserve v t ≡ true
          → (free_eur (snapshot (reserve v t).1) ≡ free_eur (snapshot t) -ℤ v)
            × ((reserve v t).0 ≡ ok (snapshot (reserve v t).1))
            × ((reserve v t).1.available ≡ t.available))
      × (can_reserve v t ≡ false → (reserve v t).1 ≡ t)
unfolding reserve can_reserve ◌+ℤ◌ ◌-ℤ◌
reserve_exact v t = (ground arith, (λ h. ground arith), (λ h. ground arith))

-- A reservation, granted or refused, keeps the treasury solvent.
pub reserve-IsSolvent : (v : ℤ) (t : Treasury) → IsSolvent t → IsSolvent (reserve v t).1
unfolding reserve ◌+ℤ◌ ◌-ℤ◌
reserve-IsSolvent v t h = ground arith

pub reserve_all : List ℤ → Treasury → Treasury
reserve_all [] t = t
reserve_all (v ∷ vs) t = reserve_all vs (reserve v t).1

-- No sequence of reservations, granted or refused, takes more than the balance, and none spends.
pub reserve_all-IsSolvent :
    (vs : List ℤ) (t : Treasury) → IsSolvent t → IsSolvent (reserve_all vs t)
unfolding reserve_all
reserve_all-IsSolvent [] t h = h
reserve_all-IsSolvent (v ∷ vs) t h =
    reserve_all-IsSolvent vs (reserve v t).1 (reserve-IsSolvent v t h)
