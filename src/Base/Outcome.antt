-- ===== src/Base/Outcome.antt =====
-- Exceptions as values, and methods that change an object and may raise.
use mathlib.Core.Bool.{Bool, true, false}
use mathlib.Core.Option.{Option, none, some}
use mathlib.Core.Path.{◌≡◌, refl}
use mathlib.Core.Logic.{◌⊎◌, inl, inr}
use aurelix.Base.Tests.{if◌then◌else◌}

-- What a Python call returns, or the exception that it raises.
pub data Result {ℓ κ} (E : Type ℓ) (A : Type κ) : Type (ℓ ⊔ κ) where
  ok : A → Result E A
  err : E → Result E A

abbrev pub is_ok {ℓ κ} : {E : Type ℓ} {A : Type κ} → Result E A → Bool
is_ok (ok a) = true
is_ok (err e) = false

pub Result-cases {ℓ κ} :
    {E : Type ℓ} {A : Type κ} (r : Result E A) → ((a : A) × (r ≡ ok a)) ⊎ ((e : E) × (r ≡ err e))
Result-cases (ok a) = inl (a, refl)
Result-cases (err e) = inr (e, refl)

-- A method of an object with state `S`. The state comes back after a raise too, since what was
-- written stays written.
abbrev pub Method : Type 0 → Type 0 → Type 0 → Type 0
Method E S A = S → Result E A × S

module _ {E S A : Type 0} where
  abbrev pub pure : A → Method E S A
  pure a s = (ok a, s)

  abbrev pub raise : E → Method E S A
  raise e s = (err e, s)

  abbrev pub gets : (S → A) → Method E S A
  gets f s = (ok (f s), s)

  -- a dictionary access that raises on a missing key
  abbrev pub or_raise : Option A → E → Method E S A
  or_raise none e = raise e
  or_raise (some a) e = pure a

infixl 5 ◌>>=◌ ◌>>◌
abbrev pub ◌>>=◌ : {E S A B : Type 0} → Method E S A → (A → Method E S B) → Method E S B
◌>>=◌ m f s = let (r, s') = m s in elim r [ ok a ↦ f a s' | err e ↦ (err e, s') ]

abbrev pub ◌>>◌ : {E S A B : Type 0} → Method E S A → Method E S B → Method E S B
m >> k = m >>= λ _. k

abbrev pub raise_if : {E S : Type 0} → Bool → E → Method E S (Unit {0})
raise_if c e s = (if c then err e else ok tt, s)

abbrev pub modify : {E S : Type 0} → (S → S) → Method E S (Unit {0})
modify f s = (ok tt, f s)
