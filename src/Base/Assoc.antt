-- ===== src/Base/Assoc.antt =====
-- A Python dict as an association list, in insertion order.
use mathlib.Core.Path.{◌≡◌, refl, subst}
use mathlib.Core.Logic.{◌≢◌, inl, inr}
use mathlib.Core.Option.{Option, none, some}
use mathlib.Core.List.{List, [], ◌∷◌}
use Prim.Native.String.{String}
use native.Mathlib.Omega.{arith}
use text.Mathlib.TextEquality.{eq_iff}
use aurelix.Base.Tests.{if◌then◌else◌, ◌==◌, string_eq, str_beq_refl, Bool-cases}

abbrev pub Dict {ℓ} : Type ℓ → Type ℓ
Dict V = List (String × V)

module _ {ℓ} {V : Type ℓ} where
  -- `d.get(k)`
  abbrev pub lookup : String → Dict V → Option V
  lookup k [] = none
  lookup k ((j, v) ∷ d) = if j == k then some v else lookup k d

  -- `d[k] = v`: a known key keeps its place
  abbrev pub insert : String → V → Dict V → Dict V
  insert k v [] = (k, v) ∷ []
  insert k v ((j, w) ∷ d) = if j == k then (j, v) ∷ d else (j, w) ∷ insert k v d

  -- `d.pop(k, None)`; keys are unique, so dropping every entry of the key is the same
  abbrev pub erase : String → Dict V → Dict V
  erase k [] = []
  erase k ((j, w) ∷ d) = if j == k then erase k d else (j, w) ∷ erase k d

  -- `d.values()`
  abbrev pub values : Dict V → List V
  values [] = []
  values ((j, v) ∷ d) = v ∷ values d

  pub lookup-insert :
      (k j : String) (v : V) (d : Dict V)
      → lookup j (insert k v d) ≡ (if k == j then some v else lookup j d)
  lookup-insert k j v [] = refl
  lookup-insert k j v ((i, w) ∷ d) =
      ground (arith, eq_iff k j, eq_iff i k, eq_iff i j, lookup-insert k j v d)

  pub lookup-erase :
      (k j : String) (d : Dict V) → lookup j (erase k d) ≡ (if k == j then none else lookup j d)
  lookup-erase k j [] = ground arith
  lookup-erase k j ((i, w) ∷ d) =
      ground (arith, eq_iff k j, eq_iff i k, eq_iff i j, lookup-erase k j d)

module _ {ℓ} {V : Type ℓ} where
  pub lookup-insert_self : (k : String) (v : V) (d : Dict V) → lookup k (insert k v d) ≡ some v
  lookup-insert_self k v d = ground (arith, lookup-insert k k v d, str_beq_refl k)

  pub lookup-insert_ne :
      (k j : String) (v : V) (d : Dict V) → k ≢ j → lookup j (insert k v d) ≡ lookup j d
  lookup-insert_ne k j v d h = ground (arith, lookup-insert k j v d, eq_iff k j)

  pub lookup-erase_self : (k : String) (d : Dict V) → lookup k (erase k d) ≡ none
  lookup-erase_self k d = ground (arith, lookup-erase k k d, str_beq_refl k)

  pub lookup-erase_ne : (k j : String) (d : Dict V) → k ≢ j → lookup j (erase k d) ≡ lookup j d
  lookup-erase_ne k j d h = ground (arith, lookup-erase k j d, eq_iff k j)

-- Every value that the dict holds has the property.
abbrev pub AllValues {ℓ κ} : {V : Type ℓ} → (V → Type κ) → Dict V → Type κ
AllValues P [] = Unit
AllValues P ((k, v) ∷ d) = P v × AllValues P d

module _ {ℓ κ} {V : Type ℓ} (P : V → Type κ) where
  pub AllValues-lookup :
      (k : String) (v : V) (d : Dict V) → AllValues P d → lookup k d ≡ some v → P v
  AllValues-lookup k v [] h e = cc
  AllValues-lookup k v ((j, w) ∷ d) h e = elim (Bool-cases (j == k)) [
    | inl found ↦ let q : w ≡ v = ground arith in subst P q h.0
    | inr other ↦ AllValues-lookup k v d h.1 (ground arith)
  ]

  pub AllValues-insert :
      (k : String) (v : V) (d : Dict V) → P v → AllValues P d → AllValues P (insert k v d)
  AllValues-insert k v [] p h = (p, tt)
  AllValues-insert k v ((j, w) ∷ d) p h = elim (Bool-cases (j == k)) [
    | inl found ↦ rw found (p, h.1)
    | inr other ↦ rw other (h.0, AllValues-insert k v d p h.1)
  ]

  pub AllValues-erase : (k : String) (d : Dict V) → AllValues P d → AllValues P (erase k d)
  AllValues-erase k [] h = tt
  AllValues-erase k ((j, w) ∷ d) h = elim (Bool-cases (j == k)) [
    | inl found ↦ rw found (AllValues-erase k d h.1)
    | inr other ↦ rw other (h.0, AllValues-erase k d h.1)
  ]

pub AllValues-map {ℓ κ μ} :
    {V : Type ℓ} (P : V → Type κ) (Q : V → Type μ) (d : Dict V)
    → ((v : V) → P v → Q v)
    → AllValues P d
    → AllValues Q d
AllValues-map P Q [] f h = tt
AllValues-map P Q ((k, v) ∷ d) f h = (f v h.0, AllValues-map P Q d f h.1)
