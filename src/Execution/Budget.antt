-- ===== src/Execution/Budget.antt =====
-- src/aurelix_core/budget.py. Amounts are counted in the smallest unit in use; a text amount comes
-- as what `Decimal(str(amount))` reads from it.
use aurelix.Base.{
  String, true, false, ◌≡◌, ◌↔◌, refl, arith, if◌then◌else◌, List, [], ◌∷◌, Result, ok, err, is_ok,
  ◌∙◌,
}
use aurelix.Base.Int.{ℤ, pos, ◌+ℤ◌, ◌-ℤ◌, ◌≤ℤ◌, ltb_ℤ}
use aurelix.Governance.Models.{Amount, unreadable, nan, decimal}

pub record Budget : Type 0 where
  pub currency : String
  pub limit : ℤ
  pub spent : ℤ

-- `exceeded` has the amount asked for and what remains, as the message does.
pub data BudgetError : Type 0 where
  invalid_limit negative_limit invalid_amount negative_amount invalid_operation : BudgetError
  exceeded : ℤ → ℤ → BudgetError

unfoldable pub create : String → Amount → Result BudgetError Budget
create currency unreadable = err invalid_limit
create currency nan = err invalid_operation
create currency (decimal v) =
    if ltb_ℤ v (pos 0)
    then err negative_limit
    else ok (record { currency = currency; limit = v; spent = pos 0 })

abbrev pub remaining : Budget → ℤ
remaining b = b.limit -ℤ b.spent

unfoldable pub authorize : Amount → Budget → Result BudgetError (Unit {0})
authorize unreadable b = err invalid_amount
authorize nan b = err invalid_operation
authorize (decimal v) b =
    if ltb_ℤ v (pos 0)
    then err negative_amount
    else if ltb_ℤ (remaining b) v
    then err (exceeded v (remaining b))
    else ok tt

-- `self.spent += value`, reached only if `authorize` has not raised
abbrev add_spent : Amount → Budget → Budget
add_spent (decimal v) b = record b { spent = b.spent +ℤ v }
add_spent _ b = b

abbrev consume_if :
    Result BudgetError (Unit {0}) → Amount → Budget → Result BudgetError (Unit {0}) × Budget
consume_if (err e) a b = (err e, b)
consume_if (ok u) a b = (ok u, add_spent a b)

unfoldable pub consume : Amount → Budget → Result BudgetError (Unit {0}) × Budget
unfolding authorize
consume a b = consume_if (authorize a b) a b

-- A budget is sound: what was spent lies between 0 and the limit.
pub record IsSound (b : Budget) : Type 0 where
  pub nonneg : pos 0 ≤ℤ b.spent
  pub within : b.spent ≤ℤ b.limit

-- A budget that `create` returns is sound, and holds the limit asked for.
pub create-IsSound :
    (currency : String) (a : Amount) {b : Budget}
    → create currency a ≡ ok b
    → IsSound b × (decimal b.limit ≡ a)
unfolding create
create-IsSound currency unreadable h = cc
create-IsSound currency nan h = cc
create-IsSound currency (decimal v) h = ground arith

-- Consuming, whether it succeeds or raises, keeps a budget sound; the limit and the currency stay.
pub consume-IsSound :
    (a : Amount) (b : Budget)
    → IsSound b
    → IsSound (consume a b).1
      × ((consume a b).1.limit ≡ b.limit)
      × ((consume a b).1.currency ≡ b.currency)
unfolding consume ◌+ℤ◌ ◌-ℤ◌
consume-IsSound unreadable b h = ground arith
consume-IsSound nan b h = ground arith
consume-IsSound (decimal v) b h = ground arith

-- The amounts consumed one after the other, those that raise left out, and what they took together.
pub consume_all : List Amount → Budget → Budget
consume_all [] b = b
consume_all (a ∷ vs) b = consume_all vs (consume a b).1

-- After any amounts, valid or not, the total spent never passes the limit that the budget began with.
consume_all-IsSound :
    (vs : List Amount) (b : Budget)
    → IsSound b
    → IsSound (consume_all vs b) × ((consume_all vs b).limit ≡ b.limit)
unfolding consume_all
consume_all-IsSound [] b h = (h, refl)
consume_all-IsSound (a ∷ vs) b h =
    let (sound, same, _) = consume-IsSound a b h in
    let (rest, limit) = consume_all-IsSound vs (consume a b).1 sound in (rest, limit ∙ same)

-- An amount is consumed exactly when it is a number from 0 to what remains; then the remainder falls
-- by it, and otherwise the budget is unchanged.
pub consume_exact :
    (v : ℤ) (b : Budget)
    → ((is_ok (consume (decimal v) b).0 ≡ true) ↔ ((pos 0 ≤ℤ v) × (v ≤ℤ remaining b)))
      × (is_ok (consume (decimal v) b).0 ≡ true
          → remaining (consume (decimal v) b).1 ≡ remaining b -ℤ v)
      × (is_ok (consume (decimal v) b).0 ≡ false → (consume (decimal v) b).1 ≡ b)
unfolding consume ◌+ℤ◌ ◌-ℤ◌
consume_exact v b = (ground arith, (λ h. ground arith), (λ h. ground arith))
