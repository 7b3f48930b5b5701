-- ===== src/Economy/Revenue.antt =====
-- src/aurelix_core/revenue.py. Amounts are integers in the smallest unit; the uuid4 of a record is an
-- argument, and its time stamp is left out.
use aurelix.Base.{
  ◌||◌, ◌≡◌, ◌≢◌, arith, Option, none, List, [], ◌∷◌, String, Result, ok, err, if◌then◌else◌, Dict,
  lookup, insert, values, keep, is_blank, ◌==◌, string_eq, eq_iff,
}
use aurelix.Base.Int.{ℤ, pos, leb_ℤ, ◌+ℤ◌, +ℤ_parts, eq_of_parts}

pub record RevenueRecord : Type 0 where
  pub revenue_id : String
  pub activity_id : String
  pub amount_eur : ℤ
  pub source : String
  pub external_reference : Option String

abbrev pub RevenueEngine : Type 0
RevenueEngine = Dict RevenueRecord

pub data RevenueError : Type 0 where
  activity_and_source_required amount_not_positive : RevenueError

-- `record`
unfoldable pub record_revenue :
    String
    → String
    → ℤ
    → String
    → Option String
    → RevenueEngine
    → Result RevenueError RevenueRecord × RevenueEngine
record_revenue revenue_id activity_id amount_eur source external_reference records =
    let item : RevenueRecord = record {
      revenue_id = revenue_id;
      activity_id = activity_id;
      amount_eur = amount_eur;
      source = source;
      external_reference = external_reference;
    } in
    if is_blank activity_id || is_blank source
    then (err activity_and_source_required, records)
    else if leb_ℤ amount_eur (pos 0)
    then (err amount_not_positive, records)
    else (ok item, insert revenue_id item records)

abbrev pub sum_of : List RevenueRecord → ℤ
sum_of [] = pos 0
sum_of (r ∷ rs) = r.amount_eur +ℤ sum_of rs

unfoldable pub total_for_activity : String → RevenueEngine → ℤ
total_for_activity activity_id records =
    sum_of (keep (λ r. r.activity_id == activity_id) (values records))

unfoldable pub total_all : RevenueEngine → ℤ
total_all records = sum_of (values records)

abbrev if_activity : String → RevenueRecord → ℤ → ℤ
if_activity activity_id r total =
    if r.activity_id == activity_id then r.amount_eur +ℤ total else total

+ℤ_swap : (a b c : ℤ) → a +ℤ (b +ℤ c) ≡ b +ℤ (a +ℤ c)
+ℤ_swap a b c =
    eq_of_parts _ _
      (omega (arith, +ℤ_parts a (b +ℤ c), +ℤ_parts b c, +ℤ_parts b (a +ℤ c), +ℤ_parts a c))

sum_of-insert :
    (k a : String) (r : RevenueRecord) (d : RevenueEngine)
    → lookup k d ≡ none
    → sum_of (keep (λ x. x.activity_id == a) (values (insert k r d))) ≡ (
        if r.activity_id == a
        then r.amount_eur +ℤ sum_of (keep (λ x. x.activity_id == a) (values d))
        else sum_of (keep (λ x. x.activity_id == a) (values d)))
sum_of-insert k a r [] h = ground arith
sum_of-insert k a r ((j, x) ∷ d) h = ground (
  arith,
  sum_of-insert k a r d,
  +ℤ_swap x.amount_eur r.amount_eur (sum_of (keep (λ y. y.activity_id == a) (values d))),
)

-- A revenue that is recorded under a new id adds its amount to its activity's total, and changes the
-- total of no other activity.
total-record_revenue :
    (id activity source : String) (amount : ℤ) (reference : Option String) (records : RevenueEngine)
    (r : RevenueRecord) (other : String)
    → lookup id records ≡ none
    → (record_revenue id activity amount source reference records).0 ≡ ok r
    → let records' = (record_revenue id activity amount source reference records).1 in
      (total_for_activity activity records' ≡ amount +ℤ total_for_activity activity records)
      × (other ≢ activity → total_for_activity other records' ≡ total_for_activity other records)
unfolding record_revenue total_for_activity
total-record_revenue id activity source amount reference records r other fresh h =
    let item : RevenueRecord = record {
      revenue_id = id;
      activity_id = activity;
      amount_eur = amount;
      source = source;
      external_reference = reference;
    } in
    (
      ground (arith, sum_of-insert id activity item records fresh, eq_iff activity activity),
      λ ne. ground (arith, sum_of-insert id other item records fresh, eq_iff activity other),
    )
