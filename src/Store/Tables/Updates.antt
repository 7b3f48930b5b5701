-- ===== src/Store/Tables/Updates.antt =====
-- What an UPDATE of one row and an INSERT do to the queries.
use aurelix.Base.{
  ◌⊎◌, String, Bool, true, ◌&&◌, ◌≡◌, inl, inr, refl, arith, Option, none, some, List, [], ◌∷◌,
  ◌++◌, Dict, lookup, is_some, if◌then◌else◌, ◌==◌, string_eq, eq_iff, All, Bool-cases, subst,
  lookup-insert,
}
use aurelix.Store.Tables.{Job, find_job, update_job, row_count, insert_result}

-- The row is among the rows.
abbrev pub Listed : {D : Type 0} → Job D → List (Job D) → Type 0
Listed r [] = ⊥
Listed r (x ∷ xs) = (x ≡ r) ⊎ Listed r xs

module _ {D : Type 0} where
  -- No two rows have the same id.
  abbrev pub Unique : List (Job D) → Type 0
  Unique [] = Unit
  Unique (r ∷ rs) = (find_job r.job_id rs ≡ none) × Unique rs

  -- The update leaves the primary key alone.
  abbrev pub KeepsId : (Job D → Job D) → Type 0
  KeepsId f = (r : Job D) → (f r).job_id ≡ r.job_id

  -- What the update makes of a row that was found.
  abbrev pub updated : String → (Job D → Bool) → (Job D → Job D) → Option (Job D) → Option (Job D)
  updated k p f none = none
  updated k p f (some r) = some (if r.job_id == k && p r then f r else r)

  pub find_job-update_job :
      (j k : String) (p : Job D → Bool) (f : Job D → Job D) (rs : List (Job D))
      → KeepsId f
      → find_job j (update_job k p f rs) ≡ updated k p f (find_job j rs)
  find_job-update_job j k p f [] h = refl
  find_job-update_job j k p f (r ∷ rs) h = ground (arith, h r, find_job-update_job j k p f rs h)

  pub Unique-update_job :
      (k : String) (p : Job D → Bool) (f : Job D → Job D) (rs : List (Job D))
      → KeepsId f
      → Unique rs
      → Unique (update_job k p f rs)
  Unique-update_job k p f [] h u = tt
  Unique-update_job k p f (r ∷ rs) h u =
      ground (arith, h r, find_job-update_job r.job_id k p f rs h, Unique-update_job k p f rs h u.1)

  pub All-update_job {κ} :
      (P : Job D → Type κ) (k : String) (p : Job D → Bool) (f : Job D → Job D) (rs : List (Job D))
      → ((r : Job D) → P r → p r ≡ true → P (f r))
      → All P rs
      → All P (update_job k p f rs)
  All-update_job P k p f [] h a = tt
  All-update_job P k p f (r ∷ rs) h a = elim (Bool-cases (r.job_id == k && p r)) [
    | inl hit ↦ rw hit (h r a.0 (ground arith), All-update_job P k p f rs h a.1)
    | inr miss ↦ rw miss (a.0, All-update_job P k p f rs h a.1)
  ]

  pub find_job-job_id :
      (k : String) (r : Job D) (rs : List (Job D)) → find_job k rs ≡ some r → r.job_id ≡ k
  find_job-job_id k r [] h = cc
  find_job-job_id k r (x ∷ rs) h = ground (arith, eq_iff x.job_id k, find_job-job_id k r rs)

  pub find_job-All {κ} :
      (P : Job D → Type κ) (k : String) (r : Job D) (rs : List (Job D))
      → All P rs
      → find_job k rs ≡ some r
      → P r
  find_job-All P k r [] a h = cc
  find_job-All P k r (x ∷ rs) a h = elim (Bool-cases (x.job_id == k)) [
    | inl hit ↦ let q : x ≡ r = ground arith in subst P q a.0
    | inr miss ↦ find_job-All P k r rs a.1 (ground arith)
  ]

  row_count-none :
      (k : String) (p : Job D → Bool) (rs : List (Job D))
      → find_job k rs ≡ none
      → row_count k p rs ≡ 0
  row_count-none k p [] h = refl
  row_count-none k p (x ∷ rs) h = ground (arith, row_count-none k p rs)

  -- With unique ids an UPDATE reaches one row if the row of that id passes its test, and none
  -- otherwise.
  pub row_count_lem :
      (k : String) (p : Job D → Bool) (r : Job D) (rs : List (Job D))
      → Unique rs
      → find_job k rs ≡ some r
      → row_count k p rs ≡ (if p r then 1 else 0)
  row_count_lem k p r [] u h = cc
  row_count_lem k p r (x ∷ rs) u h =
      ground (arith, eq_iff x.job_id k, row_count-none k p rs, row_count_lem k p r rs u.1)

  pub find_job-append :
      (k : String) (rs : List (Job D)) (x : Job D)
      → find_job k (rs ++ (x ∷ [])) ≡ (
          if is_some (find_job k rs) then find_job k rs else if x.job_id == k then some x else none)
  find_job-append k [] x = ground arith
  find_job-append k (r ∷ rs) x = ground (arith, find_job-append k rs x)

  pub Unique-append :
      (rs : List (Job D)) (x : Job D)
      → Unique rs
      → find_job x.job_id rs ≡ none
      → Unique (rs ++ (x ∷ []))
  Unique-append [] x u h = (refl, tt)
  Unique-append (r ∷ rs) x u h = ground (
    arith,
    find_job-append r.job_id rs x,
    Unique-append rs x u.1,
    eq_iff x.job_id r.job_id,
    eq_iff r.job_id x.job_id,
  )

-- A result that is there stays, and another appears only where there was none.
pub lookup-insert_result :
    {D : Type 0} (k j : String) (v : D) (d : Dict D)
    → lookup j (insert_result k v d)
      ≡ (if is_some (lookup j d) then lookup j d else if k == j then some v else none)
lookup-insert_result k j v d = ground (arith, lookup-insert k j v d, eq_iff k j)
