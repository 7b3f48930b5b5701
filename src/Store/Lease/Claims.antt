-- ===== src/Store/Lease/Claims.antt =====
-- What `claim` and `claim_next` give, and to whom.
use aurelix.Base.{
  subst, ap, sym, ◌∙◌, ℕ, ◌≤◌, String, Bool, true, false, ◌≡◌, ◌≢◌, inl, inr, refl, arith, Option,
  none, some, List, [], ◌∷◌, keep, string_eq, eq_iff, ok, Bool-cases, Option-cases,
}
use aurelix.Store.Tables.{
  queued, is_queued, Job, JobRecord, RuntimeStore, lease_end, find_job, update_job, record_of,
}
use aurelix.Store.Tables.Updates.{
  Listed, KeepsId, Unique, find_job-update_job, find_job-job_id, row_count_lem,
}
use aurelix.Store.Lease.{
  claimable, claimed, claim_row, claim_found, claim_next, claim, first_job, precedes, earlier,
}

module _ {D : Type 0} where
  -- A claim of a queued row, where ids are unique.
  pub claim_row_lem :
      (row : Job D) (worker : Option String) (token : String) (now : ℕ) (s : RuntimeStore D)
      → Unique s.jobs
      → find_job row.job_id s.jobs ≡ some row
      → row.status ≡ queued
      → claim_row row worker token now s ≡ (
        ok (some (record_of (claimed worker token now (lease_end s now) row))),
        record s {
          jobs =
              update_job row.job_id
                (λ r. is_queued r.status)
                (claimed worker token now (lease_end s now))
                s.jobs;
        },
      )
  unfolding claim_row
  claim_row_lem row worker token now s u found q =
      ground
        (arith, row_count_lem row.job_id (λ (r : Job D). is_queued r.status) row s.jobs u found)

  claim-claim_row :
      (id : String) (max_attempts : ℕ) (worker : Option String) (token : String) (now : ℕ)
      (s : RuntimeStore D) (r : Job D)
      → find_job id s.jobs ≡ some r
      → claimable max_attempts r ≡ true
      → claim id max_attempts worker token now s ≡ claim_row r worker token now s
  unfolding claim claim_found
  claim-claim_row id max_attempts worker token now s r found c = rw found (ground arith)

  claimed_row :
      (j : String) (r : Job D) (f : Job D → Job D) (id : String) (rs : List (Job D))
      → r.status ≡ queued
      → KeepsId f
      → j ≡ id
      → find_job id rs ≡ some r
      → find_job id (update_job j (λ x. is_queued x.status) f rs) ≡ some (f r)
  claimed_row j r f id rs q h e found = ground (
    arith,
    find_job-update_job id j (λ (x : Job D). is_queued x.status) f rs h,
    find_job-job_id id r rs found,
    eq_iff r.job_id j,
  )

  other_rows :
      (j : String) (f : Job D → Job D) (k : String) (rs : List (Job D))
      → KeepsId f
      → j ≢ k
      → find_job k (update_job j (λ x. is_queued x.status) f rs) ≡ find_job k rs
  other_rows j f k rs h ne = elim (Option-cases (find_job k rs)) [
    | inl absent ↦
        ground (arith, find_job-update_job k j (λ (x : Job D). is_queued x.status) f rs h)
    | inr (x, found) ↦ ground (
      arith,
      find_job-update_job k j (λ (y : Job D). is_queued y.status) f rs h,
      find_job-job_id k x rs found,
      eq_iff x.job_id j,
    )
  ]

  -- Where ids are unique, claiming a queued job that has attempts left never raises: the job runs
  -- under the new token, with one more attempt, until the lease ends, and no other job changes.
  pub claim-takes :
      (id : String) (max_attempts : ℕ) (worker : Option String) (token : String) (now : ℕ)
      (s : RuntimeStore D) (r : Job D)
      → Unique s.jobs
      → find_job id s.jobs ≡ some r
      → claimable max_attempts r ≡ true
      → let o = claim id max_attempts worker token now s in
        let r' = claimed worker token now (lease_end s now) r in
        (o.0 ≡ ok (some (record_of r')))
        × (find_job id o.1.jobs ≡ some r')
        × ((k : String) → k ≢ id → find_job k o.1.jobs ≡ find_job k s.jobs)
  claim-takes id max_attempts worker token now s r u found c =
      let q : r.status ≡ queued = ground arith in
      let e = find_job-job_id id r s.jobs found in
      let own = subst (λ j. find_job j s.jobs ≡ some r) (sym e) found in
      rw (claim-claim_row id max_attempts worker token now s r found c) (
        rw (claim_row_lem r worker token now s u own q) (
          refl,
          claimed_row r.job_id r (claimed worker token now (lease_end s now)) id s.jobs q
              (λ x. refl) e found,
          λ k ne.
              other_rows r.job_id (claimed worker token now (lease_end s now)) k s.jobs (λ x. refl)
                (λ p. ne (sym p ∙ e)),
        ))

  -- Claiming a job that is not queued, or has no attempts left, gives nothing and changes nothing.
  pub claim_refuses :
      (id : String) (max_attempts : ℕ) (worker : Option String) (token : String) (now : ℕ)
      (s : RuntimeStore D) (r : Job D)
      → find_job id s.jobs ≡ some r
      → claimable max_attempts r ≡ false
      → claim id max_attempts worker token now s ≡ (ok none, s)
  unfolding claim claim_found
  claim_refuses id max_attempts worker token now s r found c = rw found (ground arith)

  earlier-le : (r : Job D) (o : Option (Job D)) → (earlier r o).created_at ≤ r.created_at
  earlier-le r none = omega arith
  earlier-le r (some b) = ground arith

  -- The row that `claim_next` picks is one of the rows, and none of them was created before it.
  first_job-Listed : (rs : List (Job D)) (r : Job D) → first_job rs ≡ some r → Listed r rs
  unfolding first_job
  first_job-Listed [] r h = cc
  first_job-Listed (x ∷ xs) r h = elim (Option-cases (first_job xs)) [
    | inl none_left ↦ inl (ground arith)
    | inr (b, best) ↦ elim (Bool-cases (precedes b x)) [
      | inl before ↦ inr (first_job-Listed xs r (ground arith))
      | inr after ↦ inl (ground arith)
    ]
  ]

  first_job-none : (rs : List (Job D)) → first_job rs ≡ none → (x : Job D) → Listed x rs → ⊥
  unfolding first_job
  first_job-none [] h x l = l
  first_job-none (y ∷ ys) h x l = cc

  first_job-first :
      (rs : List (Job D)) (r x : Job D)
      → first_job rs ≡ some r
      → Listed x rs
      → r.created_at ≤ x.created_at
  unfolding first_job
  first_job-first [] r x h l = elim l [ ]
  first_job-first (y ∷ ys) r x h l = elim (Option-cases (first_job ys)) [
    | inl none_left ↦ elim l [
      | inl q ↦ ground arith
      | inr l' ↦ absurd (first_job-none ys none_left x l')
    ]
    | inr (b, best) ↦ elim l [
      | inl q ↦ ground arith
      | inr l' ↦ let le = first_job-first ys b x best l' in ground arith
    ]
  ]

module _ {D : Type 0} where
  Listed-keep :
      (p : Job D → Bool) (r : Job D) (rs : List (Job D))
      → Listed r rs
      → p r ≡ true
      → Listed r (keep p rs)
  Listed-keep p r [] l e = elim l [ ]
  Listed-keep p r (x ∷ xs) (inl q) e = rw (ap p q ∙ e) (inl q)
  Listed-keep p r (x ∷ xs) (inr l) e = elim (Bool-cases (p x)) [
    | inl kept ↦ rw kept (inr (Listed-keep p r xs l e))
    | inr gone ↦ rw gone (Listed-keep p r xs l e)
  ]

  keep-Listed :
      (p : Job D → Bool) (r : Job D) (rs : List (Job D))
      → Listed r (keep p rs)
      → Listed r rs × (p r ≡ true)
  keep-Listed p r [] l = elim l [ ]
  keep-Listed p r (x ∷ xs) l = elim (Bool-cases (p x)) [
    | inl kept ↦ by_head kept (rw kept at l) (keep-Listed p r xs)
    | inr gone ↦ let (l', e) = keep-Listed p r xs (rw gone at l) in (inr l', e)
  ]
    where
      by_head :
          p x ≡ true
          → Listed r (x ∷ keep p xs)
          → (Listed r (keep p xs) → Listed r xs × (p r ≡ true))
          → Listed r (x ∷ xs) × (p r ≡ true)
      by_head kept (inl q) rest = (inl q, ap p (sym q) ∙ kept)
      by_head kept (inr l') rest = let (l'', e) = rest l' in (inr l'', e)

  Listed-find_job :
      (r : Job D) (rs : List (Job D)) → Unique rs → Listed r rs → find_job r.job_id rs ≡ some r
  Listed-find_job r [] u l = elim l [ ]
  Listed-find_job r (x ∷ xs) u (inl q) =
      ground (arith, ap (λ (y : Job D). y.job_id) q, eq_iff x.job_id r.job_id)
  Listed-find_job r (x ∷ xs) u (inr l) =
      ground (arith, Listed-find_job r xs u.1 l, eq_iff x.job_id r.job_id)

  -- Where ids are unique and some job is queued with attempts left, `claim_next` gives a job, under the
  -- new token, and none of the jobs that it could have given was created before that one.
  pub claim_next-first :
      (max_attempts : ℕ) (worker : Option String) (token : String) (now : ℕ) (s : RuntimeStore D)
      (x : Job D)
      → Unique s.jobs
      → Listed x s.jobs
      → claimable max_attempts x ≡ true
      → (rec : JobRecord D) × ((claim_next max_attempts worker token now s).0 ≡ ok (some rec))
        × (rec.lease_token ≡ some token)
        × (rec.created_at ≤ x.created_at)
  unfolding claim_next claim_found
  claim_next-first max_attempts worker token now s x u l c =
      let xs = keep (claimable max_attempts) s.jobs in
      let l' = Listed-keep (claimable max_attempts) x s.jobs l c in
      elim (Option-cases (first_job xs)) [
        | inl nothing ↦ absurd (first_job-none xs nothing x l')
        | inr (r, best) ↦
            let (lr, cr) =
              keep-Listed (claimable max_attempts) r s.jobs (first_job-Listed xs r best) in
            let q : r.status ≡ queued = ground arith in
            (
              record_of (claimed worker token now (lease_end s now) r),
              rw best (
                  ap (λ o. o.0)
                    (claim_row_lem r worker token now s u (Listed-find_job r s.jobs u lr) q)),
              refl,
              first_job-first xs r x best l',
            )
      ]
