-- ===== src/Runtime/Queue/Again.antt =====
-- Enqueueing is idempotent.
use aurelix.Base.{
  [], ◌∷◌, ◌++◌, ℕ, String, ◌≡◌, ◌≢◌, refl, arith, none, some, ok, err, string_eq, eq_iff,
  str_beq_refl,
}
use aurelix.Store.Tables.{Documents, find_job, get, record_of, queued_job}
use aurelix.Store.Tables.Updates.{find_job-append}
use aurelix.Runtime.Queue.{
  PersistentJobQueue, different_objective, enqueue, enqueue_found, queued_of,
}

module _ {D : Type 0} ⦃docs : Documents D⦄ where
  -- A new id is queued with its objective, and reads back so. Enqueueing it again with the objective
  -- that it has changes nothing in the store and gives the same job; with another one it raises and
  -- changes nothing at all.
  pub enqueue_again :
      (k objective : String) (now later : ℕ) (q : PersistentJobQueue D)
      → find_job k q.store.jobs ≡ none
      → let (first, q') = enqueue k objective now q in
        let r = queued_job k "autonomy.run" (docs.with_objective objective) now in
        (get k q'.store ≡ some (record_of r))
        × (first ≡ ok (queued_of r))
        × ((enqueue k objective later q').0 ≡ first)
        × ((enqueue k objective later q').1.store ≡ q'.store)
        × ((other : String)
            → objective ≢ other
            → enqueue k other later q' ≡ (err (different_objective k), q'))
  unfolding enqueue enqueue_found get
  enqueue_again k objective now later q fresh =
      let r = queued_job k "autonomy.run" (docs.with_objective objective) now in
      let found : find_job k (q.store.jobs ++ (r ∷ [])) ≡ some r =
        ground (arith, find_job-append k q.store.jobs r, str_beq_refl k) in
      let same = docs.objective_lem objective in
      let own = str_beq_refl objective in
      rw fresh (
        rw (get, found) refl,
        rw same refl,
        rw found (rw (same, own) refl),
        rw found (rw (same, own) refl),
        λ other ne. rw found (rw same (ground (arith, eq_iff objective other))),
      )
