-- ===== src/Tasks/Outbox/Lookup.antt =====
-- The status of a row by its id, and what the statements do to it.
use cqwu_achievement_system.Prelude.{
  ℕ, ◌<◌, ◌≡◌, sym, subst, Bool, true, false, Option, none, some, List, [], ◌∷◌, ◌++◌, arith, ◌==◌,
  if◌then◌else◌, All, Bool-cases, inl, inr, ==→eq,
}
use cqwu_achievement_system.Tasks.{OutboxStatus, pending, running}
use cqwu_achievement_system.Tasks.Outbox.Table.{Row, update_rows}

module _ {P : Type 0} where
  unfoldable pub status_of : ℕ → List (Row P) → Option OutboxStatus
  status_of i [] = none
  status_of i (r ∷ rs) = if r.id == i then some r.status else status_of i rs

  -- No two rows share an id.
  abbrev pub Distinct : List (Row P) → Type 0
  Distinct [] = Unit
  Distinct (r ∷ rs) = All (λ q. (q.id == r.id) ≡ false) rs × Distinct rs

  -- An update that keeps the ids, and keeps the row `i` running.
  pub status_of-update_running :
      (i : ℕ) (test : Row P → Bool) (f : Row P → Row P) (rows : List (Row P))
      → ((r : Row P) → (f r).id ≡ r.id)
      → ((r : Row P) → r.id ≡ i → r.status ≡ running → test r ≡ true → (f r).status ≡ running)
      → status_of i rows ≡ some running
      → status_of i (update_rows test f rows) ≡ some running
  unfolding status_of update_rows
  status_of-update_running i test f [] ids keeps h = cc
  status_of-update_running i test f (r ∷ rs) ids keeps h =
      ground (arith, status_of-update_running i test f rs ids keeps, ids r, keeps r, ==→eq r.id i)

  -- An update that makes the pending row `i` running.
  pub status_of-update_pending :
      (i : ℕ) (test : Row P → Bool) (f : Row P → Row P) (rows : List (Row P))
      → ((r : Row P) → (f r).id ≡ r.id)
      → ((r : Row P) → r.id ≡ i → r.status ≡ pending → (test r ≡ true) × ((f r).status ≡ running))
      → status_of i rows ≡ some pending
      → status_of i (update_rows test f rows) ≡ some running
  unfolding status_of update_rows
  status_of-update_pending i test f [] ids makes h = cc
  status_of-update_pending i test f (r ∷ rs) ids makes h =
      ground (arith, status_of-update_pending i test f rs ids makes, ids r, makes r, ==→eq r.id i)

  pub status_of-append :
      (i : ℕ) (rows : List (Row P)) (r : Row P)
      → status_of i rows ≡ some running
      → status_of i (rows ++ r ∷ []) ≡ some running
  unfolding status_of
  status_of-append i [] r h = cc
  status_of-append i (q ∷ rows) r h = ground (arith, status_of-append i rows r)

  All-update :
      (Q : ℕ → Type 0) (test : Row P → Bool) (f : Row P → Row P) (rows : List (Row P))
      → ((r : Row P) → (f r).id ≡ r.id)
      → All (λ r. Q r.id) rows
      → All (λ r. Q r.id) (update_rows test f rows)
  unfolding update_rows
  All-update Q test f [] ids h = tt
  All-update Q test f (r ∷ rs) ids h = elim (Bool-cases (test r)) [
    | inl e ↦ rw e ((subst Q (sym (ids r)) h.0), All-update Q test f rs ids h.1)
    | inr e ↦ rw e (h.0, All-update Q test f rs ids h.1)
  ]

  pub below-update :
      (n : ℕ) (test : Row P → Bool) (f : Row P → Row P) (rows : List (Row P))
      → ((r : Row P) → (f r).id ≡ r.id)
      → All (λ r. r.id < n) rows
      → All (λ r. r.id < n) (update_rows test f rows)
  below-update n test f rows ids h = All-update (λ i. i < n) test f rows ids h

  pub Distinct-update :
      (test : Row P → Bool) (f : Row P → Row P) (rows : List (Row P))
      → ((r : Row P) → (f r).id ≡ r.id)
      → Distinct rows
      → Distinct (update_rows test f rows)
  unfolding update_rows
  Distinct-update test f [] ids h = tt
  Distinct-update test f (r ∷ rs) ids h = elim (Bool-cases (test r)) [
    | inl e ↦
        rw (e, ids r)
          (
            All-update (λ i. (i == r.id) ≡ false) test f rs ids h.0,
            Distinct-update test f rs ids h.1,
          )
    | inr e ↦
        rw e (
          All-update (λ i. (i == r.id) ≡ false) test f rs ids h.0,
          Distinct-update test f rs ids h.1,
        )
  ]

  pub Distinct-append :
      (rows : List (Row P)) (q : Row P)
      → All (λ r. r.id < q.id) rows
      → Distinct rows
      → Distinct (rows ++ q ∷ [])
  Distinct-append [] q h d = (tt, tt)
  Distinct-append (r ∷ rs) q h d = (All-snoc rs d.0, Distinct-append rs q h.1 d.1)
    where
      All-snoc :
          (xs : List (Row P))
          → All (λ x. (x.id == r.id) ≡ false) xs
          → All (λ x. (x.id == r.id) ≡ false) (xs ++ q ∷ [])
      All-snoc [] a = (ground arith, tt)
      All-snoc (x ∷ xs) a = (a.0, All-snoc xs a.1)
