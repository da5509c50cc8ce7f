-- ===== src/Tasks/Outbox/Selection.antt =====
-- What the WHERE clauses of the statements select.
use cqwu_achievement_system.Prelude.{
  ℕ, ◌≡◌, refl, subst, Bool, true, false, not, ◌&&◌, some, List, [], ◌∷◌, map, arith, ◌==◌, length,
  All, Bool-cases, inl, inr, ==→eq,
}
use cqwu_achievement_system.Tasks.{pending}
use cqwu_achievement_system.Tasks.Outbox.Table.{Row, select, has_id, is_status, member}
use cqwu_achievement_system.Tasks.Outbox.Lookup.{status_of, Distinct}

abbrev pub nodup : List ℕ → Bool
nodup [] = true
nodup (x ∷ xs) = not (member x xs) && nodup xs

module _ {P : Type 0} where
  abbrev pub ids : List (Row P) → List ℕ
  ids rows = map (λ (r : Row P). r.id) rows

  not_selected :
      (n : ℕ) (test : Row P → Bool) (rows : List (Row P)) (i : ℕ)
      → All (λ r. (r.id == n) ≡ false) rows
      → member i (ids (select test rows)) ≡ true
      → (i == n) ≡ false
  unfolding select
  not_selected n test [] i h m = cc
  not_selected n test (r ∷ rs) i h m = elim (Bool-cases (test r)) [
    | inl e ↦ ground (arith, not_selected n test rs i h.1, h.0, ==→eq r.id i)
    | inr e ↦ ground (arith, not_selected n test rs i h.1)
  ]

  -- A row that a test for Pending selects is the row of its id, and it is pending.
  pub selected_pending :
      (test : Row P → Bool) (rows : List (Row P)) (i : ℕ)
      → ((r : Row P) → test r ≡ true → r.status ≡ pending)
      → Distinct rows
      → member i (ids (select test rows)) ≡ true
      → status_of i rows ≡ some pending
  unfolding select status_of
  selected_pending test [] i p d m = cc
  selected_pending test (r ∷ rs) i p d m = elim (Bool-cases (test r)) [
    | inl e ↦ ground (arith, selected_pending test rs i p d.1, p r, not_selected r.id test rs i d.0)
    | inr e ↦ ground (arith, selected_pending test rs i p d.1, not_selected r.id test rs i d.0)
  ]

  pub selected_nodup :
      (test : Row P → Bool) (rows : List (Row P))
      → Distinct rows
      → nodup (ids (select test rows)) ≡ true
  unfolding select
  selected_nodup test [] d = refl
  selected_nodup test (r ∷ rs) d = elim (Bool-cases (test r)) [
    | inl e ↦ rw e (ground (arith, selected_nodup test rs d.1, not_selected r.id test rs r.id d.0))
    | inr e ↦ rw e (selected_nodup test rs d.1)
  ]

  none_selected :
      (i : ℕ) (test : Row P → Bool) (rows : List (Row P))
      → All (λ r. (r.id == i) ≡ false) rows
      → length (select (λ r. has_id i r && test r) rows) ≡ 0
  unfolding select
  none_selected i test [] h = refl
  none_selected i test (r ∷ rs) h = ground (arith, none_selected i test rs h.1)

  -- One row updated by its id and Pending: it was pending.
  pub one_pending :
      (i : ℕ) (rows : List (Row P))
      → length (select (λ r. has_id i r && is_status r.status pending) rows) ≡ 1
      → Distinct rows
      → status_of i rows ≡ some pending
  unfolding select status_of
  one_pending i [] h d = absurd (omega arith)
  one_pending i (r ∷ rs) h d = elim (Bool-cases (r.id == i)) [
    | inl e ↦ ground (
      arith,
      none_selected i (λ q. is_status q.status pending) rs
          (subst (λ j. All (λ q. (q.id == j) ≡ false) rs) (==→eq r.id i e) d.0),
    )
    | inr e ↦ ground (arith, one_pending i rs)
  ]

  -- What the test says of the ids holds of the selected ids.
  pub selected_test :
      (test : Row P → Bool) (q : ℕ → Bool) (rows : List (Row P)) (i : ℕ)
      → ((r : Row P) → test r ≡ true → q r.id ≡ true)
      → member i (ids (select test rows)) ≡ true
      → q i ≡ true
  unfolding select
  selected_test test q [] i h m = cc
  selected_test test q (r ∷ rs) i h m = elim (Bool-cases (test r)) [
    | inl e ↦ ground (arith, selected_test test q rs i h, h r, ==→eq r.id i)
    | inr e ↦ ground (arith, selected_test test q rs i h)
  ]
