-- ===== src/Tasks/Handler/Keeps.antt =====
-- A worker that finishes a task keeps the invariant of the outbox.
use cqwu_achievement_system.Prelude.{
  ℕ, ◌<◌, ◌≡◌, refl, ◌∙◌, true, false, ◌||◌, String, none, some, List, [], ◌∷◌, ◌++◌, arith, ◌==◌,
  All, ==→eq, Bool-cases, Option-cases, inl, inr,
}
use cqwu_achievement_system.Effect.{Result, ok, err}
use cqwu_achievement_system.Tasks.{
  QueuedTask, CommandExecutionError, ErrorKind, retryable, non_retryable,
}
use cqwu_achievement_system.Tasks.Runner.{Verdict, succeeded, failed, panicked}
use cqwu_achievement_system.Tasks.Handler.{on_verdict, on_failure, deleted, updated}
use cqwu_achievement_system.Tasks.Outbox.Table.{Row, Outbox, TaskError, member, has_id}
use cqwu_achievement_system.Tasks.Outbox.Dispatcher.{
  requeue_retryable_outbox, mark_outbox_dead, delete_outbox_row, delete_rows,
}
use cqwu_achievement_system.Tasks.Outbox.Lookup.{status_of, Distinct}
use cqwu_achievement_system.Tasks.Outbox.Selection.{nodup}
use cqwu_achievement_system.Tasks.Outbox.Claims.{
  Claimed, IsClaimed, claims, outbox_ids, statement_keeps, update-Claimed,
}

-- Taking one task out of the claims.
outbox_ids-out :
    (a b q : List QueuedTask) (t : QueuedTask) (j : ℕ)
    → member j (outbox_ids ((a ++ (t ∷ b)) ++ q))
      ≡ (member j (outbox_ids ((a ++ b) ++ q)) || member j (outbox_ids (t ∷ [])))
outbox_ids-out [] b q t j = ground arith
outbox_ids-out (x ∷ a) b q t j = ground (arith, outbox_ids-out a b q t j)

nodup-out :
    (a b q : List QueuedTask) (t : QueuedTask)
    → nodup (outbox_ids ((a ++ (t ∷ b)) ++ q)) ≡ true
    → nodup (outbox_ids ((a ++ b) ++ q)) ≡ true
nodup-out [] b q t h = ground arith
nodup-out (x ∷ a) b q t h = elim (Option-cases x.outbox_id) [
  | inl e ↦ rw e (nodup-out a b q t (ground arith))
  | inr (i, e) ↦ ground (arith, nodup-out a b q t, outbox_ids-out a b q t i)
]

out_unclaimed :
    (a b q : List QueuedTask) (t : QueuedTask) (i : ℕ)
    → t.outbox_id ≡ some i
    → nodup (outbox_ids ((a ++ (t ∷ b)) ++ q)) ≡ true
    → member i (outbox_ids ((a ++ b) ++ q)) ≡ false
out_unclaimed [] b q t i e h = ground arith
out_unclaimed (x ∷ a) b q t i e h = elim (Option-cases x.outbox_id) [
  | inl n ↦ rw n (out_unclaimed a b q t i e (ground arith))
  | inr (j, n) ↦ ground (
    arith,
    out_unclaimed a b q t i e,
    outbox_ids-out a b q t i,
    outbox_ids-out a b q t j,
    ==→eq j i,
  )
]

module _ {P : Type 0} where
  All-delete :
      (Q : Row P → Type 0) (i : ℕ) (rows : List (Row P)) → All Q rows → All Q (delete_rows i rows)
  unfolding delete_rows
  All-delete Q i [] h = tt
  All-delete Q i (r ∷ rs) h = elim (Bool-cases (has_id i r)) [
    | inl e ↦ rw e (All-delete Q i rs h.1)
    | inr e ↦ rw e (h.0, All-delete Q i rs h.1)
  ]

  Distinct-delete : (i : ℕ) (rows : List (Row P)) → Distinct rows → Distinct (delete_rows i rows)
  unfolding delete_rows
  Distinct-delete i [] h = tt
  Distinct-delete i (r ∷ rs) h = elim (Bool-cases (has_id i r)) [
    | inl e ↦ rw e (Distinct-delete i rs h.1)
    | inr e ↦ rw e (All-delete (λ q. (q.id == r.id) ≡ false) i rs h.0, Distinct-delete i rs h.1)
  ]

  status_of-delete :
      (i j : ℕ) (rows : List (Row P))
      → (i == j) ≡ false
      → status_of j (delete_rows i rows) ≡ status_of j rows
  unfolding delete_rows status_of
  status_of-delete i j [] h = refl
  status_of-delete i j (r ∷ rs) h = ground (arith, status_of-delete i j rs h, ==→eq r.id i)

  -- Nothing claims the row `i`: it may be deleted, or updated at will.
  module _ {rows : List (Row P)} {n cap : ℕ} {flight queue : List QueuedTask}
      (v : Claimed rows n cap flight queue) (i : ℕ)
      (free : member i (claims flight queue) ≡ false) where
    delete-Claimed : Claimed (delete_rows i rows) n cap flight queue
    delete-Claimed = record {
      below = All-delete (λ r. r.id < n) i rows v.below;
      distinct = Distinct-delete i rows v.distinct;
      room = v.room;
      held = λ j m. status_of-delete i j rows (ground (arith, ==→eq i j)) ∙ v.held j m;
      once = v.once;
    }

  deleted-Claimed :
      (p : Result TaskError (Unit {0}) × Outbox P) → IsClaimed p.1 → IsClaimed (deleted p).1
  deleted-Claimed (ok tt, w) v = v
  deleted-Claimed (err e, w) v = v

  updated-Claimed :
      (c : CommandExecutionError) (p : Result TaskError (Unit {0}) × Outbox P)
      → IsClaimed p.1
      → IsClaimed (updated c p).1
  updated-Claimed c (ok tt, w) v = v
  updated-Claimed c (err e, w) v = v

  failure-Claimed :
      (describe : CommandExecutionError → String) (k : ErrorKind) (i : ℕ)
      (c : CommandExecutionError) (w : Outbox P)
      → IsClaimed w
      → member i (claims w.in_flight w.queue) ≡ false
      → IsClaimed (on_failure describe k i c w).1
  unfolding requeue_retryable_outbox mark_outbox_dead
  failure-Claimed describe retryable i c w v free =
      updated-Claimed c (requeue_retryable_outbox i (describe c) 5 w) (
        statement_keeps IsClaimed _ w v (
          update-Claimed v (has_id i) _ (λ r. refl)
            (λ r m s t. absurd (ground (arith, ==→eq r.id i)))))
  failure-Claimed describe non_retryable i c w v free =
      updated-Claimed c (mark_outbox_dead i (describe c) w) (
        statement_keeps IsClaimed _ w v (
          update-Claimed v (has_id i) _ (λ r. refl)
            (λ r m s t. absurd (ground (arith, ==→eq r.id i)))))

  finish_some :
      (describe : CommandExecutionError → String) (i : ℕ) (v : Verdict) (w : Outbox P)
      → IsClaimed w
      → member i (claims w.in_flight w.queue) ≡ false
      → IsClaimed (on_verdict describe (some i) v w).1
  unfolding on_verdict delete_outbox_row
  finish_some describe i succeeded w v free =
      deleted-Claimed (delete_outbox_row i w)
        (unfold delete_outbox_row in (statement_keeps IsClaimed _ w v (delete-Claimed v i free)))
  finish_some describe i panicked w v free = v
  finish_some describe i (failed c) w v free = failure-Claimed describe c.kind i c w v free

  finish_none :
      (describe : CommandExecutionError → String) (v : Verdict) (w : Outbox P)
      → IsClaimed w
      → IsClaimed (on_verdict describe none v w).1
  unfolding on_verdict
  finish_none describe succeeded w v = v
  finish_none describe panicked w v = v
  finish_none describe (failed c) w v = v

  out-Claimed :
      {rows : List (Row P)} {n cap : ℕ} {queue : List QueuedTask} (a b : List QueuedTask)
      (t : QueuedTask)
      → Claimed rows n cap (a ++ (t ∷ b)) queue
      → Claimed rows n cap (a ++ b) queue
  out-Claimed {queue = queue} a b t v = record {
    below = v.below;
    distinct = v.distinct;
    room = v.room;
    held = λ j m. v.held j (ground (arith, outbox_ids-out a b queue t j));
    once = nodup-out a b queue t v.once;
  }

  -- A worker that finishes a task keeps the invariant, whatever became of the task.
  pub finish-Claimed :
      (describe : CommandExecutionError → String) (a b : List QueuedTask) (t : QueuedTask)
      (v : Verdict) (w : Outbox P)
      → Claimed w.rows w.next_id w.capacity (a ++ (t ∷ b)) w.queue
      → IsClaimed (on_verdict describe t.outbox_id v (record w { in_flight = a ++ b })).1
  finish-Claimed describe a b t v w h = elim (Option-cases t.outbox_id) [
    | inl e ↦ rw e (finish_none describe v (record w { in_flight = a ++ b }) (out-Claimed a b t h))
    | inr (i, e) ↦ rw e (
        finish_some describe i v (record w { in_flight = a ++ b }) (out-Claimed a b t h)
          (out_unclaimed a b w.queue t i e h.once))
  ]
