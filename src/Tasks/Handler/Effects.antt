-- ===== src/Tasks/Handler/Effects.antt =====
-- What becomes of the outbox row of a task that has been handled.
use mathlib.Core.Option
use cqwu_achievement_system.Prelude.{
  ℕ, ◌+◌, ◌*◌, ◌≡◌, refl, String, Option, none, some, List, [], ◌∷◌, arith, ◌==◌, if◌then◌else◌,
  ==→eq,
}
use cqwu_achievement_system.Tasks.{
  pending, dead, CommandExecutionError, ErrorKind, retryable, non_retryable,
}
use cqwu_achievement_system.Tasks.Runner.{Verdict, succeeded, failed, panicked}
use cqwu_achievement_system.Tasks.Outbox.Table.{
  Row, Outbox, works, statement, next_fault, update_rows, has_id, second,
}
use cqwu_achievement_system.Tasks.Outbox.Dispatcher.{
  delete_outbox_row, delete_rows, requeue_retryable_outbox, mark_outbox_dead,
}
use cqwu_achievement_system.Tasks.Handler.{on_failure, on_verdict}

module _ {P : Type 0} where
  -- The first row with the id.
  unfoldable pub find_row : ℕ → List (Row P) → Option (Row P)
  find_row i [] = none
  find_row i (r ∷ rs) = if r.id == i then some r else find_row i rs

  find_row-delete :
      (i j : ℕ) (rows : List (Row P))
      → find_row j (delete_rows i rows) ≡ (if i == j then none else find_row j rows)
  unfolding find_row delete_rows
  find_row-delete i j [] = ground arith
  find_row-delete i j (r ∷ rs) =
      ground (arith, find_row-delete i j rs, ==→eq r.id i, ==→eq r.id j, ==→eq i j)

  find_row-update :
      (i j : ℕ) (f : Row P → Row P) (rows : List (Row P))
      → ((r : Row P) → (f r).id ≡ r.id)
      → find_row j (update_rows (has_id i) f rows)
        ≡ (if i == j then Option.map f (find_row j rows) else find_row j rows)
  unfolding find_row update_rows
  find_row-update i j f [] ids = ground arith
  find_row-update i j f (r ∷ rs) ids =
      ground (arith, find_row-update i j f rs ids, ids r, ==→eq r.id i, ==→eq r.id j, ==→eq i j)

  -- What a handled task leaves of its row.
  abbrev pub failed_row :
      (CommandExecutionError → String) → ℕ → CommandExecutionError → ErrorKind → Row P → Row P
  failed_row describe now c retryable r = record r {
    status = pending;
    attempts = r.attempts + 1;
    next_retry_at = now + 5 * second;
    last_error = some (describe c);
    updated_at = now;
  }
  failed_row describe now c non_retryable r = record r {
    status = dead;
    attempts = r.attempts + 1;
    last_error = some (describe c);
    updated_at = now;
  }

  unfoldable pub row_after :
      (CommandExecutionError → String) → ℕ → Verdict → Option (Row P) → Option (Row P)
  row_after describe now succeeded o = none
  row_after describe now panicked o = o
  row_after describe now (failed c) o = Option.map (failed_row describe now c c.kind) o

  failed_found :
      (describe : CommandExecutionError → String) (i j : ℕ) (c : CommandExecutionError)
      (k : ErrorKind) (w : Outbox P)
      → next_fault w.faults ≡ works
      → find_row j (on_failure describe k i c w).1.rows ≡ (
          if i == j
          then Option.map (failed_row describe w.now c k) (find_row j w.rows)
          else find_row j w.rows)
  unfolding requeue_retryable_outbox mark_outbox_dead statement
  failed_found describe i j c retryable w h =
      rw (h, next_fault)
        (find_row-update i j (failed_row describe w.now c retryable) w.rows (λ r. refl))
  failed_found describe i j c non_retryable w h =
      rw (h, next_fault)
        (find_row-update i j (failed_row describe w.now c non_retryable) w.rows (λ r. refl))

  -- Where the statement that follows the command works: a task that succeeded has no row any more, one
  -- that failed for a passing reason is Pending again, not before five seconds from now and with one
  -- more attempt counted, one that failed for good is Dead, and one whose command panicked has its row
  -- as it was. No other row changes.
  pub find_row-on_verdict :
      (describe : CommandExecutionError → String) (i j : ℕ) (v : Verdict) (w : Outbox P)
      → next_fault w.faults ≡ works
      → find_row j (on_verdict describe (some i) v w).1.rows
        ≡ (if i == j then row_after describe w.now v (find_row j w.rows) else find_row j w.rows)
  unfolding on_verdict row_after delete_outbox_row statement
  find_row-on_verdict describe i j succeeded w h = rw (h, next_fault) (find_row-delete i j w.rows)
  find_row-on_verdict describe i j panicked w h = ground arith
  find_row-on_verdict describe i j (failed c) w h = failed_found describe i j c c.kind w h
