-- ===== src/Tasks/Handler.antt =====
-- `DefaultTaskHandler::handle` of src/tasks/handler/default_handler.rs, with
-- `into_executable_command` of src/tasks/handler/command.rs.
pub mod Effects
pub mod Keeps
use cqwu_achievement_system.Prelude.{ℕ, String, Option, none, some}
use cqwu_achievement_system.Effect.{Result, ok, err}
use cqwu_achievement_system.Storage.{Client}
use cqwu_achievement_system.Tasks.{
  TaskCommand, delete_archive_objects, QueuedTask, RetryConfig, CommandExecutionError, ErrorKind,
  retryable, non_retryable,
}
use cqwu_achievement_system.Tasks.Runner.{
  Run, Verdict, succeeded, failed, panicked, run_executable_with_retry,
}
use cqwu_achievement_system.Tasks.DeleteObjects.{DeleteArchiveObjectsCommand, new, execute}
use cqwu_achievement_system.Tasks.Outbox.Table.{Outbox, TaskError}
use cqwu_achievement_system.Tasks.Outbox.Dispatcher.{
  delete_outbox_row, requeue_retryable_outbox, mark_outbox_dead,
}

pub data HandleError : Type 0 where
  row_not_deleted : TaskError → HandleError
  command_failed : CommandExecutionError → HandleError
  row_not_updated : CommandExecutionError → TaskError → HandleError

-- What the worker sees of a task: what it returned, or that it panicked.
pub data Handled : Type 0 where
  returned : Result HandleError (Unit {0}) → Handled
  join_error : Handled

unfoldable pub into_executable_command :
    {S : Type 0} → TaskCommand → S → DeleteArchiveObjectsCommand S
into_executable_command (delete_archive_objects keys) s = new keys s

module _ {P : Type 0} where
  abbrev pub deleted : Result TaskError (Unit {0}) × Outbox P → Handled × Outbox P
  deleted (ok tt, w) = (returned (ok tt), w)
  deleted (err e, w) = (returned (err (row_not_deleted e)), w)

  abbrev pub updated :
      CommandExecutionError → Result TaskError (Unit {0}) × Outbox P → Handled × Outbox P
  updated c (ok tt, w) = (returned (err (command_failed c)), w)
  updated c (err e, w) = (returned (err (row_not_updated c e)), w)

  -- The message of the row; `describe` is the `Debug` text of the error's parts.
  abbrev pub on_failure :
      (CommandExecutionError → String)
      → ErrorKind
      → ℕ
      → CommandExecutionError
      → Outbox P
      → Handled × Outbox P
  on_failure describe retryable id c w = updated c (requeue_retryable_outbox id (describe c) 5 w)
  on_failure describe non_retryable id c w = updated c (mark_outbox_dead id (describe c) w)

  -- The match on the result of the command.
  unfoldable pub on_verdict :
      (CommandExecutionError → String) → Option ℕ → Verdict → Outbox P → Handled × Outbox P
  on_verdict describe none succeeded w = (returned (ok tt), w)
  on_verdict describe (some id) succeeded w = deleted (delete_outbox_row id w)
  on_verdict describe none (failed c) w = (returned (err (command_failed c)), w)
  on_verdict describe (some id) (failed c) w = on_failure describe c.kind id c w
  on_verdict describe id panicked w = (join_error, w)

module _ {S P : Type 0} (client : Client S) (config : RetryConfig)
    (describe : CommandExecutionError → String) where
  -- `none` only where the loop's fuel runs out.
  unfoldable pub handle : QueuedTask → S × Outbox P → Option (Handled × (S × Outbox P))
  handle task (s, w) =
      elim (run_executable_with_retry (execute client) config
        (into_executable_command task.command s)) [
          | none ↦ none
          | some r ↦
              let (h, w') = on_verdict describe task.outbox_id r.verdict w in
              some (h, (r.state.storage, w'))
        ]
