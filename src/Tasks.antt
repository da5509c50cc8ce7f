-- ===== src/Tasks.antt =====
-- Background tasks: src/tasks/models.rs and src/tasks/handler/executable.rs.
pub mod Runner
pub mod DeleteObjects
pub mod Outbox
pub mod Handler
pub mod Worker
pub mod Reach
use cqwu_achievement_system.Prelude.{ℕ, ◌*◌, String, Option, none, some, List}

pub data OutboxStatus : Type 0 where
  pending running dead : OutboxStatus

unfoldable pub as_i16 : OutboxStatus → ℕ
as_i16 pending = 0
as_i16 running = 1
as_i16 dead = 2

-- A duration is a number of nanoseconds.
pub record RetryConfig : Type 0 where
  pub max_retries : ℕ
  pub backoff : ℕ
  pub backoff_multiplier : ℕ
  pub max_wait_duration : ℕ

abbrev pub from_secs : ℕ → ℕ
from_secs n = n * 1_000_000_000

unfoldable pub retry_config_default : RetryConfig
retry_config_default = record {
  max_retries = 10;
  backoff = from_secs 1;
  backoff_multiplier = 2;
  max_wait_duration = from_secs 30;
}

pub data TaskCommand : Type 0 where
  delete_archive_objects : List String → TaskCommand

unfoldable pub command_type : TaskCommand → String
command_type (delete_archive_objects keys) = "DeleteArchiveObjects"

pub record QueuedTask : Type 0 where
  pub outbox_id : Option ℕ
  pub command : TaskCommand

abbrev pub in_memory : TaskCommand → QueuedTask
in_memory c = record { outbox_id = none; command = c }

abbrev pub from_outbox : ℕ → TaskCommand → QueuedTask
from_outbox id c = record { outbox_id = some id; command = c }

pub data ErrorKind : Type 0 where
  retryable non_retryable : ErrorKind

pub data ErrorCategory : Type 0 where
  timeout throttled network service_unavailable access_denied : ErrorCategory
  invalid_argument resource_not_found internal unknown : ErrorCategory

pub record CommandExecutionError : Type 0 where
  pub kind : ErrorKind
  pub category : ErrorCategory
  pub message : String
  pub failed_keys : List String
