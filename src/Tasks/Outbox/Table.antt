-- ===== src/Tasks/Outbox/Table.antt =====
-- The durable outbox and the in-memory queue in front of it: src/tasks/dispatcher.rs.
--
-- The table `task_outbox` is a list of rows in the order of their ids, each SQL statement a function
-- of it; `NOW()` is the field `now`, in microseconds. A statement may fail: the environment's
-- `faults` say for each statement in turn whether it works, is refused with no effect, or takes
-- effect and loses its reply. The bounded channel of tokio is the list of the tasks it holds; what
-- the workers have taken out and not finished is kept beside it, as `in_flight`.
use cqwu_achievement_system.Prelude.{
  ℕ, min, Bool, true, false, ◌&&◌, ◌||◌, String, Option, List, [], ◌∷◌, leb, ◌==◌, if◌then◌else◌,
  length,
}
pub use cqwu_achievement_system.Effect.{Fault, works, refused, reply_lost, next_fault, later_faults}
use cqwu_achievement_system.Effect.{Result, ok, err, Action}
use cqwu_achievement_system.Tasks.{OutboxStatus, pending, running, dead, TaskCommand, QueuedTask}

pub record Row (P : Type 0) : Type 0 where
  pub id : ℕ
  pub command_type : String
  pub payload : P
  pub status : OutboxStatus
  pub attempts : ℕ
  pub next_retry_at : ℕ
  pub last_error : Option String
  pub updated_at : ℕ

pub record Outbox (P : Type 0) : Type 0 where
  pub rows : List (Row P)
  pub next_id : ℕ
  pub now : ℕ
  pub queue : List QueuedTask
  pub in_flight : List QueuedTask
  pub capacity : ℕ
  pub closed : Bool
  pub dropped_by_queue_full : ℕ
  pub dropped_by_queue_closed : ℕ
  pub faults : List Fault

-- `serde_json::to_value` and `serde_json::from_value` of a command, with the text of the error for a
-- payload that does not decode.
pub record Codec (P : Type 0) : Type 0 where
  pub to_value : TaskCommand → Option P
  pub from_value : P → Option TaskCommand
  pub error_text : P → String

pub data TaskError : Type 0 where
  statement_failed : TaskError
  not_serializable : TaskError
  invalid_payload : TaskError
  queue_full queue_closed : TaskError

abbrev pub second : ℕ
second = 1_000_000

abbrev pub i64_max : ℕ
i64_max = 9_223_372_036_854_775_807

-- `as_secs().min(i64::MAX as u64) as i64`
abbrev pub delay_seconds : ℕ → ℕ
delay_seconds d = min d i64_max

abbrev pub is_status : OutboxStatus → OutboxStatus → Bool
is_status pending pending = true
is_status running running = true
is_status dead dead = true
is_status _ _ = false

abbrev pub Task : Type 0 → Type 0 → Type 0
Task P A = Action (Outbox P) TaskError A

abbrev pub member : ℕ → List ℕ → Bool
member n [] = false
member n (m ∷ ms) = m == n || member n ms

module _ {P : Type 0} where
  -- One SQL statement under the faults of the environment.
  abbrev pub outcome_of :
      {A : Type 0} → (Outbox P → A × Outbox P) → Fault → Outbox P → Result TaskError A × Outbox P
  outcome_of run works w = (ok (run w).0, (run w).1)
  outcome_of run refused w = (err statement_failed, w)
  outcome_of run reply_lost w = (err statement_failed, (run w).1)

  unfoldable pub statement : {A : Type 0} → (Outbox P → A × Outbox P) → Task P A
  statement run w =
      outcome_of run (next_fault w.faults) (record w { faults = later_faults w.faults })

  -- UPDATE ... SET f WHERE test
  unfoldable pub update_rows : (Row P → Bool) → (Row P → Row P) → List (Row P) → List (Row P)
  update_rows test f [] = []
  update_rows test f (r ∷ rs) = (if test r then f r else r) ∷ update_rows test f rs

  -- The rows that a WHERE clause selects.
  unfoldable pub select : (Row P → Bool) → List (Row P) → List (Row P)
  select test [] = []
  select test (r ∷ rs) = if test r then r ∷ select test rs else select test rs

  abbrev pub update : (Row P → Bool) → (Row P → Row P) → Outbox P → ℕ × Outbox P
  update test f w = (length (select test w.rows), record w { rows = update_rows test f w.rows })

  abbrev pub unit_of : ℕ × Outbox P → Unit {0} × Outbox P
  unit_of (n, w) = (tt, w)

  abbrev pub has_id : ℕ → Row P → Bool
  has_id id r = r.id == id

  -- status = Pending AND next_retry_at <= NOW()
  abbrev pub due : ℕ → Row P → Bool
  due now r = is_status r.status pending && leb r.next_retry_at now
