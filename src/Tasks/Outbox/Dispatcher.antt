-- ===== src/Tasks/Outbox/Dispatcher.antt =====
-- The methods of `TaskDispatcher` in src/tasks/dispatcher.rs, and the periodic pull.
use Prim.Native.String.{◌++◌ as text_append}
use cqwu_achievement_system.Prelude.{
  ℕ, zero, suc, ◌+◌, ◌*◌, ◌%◌, ◌^◌, Bool, ◌&&◌, String, Option, none, some, List, [], ◌∷◌, ◌++◌,
  map, leb, ltb, ◌==◌, str_eq, if◌then◌else◌, length, take,
}
use cqwu_achievement_system.Effect.{Result, ok, err, pure, lift, ◌>>=◌, ◌>>◌}
use cqwu_achievement_system.Tasks.{
  OutboxStatus, pending, running, dead, TaskCommand, QueuedTask, in_memory, from_outbox,
  command_type,
}
use cqwu_achievement_system.Tasks.Outbox.Table.{
  Row, Outbox, Codec, Task, TaskError, not_serializable, invalid_payload, queue_full, queue_closed,
  statement, update, update_rows, select, unit_of, has_id, member, due, is_status, second,
  delay_seconds,
}

-- E'\n'
abbrev newline : String
newline = "\n"

pub data QueueReserveError : Type 0 where
  full closed : QueueReserveError

abbrev pub or_raise : {A : Type 0} → Option A → TaskError → Result TaskError A
or_raise none e = err e
or_raise (some a) e = ok a

-- `CASE WHEN last_error IS NULL OR last_error = '' THEN $2 ELSE last_error || E'\n' || $2 END`
unfoldable pub reclaimed_error : Option String → String
reclaimed_error none = "reclaimed stale running task during recovery"
reclaimed_error (some e) =
    if str_eq e ""
    then "reclaimed stale running task during recovery"
    else text_append e (text_append newline "reclaimed stale running task during recovery")

module _ {P : Type 0} where
  -- `try_reserve_slot`: `none` is a permit. tokio answers `Closed` before `Full`.
  unfoldable pub try_reserve_slot : Outbox P → Option QueueReserveError
  try_reserve_slot w =
      if w.closed then some closed else if leb w.capacity (length w.queue) then some full else none

  -- `permit.send`
  abbrev pub send : QueuedTask → Outbox P → Outbox P
  send task w = record w { queue = w.queue ++ task ∷ [] }

  abbrev set_status : OutboxStatus → ℕ → Row P → Row P
  set_status status now r = record r { status = status; updated_at = now }

  -- UPDATE ... SET status = Running WHERE id = $2 AND status = Pending
  unfoldable pub mark_running : ℕ → Task P ℕ
  mark_running id w =
      statement
        (λ u. update (λ r. has_id id r && is_status r.status pending) (set_status running u.now) u)
        w

  -- `DROPPED_BY_QUEUE_FULL.fetch_add(1)` and its twin are 64-bit counters.
  unfoldable pub count_dropped : QueueReserveError → Outbox P → Outbox P
  count_dropped full w = record w { dropped_by_queue_full = (w.dropped_by_queue_full + 1) % 2 ^ 64 }
  count_dropped closed w = record w {
    dropped_by_queue_closed = (w.dropped_by_queue_closed + 1) % 2 ^ 64;
  }

  unfoldable pub on_marked : ℕ → TaskCommand → Result TaskError ℕ × Outbox P → Outbox P
  on_marked id command (ok n, w) = if n == 1 then send (from_outbox id command) w else w
  on_marked id command (err e, w) = w

  unfoldable pub try_enqueue_outbox_task : ℕ → TaskCommand → Outbox P → Outbox P
  try_enqueue_outbox_task id command w = elim (try_reserve_slot w) [
    | none ↦ on_marked id command (mark_running id w)
    | some e ↦ count_dropped e w
  ]

  abbrev new_row : ℕ → String → P → ℕ → Row P
  new_row id kind payload now = record {
    id = id;
    command_type = kind;
    payload = payload;
    status = pending;
    attempts = 0;
    next_retry_at = now;
    last_error = none;
    updated_at = now;
  }

  -- INSERT INTO task_outbox ... RETURNING id
  unfoldable pub insert_row : String → P → Task P ℕ
  insert_row kind payload w =
      statement
        (λ u. (
          u.next_id,
          record u {
            rows = u.rows ++ new_row u.next_id kind payload u.now ∷ [];
            next_id = u.next_id + 1;
          },
        ))
        w

  abbrev then_unit : (Outbox P → Outbox P) → Task P (Unit {0})
  then_unit f w = (ok tt, f w)

  -- UPDATE ... SET status = Pending, attempts = attempts + 1, next_retry_at = NOW() + delay
  unfoldable pub requeue_retryable_outbox : ℕ → String → ℕ → Task P (Unit {0})
  requeue_retryable_outbox id message delay = statement λ u. unit_of (
      update (has_id id)
        (λ r. record r {
          status = pending;
          attempts = r.attempts + 1;
          next_retry_at = u.now + delay_seconds delay * second;
          last_error = some message;
          updated_at = u.now;
        })
        u)

  unfoldable pub mark_outbox_dead : ℕ → String → Task P (Unit {0})
  mark_outbox_dead id message = statement λ u. unit_of (
      update (has_id id)
        (λ r. record r {
          status = dead;
          attempts = r.attempts + 1;
          last_error = some message;
          updated_at = u.now;
        })
        u)

  unfoldable pub delete_rows : ℕ → List (Row P) → List (Row P)
  delete_rows id [] = []
  delete_rows id (r ∷ rs) = if has_id id r then delete_rows id rs else r ∷ delete_rows id rs

  unfoldable pub delete_outbox_row : ℕ → Task P (Unit {0})
  delete_outbox_row id = statement λ u. (tt, record u { rows = delete_rows id u.rows })

  unfoldable pub requeue_outbox_rows : List ℕ → ℕ → Task P (Unit {0})
  requeue_outbox_rows [] delay = pure tt
  requeue_outbox_rows (id ∷ ids) delay = statement λ u. unit_of (
      update (λ r. member r.id (id ∷ ids))
        (λ r. record r {
          status = pending;
          next_retry_at = u.now + delay_seconds delay * second;
          updated_at = u.now;
        })
        u)

  -- The ids of the picked rows: the first due ones, by id.
  abbrev pub picked : ℕ → ℕ → List (Row P) → List (Row P)
  picked batch now rows = take batch (select (due now) rows)

  abbrev pub ids_of : List (Row P) → List ℕ
  ids_of rows = map (λ (r : Row P). r.id) rows

  -- The statement of the pump: the picked rows become Running, and come back with their payloads.
  unfoldable pub claim_due : ℕ → Task P (List (ℕ × P))
  claim_due batch = statement λ u.
      let ids = ids_of (picked batch u.now u.rows) in
      let test : Row P → Bool = λ r. member r.id ids && is_status r.status pending in
      (
        map (λ (r : Row P). (r.id, r.payload)) (select test u.rows),
        record u { rows = update_rows test (set_status running u.now) u.rows },
      )

  -- UPDATE of the rows that have been Running for longer than the timeout.
  unfoldable pub reclaim_stale_running_outbox : ℕ → Task P ℕ
  reclaim_stale_running_outbox zero = pure 0
  reclaim_stale_running_outbox (suc t) = statement λ u.
      update
        (λ r.
          is_status r.status running && ltb (r.updated_at + delay_seconds (suc t) * second) u.now)
        (λ r. record r {
          status = pending;
          next_retry_at = u.now;
          last_error = some (reclaimed_error r.last_error);
          updated_at = u.now;
        })
        u

  unfoldable pub queue_in_memory : TaskCommand → Task P (Unit {0})
  queue_in_memory command w = elim (try_reserve_slot w) [
    | none ↦ (ok tt, send (in_memory command) w)
    | some full ↦ (err queue_full, w)
    | some closed ↦ (err queue_closed, w)
  ]

module _ {P : Type 0} (codec : Codec P) where
  unfoldable pub submit : TaskCommand → Task P (Unit {0})
  submit command = do
    payload ← lift (or_raise (codec.to_value command) not_serializable)
    id ← insert_row (command_type command) payload
    then_unit (try_enqueue_outbox_task id command)

  -- The loop over the claimed rows: how many were sent, and the ids from the first with no slot on.
  unfoldable pub enqueue_rows : ℕ → List (ℕ × P) → Task P (ℕ × List ℕ)
  enqueue_rows enqueued [] w = (ok (enqueued, []), w)
  enqueue_rows enqueued ((id, payload) ∷ rest) w = elim (codec.from_value payload) [
    | none ↦
        (mark_outbox_dead id (text_append "invalid outbox payload: " (codec.error_text payload))
            >>= λ _. enqueue_rows enqueued rest)
          w
    | some command ↦ elim (try_reserve_slot w) [
      | none ↦ enqueue_rows (enqueued + 1) rest (send (from_outbox id command) w)
      | some e ↦ (ok (enqueued, id ∷ map (λ (p : ℕ × P). p.0) rest), w)
    ]
  ]

  abbrev requeue_rest : ℕ × List ℕ → Task P ℕ
  requeue_rest (enqueued, remaining) = requeue_outbox_rows remaining 1 >>= λ _. pure enqueued

  unfoldable pub pump_outbox_once : ℕ → Task P ℕ
  pump_outbox_once zero = pure 0
  pump_outbox_once (suc n) = do
    rows ← claim_due (suc n)
    sent ← enqueue_rows 0 rows
    requeue_rest sent

  -- The loop of the recovery: a payload that does not decode ends it with an error.
  unfoldable pub recover_rows : List (ℕ × P) → Task P (Unit {0})
  recover_rows [] = pure tt
  recover_rows ((id, payload) ∷ rest) = do
    command ← lift (or_raise (codec.from_value payload) invalid_payload)
    then_unit (try_enqueue_outbox_task id command)
    recover_rows rest

  -- SELECT id, payload ... WHERE status = Pending AND next_retry_at <= NOW()
  unfoldable pub due_rows : Task P (List (ℕ × P))
  due_rows = statement λ u. (map (λ (r : Row P). (r.id, r.payload)) (select (due u.now) u.rows), u)

  -- The rows reclaimed, and the rows found pending.
  unfoldable pub recover_outbox_tasks : ℕ → Task P (ℕ × ℕ)
  recover_outbox_tasks running_timeout = do
    reclaimed ← reclaim_stale_running_outbox running_timeout
    rows ← due_rows
    recover_rows rows
    pure (reclaimed, length rows)

  unfoldable pub pull_outbox_tasks : ℕ → ℕ → Task P (Unit {0})
  pull_outbox_tasks pull_batch_size running_timeout = do
    reclaim_stale_running_outbox running_timeout
    pump_outbox_once pull_batch_size
    pure tt
