-- ===== src/Tasks/Reach.antt =====
-- The server, the pump, the recovery and the workers over one outbox, one step at a time.
use mathlib.Core.List.{append_assoc}
use cqwu_achievement_system.Prelude.{
  ℕ, zero, suc, ◌+◌, ◌*◌, ◌≡◌, refl, ap, Bool, true, false, String, List, [], ◌∷◌, ◌++◌, arith, ltb,
  length,
}
use cqwu_achievement_system.Tasks.{QueuedTask, TaskCommand, CommandExecutionError}
use cqwu_achievement_system.Tasks.Runner.{Verdict}
use cqwu_achievement_system.Tasks.Handler.{on_verdict}
use cqwu_achievement_system.Tasks.Handler.Keeps.{finish-Claimed}
use cqwu_achievement_system.Tasks.Outbox.Table.{
  Row, Outbox, Codec, Fault, member, second, delay_seconds,
}
use cqwu_achievement_system.Tasks.Outbox.Dispatcher.{
  submit, pump_outbox_once, queue_in_memory, reclaim_stale_running_outbox,
}
use cqwu_achievement_system.Tasks.Outbox.Claims.{IsClaimed, claims, statement_keeps, update-Claimed}
use cqwu_achievement_system.Tasks.Outbox.Keeps.{submit-Claimed, queue_in_memory-Claimed}
use cqwu_achievement_system.Tasks.Outbox.PumpKeeps.{pump-Claimed}

-- A claimed row that is older than the timeout.
abbrev pub NotStale : {P : Type 0} → ℕ → Outbox P → Type 0
NotStale {P} timeout w =
    (r : Row P)
    → member r.id (claims w.in_flight w.queue) ≡ true
    → ltb (r.updated_at + delay_seconds timeout * second) w.now ≡ false

-- One step of the system.
pub data Step {P : Type 0} (codec : Codec P) (describe : CommandExecutionError → String)
    : Outbox P → Outbox P → Type 0 where
  submits : (w : Outbox P) (c : TaskCommand) → Step codec describe w (submit codec c w).1
  queues : (w : Outbox P) (c : TaskCommand) → Step codec describe w (queue_in_memory c w).1
  pumps : (w : Outbox P) (batch : ℕ) → Step codec describe w (pump_outbox_once codec batch w).1
  reclaims :
      (w : Outbox P) (timeout : ℕ)
      → NotStale timeout w
      → Step codec describe w (reclaim_stale_running_outbox timeout w).1
  takes :
      (w : Outbox P) (t : QueuedTask) (rest : List QueuedTask)
      → w.queue ≡ t ∷ rest
      → Step codec describe w (record w { queue = rest; in_flight = w.in_flight ++ t ∷ [] })
  finishes :
      (w : Outbox P) (before after : List QueuedTask) (t : QueuedTask) (v : Verdict)
      → w.in_flight ≡ before ++ (t ∷ after)
      → Step codec describe w
          (on_verdict describe t.outbox_id v (record w { in_flight = before ++ after })).1
  passes :
      (w : Outbox P) (later : ℕ) (faults : List Fault) (closed : Bool)
      → Step codec describe w (record w { now = w.now + later; faults = faults; closed = closed })

pub data Reach {P : Type 0} (codec : Codec P) (describe : CommandExecutionError → String)
    (s : Outbox P) : Outbox P → Type 0 where
  here : Reach codec describe s s
  next :
      {w w' : Outbox P}
      → Reach codec describe s w
      → Step codec describe w w'
      → Reach codec describe s w'

module _ {P : Type 0} (codec : Codec P) (describe : CommandExecutionError → String) where
  reclaim-Claimed :
      (timeout : ℕ) (w : Outbox P)
      → NotStale timeout w
      → IsClaimed w
      → IsClaimed (reclaim_stale_running_outbox timeout w).1
  unfolding reclaim_stale_running_outbox
  reclaim-Claimed zero w fresh v = v
  reclaim-Claimed (suc t) w fresh v =
      statement_keeps IsClaimed _ w v
        (update-Claimed v _ _ (λ r. refl) (λ r m s e. absurd (ground (arith, fresh r m))))

  -- Each step keeps the invariant.
  Step-Claimed : {w w' : Outbox P} → Step codec describe w w' → IsClaimed w → IsClaimed w'
  Step-Claimed (submits w c) v = submit-Claimed codec c w v
  Step-Claimed (queues w c) v = queue_in_memory-Claimed c w v
  Step-Claimed (pumps w batch) v = pump-Claimed codec batch w v
  Step-Claimed (reclaims w timeout fresh) v = reclaim-Claimed timeout w fresh v
  Step-Claimed (takes w t rest e) v = record {
    below = v.below;
    distinct = v.distinct;
    room = omega (arith, v.room, ap length e);
    held = λ i. rw (append_assoc w.in_flight (t ∷ []) rest) (λ m. v.held i (rw e m));
    once = rw (append_assoc w.in_flight (t ∷ []) rest) (rw e at v.once);
  }
  Step-Claimed (finishes w before after t v e) h =
      finish-Claimed describe before after t v w (rw e at h)
  Step-Claimed (passes w later faults closed) v = v

  -- Whatever the server, the pump and the workers do, in any order and with any statements failing, as
  -- long as no claimed row is reclaimed as stale: the tasks that came from the outbox and are queued or
  -- in flight have rows, which are Running, no two of them share a row, and the queue is within its
  -- capacity.
  pub Reach-Claimed : {s w : Outbox P} → IsClaimed s → Reach codec describe s w → IsClaimed w
  Reach-Claimed v here = v
  Reach-Claimed v (next r st) = Step-Claimed st (Reach-Claimed v r)
