-- ===== src/Tasks/Worker.antt =====
-- The command worker: `add_command_worker_with_concurrency` of src/tasks/manager.rs.
-- One round of its loop waits for one of three things, an event; which of those that are ready is
-- taken is not fixed. What a finished command answers is only logged.
pub mod Keeps
pub mod Drains
use cqwu_achievement_system.Prelude.{
  ℕ, zero, suc, max, Bool, true, false, not, ◌&&◌, ◌||◌, Option, none, some, List, [], ◌∷◌, ◌++◌,
  ltb, if◌then◌else◌, length,
}
use cqwu_achievement_system.Tasks.{QueuedTask}

-- The stop signal changed (`none`: its sender is gone), the channel delivered a task (`none`: it is
-- closed and empty), or the task at a place of the set in flight ended.
pub data Event : Type 0 where
  changed : Option Bool → Event
  received : Option QueuedTask → Event
  completed : ℕ → Event

-- `taken` and `finished` record what came out of the channel and what has ended.
pub record Worker : Type 0 where
  pub in_flight : List QueuedTask
  pub stopping : Bool
  pub ended : Bool
  pub taken : List QueuedTask
  pub finished : List QueuedTask

unfoldable pub start : Worker
start = record { in_flight = []; stopping = false; ended = false; taken = []; finished = [] }

abbrev pub is_empty : List QueuedTask → Bool
is_empty [] = true
is_empty (t ∷ ts) = false

abbrev pub stops : Option Bool → Bool
stops none = true
stops (some b) = b

-- `spawn` of a task that was received.
abbrev pub on_received : Option QueuedTask → Worker → Worker
on_received none w = record w { stopping = true }
on_received (some t) w = record w { in_flight = t ∷ w.in_flight; taken = t ∷ w.taken }

unfoldable pub take_at : ℕ → List QueuedTask → Option (QueuedTask × List QueuedTask)
take_at n [] = none
take_at zero (t ∷ ts) = some (t, ts)
take_at (suc n) (t ∷ ts) = elim (take_at n ts) [ none ↦ none | some p ↦ some (p.0, t ∷ p.1) ]

abbrev pub on_completed : Option (QueuedTask × List QueuedTask) → Worker → Option Worker
on_completed none w = none
on_completed (some p) w = some (record w { in_flight = p.1; finished = p.0 ∷ w.finished })

-- The branches of `select!` with their conditions; `none` means that the branch is disabled.
unfoldable pub branch : ℕ → Event → Worker → Option Worker
unfolding take_at
branch max_in_flight (changed signal) w =
    if not w.stopping then some (record w { stopping = stops signal }) else none
branch max_in_flight (received cmd) w =
    if not w.stopping && ltb (length w.in_flight) max_in_flight
    then some (on_received cmd w)
    else none
branch max_in_flight (completed n) w = on_completed (take_at n w.in_flight) w

-- `if stopping && in_flight.is_empty() { break; }`
abbrev pub break_if_done : Option Worker → Option Worker
break_if_done none = none
break_if_done (some w) = some (record w { ended = w.stopping && is_empty w.in_flight })

-- One round of the loop.
unfoldable pub round : ℕ → Event → Worker → Option Worker
unfolding branch
round max_in_flight event w = if w.ended then none else break_if_done (branch max_in_flight event w)

abbrev pub rounds_after : (Worker → Option Worker) → Option Worker → Option Worker
rounds_after rest none = none
rounds_after rest (some w) = rest w

unfoldable pub rounds : ℕ → List Event → Worker → Option Worker
unfolding round
rounds max_in_flight [] w = some w
rounds max_in_flight (e ∷ es) w = rounds_after (rounds max_in_flight es) (round max_in_flight e w)

-- The worker on a sequence of events.
unfoldable pub add_command_worker_with_concurrency : ℕ → List Event → Option Worker
unfolding rounds start
add_command_worker_with_concurrency max_in_flight events = rounds (max max_in_flight 1) events start

abbrev pub add_command_worker : List Event → Option Worker
add_command_worker events = add_command_worker_with_concurrency 16 events
