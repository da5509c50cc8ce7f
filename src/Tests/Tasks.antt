-- ===== src/Tests/Tasks.antt =====
-- The theorems on the background tasks, at concrete inputs.
use cqwu_achievement_system.Prelude.{
  length, ◌⊎◌, inr, not, ◌&&◌, ◌==◌, false, keep, if◌then◌else◌, Bool-cases, and_both, sym, ℕ, zero,
  suc, ◌+◌, ◌≡◌, refl, subst, inl, Bool, true, ◌||◌, String, Option, none, some, List, [], ◌∷◌,
  ◌++◌, map, arith, any, str_eq, eq_iff, All, or_left, or_right, max,
}
use cqwu_achievement_system.Effect.{Result, ok, err}
use cqwu_achievement_system.Storage.{Client, DeleteOutput, SdkError, ErrorEntry, failure_of}
use cqwu_achievement_system.Storage.Report.{Accounts, Reported}
use cqwu_achievement_system.Tasks.{
  command_type, TaskCommand, delete_archive_objects, in_memory, from_outbox, running, RetryConfig,
  CommandExecutionError, retryable, timeout,
}
use cqwu_achievement_system.Tasks.Runner.{
  Run, succeeded, failed, run_executable_with_retry, run_loop,
}
use cqwu_achievement_system.Tasks.Runner.Attempts.{Fits, Explained, run-Explained}
use cqwu_achievement_system.Tasks.Runner.Backoff.{schedule, run-schedule}
use cqwu_achievement_system.Tasks.DeleteObjects.{DeleteArchiveObjectsCommand, new, execute}
use cqwu_achievement_system.Tasks.DeleteObjects.Delivery.{Outcome, success-settles}
use cqwu_achievement_system.Tasks.DeleteObjects.Coverage.{any_failure}
use cqwu_achievement_system.Tasks.Outbox.Table.{statement, select, update_rows, Row, Outbox, Codec}
use cqwu_achievement_system.Tasks.Outbox.Dispatcher.{
  insert_row, try_enqueue_outbox_task, try_reserve_slot, on_marked, mark_running, submit,
  pump_outbox_once,
}
use cqwu_achievement_system.Tasks.Outbox.Claims.{IsClaimed}
use cqwu_achievement_system.Tasks.Outbox.Submit.{submit-Placed, Placed}
use cqwu_achievement_system.Tasks.Handler.{on_verdict}
use cqwu_achievement_system.Tasks.Handler.Effects.{find_row, row_after, find_row-on_verdict}
use cqwu_achievement_system.Tasks.Reach.{submits, pumps, Reach, here, next, Reach-Claimed}
use cqwu_achievement_system.Tasks.Worker.{
  Event, changed, received, completed, Worker, rounds, add_command_worker_with_concurrency,
}
use cqwu_achievement_system.Tasks.Worker.Keeps.{IsSound, worker-IsSound}
use cqwu_achievement_system.Tasks.Worker.Drains.{Progress, worker-Drains}

abbrev delete_two : TaskCommand
delete_two = delete_archive_objects ("a" ∷ "b" ∷ [])

abbrev pub codec : Codec TaskCommand
codec = record { to_value = λ c. some c; from_value = λ c. some c; error_text = λ c. "" }

abbrev describe : CommandExecutionError → String
describe e = e.message

abbrev pub outbox : Outbox TaskCommand
outbox = record {
  rows = [];
  next_id = 1;
  now = 0;
  queue = [];
  in_flight = [];
  capacity = 2;
  closed = false;
  dropped_by_queue_full = 0;
  dropped_by_queue_closed = 0;
  faults = [];
}

outbox-IsClaimed : IsClaimed outbox
outbox-IsClaimed = record {
  below = tt;
  distinct = tt;
  room = omega arith;
  held = λ i e. absurd (ground arith);
  once = refl;
}

submitted :
    Reach codec describe outbox (pump_outbox_once codec 5 (submit codec delete_two outbox).1).1
submitted =
    next (next here (submits outbox delete_two)) (pumps (submit codec delete_two outbox).1 5)

Reach-Claimed_example : IsClaimed (pump_outbox_once codec 5 (submit codec delete_two outbox).1).1
Reach-Claimed_example = Reach-Claimed codec describe outbox-IsClaimed submitted

abbrev row : Row TaskCommand
row = record {
  id = 1;
  command_type = "DeleteArchiveObjects";
  payload = delete_two;
  status = running;
  attempts = 0;
  next_retry_at = 0;
  last_error = none;
  updated_at = 0;
}

abbrev submitted_outbox : Outbox TaskCommand
submitted_outbox = record outbox {
  rows = row ∷ [];
  next_id = 2;
  queue = from_outbox 1 delete_two ∷ [];
}

submit_two : submit codec delete_two outbox ≡ (ok tt, submitted_outbox)
unfolding submit insert_row statement try_enqueue_outbox_task try_reserve_slot on_marked
    mark_running select update_rows command_type
submit_two = refl

submit-Placed_example :
    (r : Row TaskCommand) × (submitted_outbox.rows ≡ outbox.rows ++ r ∷ [])
    × (r.id ≡ outbox.next_id)
    × (codec.to_value delete_two ≡ some r.payload)
    × Placed outbox.next_id delete_two outbox.queue r submitted_outbox.queue
submit-Placed_example = submit-Placed codec delete_two outbox submitted_outbox tt submit_two

abbrev timed_out : CommandExecutionError
timed_out = record {
  kind = retryable;
  category = timeout;
  message = "timeout";
  failed_keys = "a" ∷ [];
}

find_row-on_verdict_example :
    find_row 1 (on_verdict describe (some 1) (failed timed_out) submitted_outbox).1.rows
    ≡ row_after describe 0 (failed timed_out) (find_row 1 submitted_outbox.rows)
find_row-on_verdict_example =
    find_row-on_verdict describe 1 1 (failed timed_out) submitted_outbox refl

-- A command that fails twice and then succeeds; its state counts the attempts.
abbrev third_time : ℕ → Option CommandExecutionError × ℕ
third_time zero = (some timed_out, 1)
third_time (suc zero) = (some timed_out, 2)
third_time (suc (suc n)) = (none, 3 + n)

abbrev config : RetryConfig
config = record { max_retries = 5; backoff = 1; backoff_multiplier = 3; max_wait_duration = 2 }

config-Fits : Fits config config.backoff
config-Fits = omega arith

run-Explained_example :
    (r : Run ℕ) × (run_executable_with_retry third_time config 0 ≡ some r)
    × Explained third_time config 0 0 r
run-Explained_example = run-Explained third_time config 0 config-Fits

abbrev third_run : Run ℕ
third_run = record { verdict = succeeded; state = 3; attempts = 3; sleeps = 1 ∷ 2 ∷ [] }

runs_three : run_executable_with_retry third_time config 0 ≡ some third_run
unfolding run_executable_with_retry run_loop
runs_three = refl

run-schedule_example : third_run.sleeps ≡ schedule 1 3 2 0 2
run-schedule_example =
    run-schedule third_time config 0 third_run (omega arith) (omega arith) runs_three

-- A storage service that refuses the object "b", asks to slow down at the first request, and
-- deletes; its state counts the requests and tells what is deleted.
abbrev Deleted : Type 0
Deleted = ℕ × (String → Bool)

abbrev deletes : ℕ → String → Bool
deletes n k = not (str_eq k "b") && not (n == 0)

abbrev refusal : String → ErrorEntry
refusal k = record {
  key = some k;
  code = some (if str_eq k "b" then "AccessDenied" else "SlowDown");
  message = none;
}

abbrev refusals : ℕ → List String → List ErrorEntry
refusals n keys = map refusal (keep (λ k. not (deletes n k)) keys)

abbrev store : Client Deleted
store = record {
  refused = λ k. none;
  delete_objects = λ keys s. (
    ok (record {
      deleted = map (λ k. some k) (keep (deletes s.0) keys);
      errors = refusals s.0 keys;
    }),
    (suc s.0, λ k. (any (str_eq k) keys && deletes s.0 k) || s.1 k),
  );
}

abbrev IsDeleted : Deleted → String → Type 0
IsDeleted s k = s.1 k ≡ true

All-any :
    {P : String → Type 0} (keys : List String)
    → ((k : String) → any (str_eq k) keys ≡ true → P k)
    → All P keys
All-any [] f = tt
All-any (k ∷ ks) f =
    (f k (or_left _ _ ((eq_iff k k).1 refl)), All-any ks (λ j e. f j (or_right _ _ e)))

refusals-Reported :
    (n : ℕ) (k : String) (keys : List String)
    → any (str_eq k) keys ≡ true
    → deletes n k ≡ false
    → Reported any_failure k (map failure_of (refusals n keys))
unfolding failure_of
refusals-Reported n k [] m d = absurd (cc m)
refusals-Reported n k (x ∷ xs) m d = elim (Bool-cases (str_eq k x)) [
  | inl e ↦
      let q = subst (λ y. deletes n y ≡ false) ((eq_iff k x).0 e) d in
      rw q (inl (sym ((eq_iff k x).0 e), refl))
  | inr e ↦ elim (Bool-cases (deletes n x)) [
    | inl q ↦ rw q (refusals-Reported n k xs (ground arith) d)
    | inr q ↦ rw q (inr (refusals-Reported n k xs (ground arith) d))
  ]
]

-- The key is deleted in the state, or stands among the errors of the answer.
abbrev Answered : String → Result SdkError DeleteOutput × Deleted → Type 0
Answered k (ok out, s) = IsDeleted s k ⊎ Reported any_failure k (map failure_of out.errors)
Answered k (err e, s) = ⊥

store-Answered :
    (keys : List String) (s : Deleted) → All (λ k. Answered k (store.delete_objects keys s)) keys
store-Answered keys s = All-any keys (λ k m. elim (Bool-cases (deletes s.0 k)) [
  | inl d ↦ inl (or_left _ _ (and_both _ _ m d))
  | inr d ↦ inr (refusals-Reported s.0 k keys m d)
])

store-Accounts : Accounts store any_failure IsDeleted
store-Accounts = record {
  answers = λ keys s s' out lo hi e.
      subst (λ (p : Result SdkError DeleteOutput × Deleted). All (λ k. Answered k p) keys) e
        (store-Answered keys s);
  persists = λ keys s k h. or_right _ _ h;
}

abbrev nothing : Deleted
nothing = (0, λ k. false)

-- The first attempt leaves "a" for a second one, which deletes it, and "b" is given up.
abbrev deleted_run : Run (DeleteArchiveObjectsCommand Deleted)
deleted_run = record {
  verdict = succeeded;
  state = record {
    pending_keys = "a" ∷ [];
    storage = (store.delete_objects ("a" ∷ []) (store.delete_objects ("a" ∷ "b" ∷ []) nothing).1).1;
  };
  attempts = 2;
  sleeps = 1 ∷ [];
}

deletes_two :
    run_executable_with_retry (execute store) config (new ("a" ∷ "b" ∷ []) nothing)
    ≡ some deleted_run
unfolding run_executable_with_retry run_loop execute new
deletes_two = refl

success-settles_example :
    All
      (Outcome store IsDeleted store-Accounts config config-Fits
        ("a" ∷ "b" ∷ [])
        nothing
        deleted_run)
      ("a" ∷ "b" ∷ [])
success-settles_example =
    success-settles store IsDeleted store-Accounts config config-Fits ("a" ∷ "b" ∷ []) nothing
      deleted_run deletes_two refl

abbrev events : List Event
events = received (some (in_memory delete_two)) ∷ changed (some true) ∷ completed 0 ∷ []

abbrev last_worker : Worker
last_worker = record {
  in_flight = [];
  stopping = true;
  ended = true;
  taken = in_memory delete_two ∷ [];
  finished = in_memory delete_two ∷ [];
}

works_off : add_command_worker_with_concurrency 0 events ≡ some last_worker
unfolding add_command_worker_with_concurrency
works_off = refl

worker-IsSound_example : IsSound (max 0 1) last_worker
worker-IsSound_example = worker-IsSound 0 events last_worker works_off

abbrev stopped : Worker
stopped = record {
  in_flight = in_memory delete_two ∷ [];
  stopping = true;
  ended = false;
  taken = in_memory delete_two ∷ [];
  finished = [];
}

stops_with_one :
    add_command_worker_with_concurrency 0
      (received (some (in_memory delete_two)) ∷ changed (some true) ∷ [])
    ≡ some stopped
unfolding add_command_worker_with_concurrency
stops_with_one = refl

completes_one : rounds 1 (completed 0 ∷ []) stopped ≡ some last_worker
unfolding rounds
completes_one = refl

worker-Drains_example :
    (length (completed 0 ∷ []) + length last_worker.in_flight ≡ length stopped.in_flight)
    × (last_worker.ended ≡ true)
    × Progress (max 0 1) last_worker
worker-Drains_example =
    worker-Drains 0 (received (some (in_memory delete_two)) ∷ changed (some true) ∷ [])
      (completed 0 ∷ []) stopped last_worker stops_with_one refl completes_one
