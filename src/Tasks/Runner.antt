-- ===== src/Tasks/Runner.antt =====
-- `run_executable_with_retry` of src/tasks/handler/command_runner.rs.
-- The command's `execute` is a parameter: it changes the state of the command and of the services
-- that it calls, and answers with no error or with one. `tokio::time::sleep` is kept as the list of
-- the durations slept, and the product of a duration and a factor panics when it overflows.
pub mod Attempts
pub mod Backoff
use cqwu_achievement_system.Prelude.{
  ℕ, zero, suc, ◌+◌, ◌*◌, min, Option, none, some, List, [], ◌∷◌, leb, ltb, if◌then◌else◌,
}
use cqwu_achievement_system.Tasks.{
  RetryConfig, retryable, non_retryable, CommandExecutionError, from_secs,
}

pub data Verdict : Type 0 where
  succeeded : Verdict
  failed : CommandExecutionError → Verdict
  panicked : Verdict

pub record Run (S : Type 0) : Type 0 where
  pub verdict : Verdict
  pub state : S
  pub attempts : ℕ
  pub sleeps : List ℕ

-- `Duration::MAX`: `u64::MAX` seconds and 999,999,999 nanoseconds.
abbrev pub duration_max : ℕ
duration_max = from_secs 18_446_744_073_709_551_615 + 999_999_999

module _ {S : Type 0} where
  abbrev pub stop : Verdict → S → Option (Run S)
  stop v s = some (record { verdict = v; state = s; attempts = 1; sleeps = [] })

  -- One more attempt and one more sleep before the rest of the loop.
  abbrev pub after_sleep : ℕ → Option (Run S) → Option (Run S)
  after_sleep d none = none
  after_sleep d (some r) = some (record r { attempts = suc r.attempts; sleeps = d ∷ r.sleeps })

module _ {S : Type 0} (execute : S → Option CommandExecutionError × S) (config : RetryConfig) where
  -- The arm for a retryable error: `again` is the next round.
  abbrev pub retry : ℕ → ℕ → CommandExecutionError → S → (ℕ → Option (Run S)) → Option (Run S)
  retry retries backoff err s again =
      if leb config.max_retries retries
      then stop (failed err) s
      else if ltb duration_max (backoff * config.backoff_multiplier)
      then some (record { verdict = panicked; state = s; attempts = 1; sleeps = backoff ∷ [] })
      else after_sleep backoff
          (again (min (backoff * config.backoff_multiplier) config.max_wait_duration))

  abbrev pub on_result :
      ℕ → ℕ → Option CommandExecutionError → S → (ℕ → Option (Run S)) → Option (Run S)
  on_result retries backoff none s again = stop succeeded s
  on_result retries backoff (some err) s again = elim err.kind [
    | non_retryable ↦ stop (failed err) s
    | retryable ↦ retry retries backoff err s again
  ]

  -- The loop on fuel; `none` means that the fuel ran out.
  unfoldable pub run_loop : ℕ → ℕ → ℕ → S → Option (Run S)
  run_loop zero retries backoff s = none
  run_loop (suc fuel) retries backoff s =
      let (result, s') = execute s in
      on_result retries backoff result s' (λ next. run_loop fuel (retries + 1) next s')

  -- `max_retries + 1` rounds are enough.
  unfoldable pub run_executable_with_retry : S → Option (Run S)
  unfolding run_loop
  run_executable_with_retry s = run_loop (config.max_retries + 1) 0 config.backoff s
