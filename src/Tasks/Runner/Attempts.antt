-- ===== src/Tasks/Runner/Attempts.antt =====
-- Which attempts the retry loop makes, and which of their results it answers with.
use mathlib.Core.Logic.{dite}
use native.Mathlib.Decide.{dec_lt}
use cqwu_achievement_system.Prelude.{
  ℕ, zero, suc, ◌+◌, ◌*◌, ◌≤◌, ◌<◌, min, max, ◌≡◌, refl, Bool, true, false, Option, none, some, [],
  ◌∷◌, arith, length, Bool-cases, ◌⊎◌, inl, inr,
}
use cqwu_achievement_system.Tasks.{RetryConfig, retryable, non_retryable, CommandExecutionError}
use cqwu_achievement_system.Tasks.Runner.{
  Run, Verdict, succeeded, failed, duration_max, run_loop, run_executable_with_retry,
}

abbrev pub is_retryable : Option CommandExecutionError → Bool
is_retryable none = false
is_retryable (some e) = elim e.kind [ retryable ↦ true | non_retryable ↦ false ]

abbrev pub verdict_of : Option CommandExecutionError → Verdict
verdict_of none = succeeded
verdict_of (some e) = failed e

module _ {S : Type 0} (execute : S → Option CommandExecutionError × S) where
  -- The state after `k` executions in a row.
  unfoldable pub state_at : ℕ → S → S
  state_at zero s = s
  state_at (suc k) s = state_at k (execute s).1

  -- The result of the execution after those.
  unfoldable pub outcome : ℕ → S → Option CommandExecutionError
  outcome k s = (execute (state_at k s)).0

-- No product of a delay and the factor overflows.
abbrev pub Fits : RetryConfig → ℕ → Type 0
Fits c b = max b c.max_wait_duration * c.backoff_multiplier ≤ duration_max

Fits-mul : (c : RetryConfig) (b : ℕ) → Fits c b → (b * c.backoff_multiplier ≤ duration_max)
Fits-mul c b h = grind arith

Fits-next :
    (c : RetryConfig) (b : ℕ)
    → Fits c b
    → Fits c (min (b * c.backoff_multiplier) c.max_wait_duration)
Fits-next c b h = grind arith

module _ {S : Type 0} (execute : S → Option CommandExecutionError × S) where
  -- What a finished run says of the attempts from `s` on, `retries` having been made before.
  pub record Explained (c : RetryConfig) (retries : ℕ) (s : S) (r : Run S) : Type 0 where
    pub last : ℕ
    pub counted : r.attempts ≡ suc last
    pub slept : length r.sleeps ≡ last
    pub within : retries + last ≤ c.max_retries
    pub earlier : (j : ℕ) → j < last → is_retryable (outcome execute j s) ≡ true
    pub answer : r.verdict ≡ verdict_of (outcome execute last s)
    pub left : r.state ≡ state_at execute (suc last) s
    pub stopped : (is_retryable (outcome execute last s) ≡ false) ⊎ (retries + last ≡ c.max_retries)

  stop-Explained :
      (c : RetryConfig) (retries : ℕ) (s : S)
      → retries ≤ c.max_retries
      → (is_retryable (execute s).0 ≡ false) ⊎ (retries ≡ c.max_retries)
      → Explained c retries s (record {
        verdict = verdict_of (execute s).0;
        state = (execute s).1;
        attempts = 1;
        sleeps = [];
      })
  unfolding outcome state_at
  stop-Explained c retries s h e = record {
    last = 0;
    counted = refl;
    slept = refl;
    within = omega arith;
    earlier = λ j l. absurd (omega arith);
    answer = refl;
    left = refl;
    stopped = ground arith;
  }

  next-Explained :
      (c : RetryConfig) (retries d : ℕ) (s : S) (r : Run S)
      → is_retryable (execute s).0 ≡ true
      → Explained c (retries + 1) (execute s).1 r
      → Explained c retries s (record r { attempts = suc r.attempts; sleeps = d ∷ r.sleeps })
  unfolding outcome state_at
  next-Explained c retries d s r e x = record {
    last = suc x.last;
    counted = omega arith;
    slept = omega arith;
    within = omega (arith, x.within);
    earlier = elim [ zero ↦ λ l. e | suc j ↦ λ l. x.earlier j (omega arith) ];
    answer = x.answer;
    left = x.left;
    stopped = ground (arith, x.stopped);
  }

  -- The loop ends, and its result is explained.
  abbrev Finishes : RetryConfig → ℕ → ℕ → ℕ → S → Type 0
  Finishes c fuel retries b s =
      (r : Run S) × (run_loop execute c fuel retries b s ≡ some r) × Explained c retries s r

  module _ (c : RetryConfig) (fuel retries b : ℕ) (s : S) (within : retries ≤ c.max_retries) where
    loop_stops : is_retryable (execute s).0 ≡ false → Finishes c (suc fuel) retries b s
    unfolding run_loop
    loop_stops e = (_, ground arith, stop-Explained c retries s within (inl e))

    loop_exhausted : retries ≡ c.max_retries → Finishes c (suc fuel) retries b s
    unfolding run_loop
    loop_exhausted e = (_, ground arith, stop-Explained c retries s within (inr e))

    loop_retries :
        is_retryable (execute s).0 ≡ true
        → retries < c.max_retries
        → Fits c b
        → Finishes c fuel
            (retries + 1)
            (min (b * c.backoff_multiplier) c.max_wait_duration)
            (execute s).1
        → Finishes c (suc fuel) retries b s
    unfolding run_loop
    loop_retries e l f (r, p, x) =
        (_, ground (arith, Fits-mul c b f), next-Explained c retries b s r e x)

  loop-Finishes :
      (c : RetryConfig) (fuel retries b : ℕ) (s : S)
      → retries ≤ c.max_retries
      → c.max_retries < retries + fuel
      → Fits c b
      → Finishes c fuel retries b s
  loop-Finishes c zero retries b s w h f = absurd (omega arith)
  loop-Finishes c (suc fuel) retries b s w h f = elim (Bool-cases (is_retryable (execute s).0)) [
    | inl e ↦
        dite (dec_lt retries c.max_retries)
          (λ l. loop_retries c fuel retries b s w e l f (
            loop-Finishes c fuel (retries + 1) (min (b * c.backoff_multiplier) c.max_wait_duration)
              (execute s).1 (omega arith) (omega arith) (Fits-next c b f)))
          (λ l. loop_exhausted c fuel retries b s w (omega arith))
    | inr e ↦ loop_stops c fuel retries b s w e
  ]

-- If no delay overflows, the loop ends with a result after at most `max_retries + 1` attempts: all
-- but the last failed with a retryable error, the verdict is the result of the last, which is final
-- or the last allowed, and there was one sleep between each two.
pub run-Explained :
    {S : Type 0} (execute : S → Option CommandExecutionError × S) (config : RetryConfig) (s : S)
    → Fits config config.backoff
    → (r : Run S) × (run_executable_with_retry execute config s ≡ some r)
      × Explained execute config 0 s r
unfolding run_executable_with_retry
run-Explained execute config s f =
    loop-Finishes execute config (config.max_retries + 1) 0 config.backoff s (omega arith)
      (omega arith) f
