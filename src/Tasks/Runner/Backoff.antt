-- ===== src/Tasks/Runner/Backoff.antt =====
-- The delays between the attempts of the retry loop.
use native.Mathlib.Nat.{pow-suc, pow-zero, mul-one, mul_assoc}
use native.Mathlib.Decide.{dec_le}
use cqwu_achievement_system.Prelude.{
  ℕ, zero, suc, ◌+◌, ◌*◌, ◌^◌, ◌≤◌, min, ◌≡◌, ◌⊎◌, ap, Option, none, some, List, [], ◌∷◌, arith,
  length, Option-cases, inl, inr,
}
use cqwu_achievement_system.Tasks.{RetryConfig, CommandExecutionError}
use cqwu_achievement_system.Tasks.Runner.{Run, run_loop, run_executable_with_retry}

-- Capped exponential growth: the delay after the first `k`.
abbrev pub delay : ℕ → ℕ → ℕ → ℕ → ℕ
delay b m w k = min (b * m ^ k) w

pub schedule : ℕ → ℕ → ℕ → ℕ → ℕ → List ℕ
schedule b m w k zero = []
schedule b m w k (suc n) = delay b m w k ∷ schedule b m w (suc k) n

le-mul_pos : (w m : ℕ) → 1 ≤ m → w ≤ w * m
le-mul_pos w m h = grind arith

min_step : (x m w : ℕ) → 1 ≤ m → min (min x w * m) w ≡ min (x * m) w
min_step x m w h = elim (dec_le x w) [
  | yes p ↦ let e : min x w ≡ x = omega arith in rw e
  | no p ↦
      let e : min x w ≡ w = omega arith in rw e (omega (arith, le-mul_pos w m h, le-mul_pos x m h))
]

delay-suc : (b m w k : ℕ) → 1 ≤ m → min (delay b m w k * m) w ≡ delay b m w (suc k)
delay-suc b m w k h =
    rw (min_step (b * m ^ k) m w h, pow-suc) (ap (λ (t : ℕ). min t w) (mul_assoc b (m ^ k) m))

module _ {S : Type 0} (execute : S → Option CommandExecutionError × S) (c : RetryConfig) where
  abbrev rest : ℕ → ℕ → ℕ → S → Option (Run S)
  rest fuel retries b s =
      run_loop execute c fuel (retries + 1) (min (b * c.backoff_multiplier) c.max_wait_duration)
        (execute s).1

  -- A round ends the loop, with at most its own sleep, or sleeps and leaves the rest to the loop.
  abbrev Rounds : ℕ → ℕ → ℕ → S → Run S → Type 0
  Rounds fuel retries b s r =
      (r.sleeps ≡ [])
      ⊎ (r.sleeps ≡ b ∷ [])
      ⊎ ((r' : Run S) × (rest fuel retries b s ≡ some r') × (r.sleeps ≡ b ∷ r'.sleeps))

  round_sleeps :
      (fuel retries b : ℕ) (s : S) (r : Run S)
      → run_loop execute c (suc fuel) retries b s ≡ some r
      → Rounds fuel retries b s r
  unfolding run_loop
  round_sleeps fuel retries b s r e = elim (Option-cases (rest fuel retries b s)) [
    | inl n ↦ elim (last n) [ inl p ↦ inl p | inr p ↦ inr (inl p) ]
    | inr (r', q) ↦ elim (more r' q) [
      | inl p ↦ inl p
      | inr (inl p) ↦ inr (inl p)
      | inr (inr p) ↦ inr (inr (r', q, p))
    ]
  ]
    where
      last : rest fuel retries b s ≡ none → (r.sleeps ≡ []) ⊎ (r.sleeps ≡ b ∷ [])
      last n = ground arith

      more :
          (r' : Run S)
          → rest fuel retries b s ≡ some r'
          → (r.sleeps ≡ []) ⊎ (r.sleeps ≡ b ∷ []) ⊎ (r.sleeps ≡ b ∷ r'.sleeps)
      more r' q = ground arith

  module _ (pos : 1 ≤ c.backoff_multiplier) where
    abbrev planned : ℕ → ℕ → List ℕ
    planned k n = schedule c.backoff c.backoff_multiplier c.max_wait_duration k n

    abbrev wait : ℕ → ℕ
    wait k = delay c.backoff c.backoff_multiplier c.max_wait_duration k

    loop-schedule :
        (fuel retries k : ℕ) (s : S) (r : Run S)
        → run_loop execute c fuel retries (wait k) s ≡ some r
        → r.sleeps ≡ planned k (length r.sleeps)
    unfolding schedule
    loop-schedule zero retries k s r e = absurd (unfold run_loop in (cc e))
    loop-schedule (suc fuel) retries k s r e = elim (round_sleeps fuel retries (wait k) s r e) [
      | inl p ↦ rw p
      | inr (inl p) ↦ rw p
      | inr (inr (r', q, p)) ↦ rw p (
          ap (λ t. wait k ∷ t)
            (loop-schedule fuel (retries + 1) (suc k) (execute s).1 r'
              (rw (← delay-suc c.backoff c.backoff_multiplier c.max_wait_duration k pos) q)))
    ]

-- A loop whose first delay is within the cap, and whose factor is not zero, sleeps for the capped
-- exponential delays, from the first on and with none left out.
pub run-schedule :
    {S : Type 0} (execute : S → Option CommandExecutionError × S) (config : RetryConfig) (s : S)
    (r : Run S)
    → 1 ≤ config.backoff_multiplier
    → config.backoff ≤ config.max_wait_duration
    → run_executable_with_retry execute config s ≡ some r
    → r.sleeps
      ≡ schedule config.backoff config.backoff_multiplier config.max_wait_duration 0
          (length r.sleeps)
unfolding run_executable_with_retry
run-schedule execute config s r pos capped e =
    loop-schedule execute config pos (config.max_retries + 1) 0 0 s r (rw first e)
  where
    first :
        delay config.backoff config.backoff_multiplier config.max_wait_duration 0 ≡ config.backoff
    first = rw (pow-zero, mul-one) (omega arith)
