-- ===== src/Tasks/DeleteObjects/Delivery.antt =====
-- The command under the retry loop: what a success says of each key.
use cqwu_achievement_system.Prelude.{
  ◌≡◌, refl, sym, subst, ◌∙◌, ◌⊎◌, inl, inr, arith, String, Option, none, some, List, All,
}
use cqwu_achievement_system.Storage.{Client}
use cqwu_achievement_system.Storage.Report.{Accounts}
use cqwu_achievement_system.Tasks.{RetryConfig, CommandExecutionError}
use cqwu_achievement_system.Tasks.Runner.{Run, succeeded, run_executable_with_retry}
use cqwu_achievement_system.Tasks.Runner.Attempts.{
  Fits, Explained, run-Explained, outcome, state_at, verdict_of,
}
use cqwu_achievement_system.Tasks.DeleteObjects.{DeleteArchiveObjectsCommand, new, execute}
use cqwu_achievement_system.Tasks.DeleteObjects.Coverage.{
  In, All-In, state_at-Held, state_at-suc, execute-Settled, any_failure, RefusedBefore,
}

succeeded_only : (o : Option CommandExecutionError) → verdict_of o ≡ succeeded → o ≡ none
succeeded_only none e = refl
succeeded_only (some x) e = cc

module _ {S : Type 0} (client : Client S) (Settled : S → String → Type 0)
    (accounts : Accounts client any_failure Settled) (config : RetryConfig)
    (fits : Fits config config.backoff) (keys : List String) (s : S) where
  -- The key is settled, or one of the attempts had it refused.
  abbrev pub Outcome : Run (DeleteArchiveObjectsCommand S) → String → Type 0
  Outcome r k =
      Settled r.state.storage k ⊎ RefusedBefore client Settled accounts k r.attempts (new keys s)

  key-Outcome :
      (r : Run (DeleteArchiveObjectsCommand S))
      → Explained (execute client) config 0 (new keys s) r
      → r.verdict ≡ succeeded
      → (k : String) → In k keys
      → Outcome r k
  unfolding new
  key-Outcome r x v k m =
      elim (state_at-Held client Settled accounts k x.last (new keys s) x.earlier (inr m)) [
        | inr (j, l, f) ↦ inr (j, omega (arith, x.counted), f)
        | inl h ↦
            elim (execute-Settled client Settled accounts k
              (state_at (execute client) x.last (new keys s)) h
              (unfold outcome in succeeded_only _ (sym x.answer ∙ v))) [
                | inl g ↦ inl (
                    subst (λ (t : DeleteArchiveObjectsCommand S). Settled t.storage k)
                      (sym (x.left ∙ state_at-suc client Settled accounts x.last (new keys s))) g)
                | inr f ↦ inr (x.last, omega (arith, x.counted), f)
              ]
      ]

  -- Where each request that the storage service answers deletes a key or names it among its errors, a
  -- deleted key stays deleted, and no delay overflows: when the retry loop reports that the command
  -- succeeded, every key of the command is settled, or one of the attempts got a report with a failure
  -- of the key whose code is not retried, after which the key was given up.
  pub success-settles :
      (r : Run (DeleteArchiveObjectsCommand S))
      → run_executable_with_retry (execute client) config (new keys s) ≡ some r
      → r.verdict ≡ succeeded
      → All (Outcome r) keys
  success-settles r e v =
      let (r', e', x) = run-Explained (execute client) config (new keys s) fits in
      All-In (Outcome r) keys (
        key-Outcome r
          (subst (λ t. Explained (execute client) config 0 (new keys s) t) (same (sym e' ∙ e)) x) v)
    where
      same : {a b : Run (DeleteArchiveObjectsCommand S)} → some a ≡ some b → a ≡ b
      same p = cc
