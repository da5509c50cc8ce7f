-- ===== src/Tasks/DeleteObjects/Coverage.antt =====
-- What a successful run of the command says of its keys.
use cqwu_achievement_system.Prelude.{
  ℕ, zero, suc, ◌<◌, ◌≡◌, refl, subst, ◌⊎◌, inl, inr, Bool, true, not, String, Option, none, List,
  [], ◌∷◌, keep, arith, All, Bool-cases,
}
use cqwu_achievement_system.Effect.{Result, ok, err}
use cqwu_achievement_system.Storage.{
  DeleteObjectFailure, DeleteObjectsReport, Client, StorageError, delete_objects_with_report,
}
use cqwu_achievement_system.Storage.Report.{Reported, Accounts, delete_objects_with_report_covers}
use cqwu_achievement_system.Storage.Persistence.{persists-delete_objects_with_report}
use cqwu_achievement_system.Tasks.{CommandExecutionError}
use cqwu_achievement_system.Tasks.Runner.Attempts.{is_retryable, outcome, state_at}
use cqwu_achievement_system.Tasks.DeleteObjects.{
  DeleteArchiveObjectsCommand, is_retryable_delete_object_failure, keys_of, on_report,
  settle_report, execute, is_empty,
}

-- Membership, as a sum of equations.
abbrev pub In : String → List String → Type 0
In k [] = ⊥
In k (x ∷ xs) = (x ≡ k) ⊎ In k xs

pub All-In :
    (P : String → Type 0) (keys : List String) → ((k : String) → In k keys → P k) → All P keys
All-In P [] h = tt
All-In P (x ∷ xs) h = (h x (inl refl), All-In P xs (λ k m. h k (inr m)))

In-All : (P : String → Type 0) (k : String) (keys : List String) → All P keys → In k keys → P k
In-All P k [] h m = absurd m
In-All P k (x ∷ xs) h (inl e) = subst P e h.0
In-All P k (x ∷ xs) h (inr m) = In-All P k xs h.1 m

In-keep :
    (test : DeleteObjectFailure → Bool) (k : String) (fs : List DeleteObjectFailure)
    → Reported test k fs
    → In k (keys_of (keep test fs))
In-keep test k [] h = absurd h
In-keep test k (f ∷ fs) (inl (e, t)) = rw t (inl e)
In-keep test k (f ∷ fs) (inr h) = elim (Bool-cases (test f)) [
  | inl t ↦ rw t (inr (In-keep test k fs h))
  | inr t ↦ rw t (In-keep test k fs h)
]

abbrev test : DeleteObjectFailure → Bool
test f = is_retryable_delete_object_failure f

abbrev pub any_failure : DeleteObjectFailure → Bool
any_failure f = true

-- The failures that the command gives up.
abbrev pub is_given_up : DeleteObjectFailure → Bool
is_given_up f = not (is_retryable_delete_object_failure f)

Reported-split :
    (k : String) (fs : List DeleteObjectFailure)
    → Reported any_failure k fs
    → Reported test k fs ⊎ Reported is_given_up k fs
Reported-split k [] h = absurd h
Reported-split k (f ∷ fs) (inl (e, t)) = elim (Bool-cases (test f)) [
  | inl r ↦ inl (inl (e, r))
  | inr r ↦ inr (inl (e, rw r refl))
]
Reported-split k (f ∷ fs) (inr h) = elim (Reported-split k fs h) [
  | inl r ↦ inl (inr r)
  | inr r ↦ inr (inr r)
]

module _ {S : Type 0} (client : Client S) (Settled : S → String → Type 0)
    (accounts : Accounts client any_failure Settled) where
  -- The deletion that the command is about to ask for gets a report, in which the key has a failure
  -- that is not retried.
  abbrev pub Refused : String → DeleteArchiveObjectsCommand S → Type 0
  Refused k self =
      (report : DeleteObjectsReport) × (s' : S) × (delete_objects_with_report client
          self.pending_keys self.storage
        ≡ (ok report, s'))
      × Reported is_given_up k report.failed

  -- The key is settled, or the command is still to delete it.
  abbrev pub Held : String → DeleteArchiveObjectsCommand S → Type 0
  Held k self = Settled self.storage k ⊎ In k self.pending_keys

  -- Of a command whose storage has been called: what the report leaves.
  settle_report-Held :
      (k : String) (self : DeleteArchiveObjectsCommand S) (rs ns : List DeleteObjectFailure)
      → Settled self.storage k ⊎ In k (keys_of rs)
      → is_retryable (settle_report self rs ns).0 ≡ true
      → Held k (settle_report self rs ns).1
  unfolding settle_report
  settle_report-Held k self [] [] h e = cc
  settle_report-Held k self [] (n ∷ ns) h e = cc
  settle_report-Held k self (r ∷ rs) [] h e = h
  settle_report-Held k self (r ∷ rs) (n ∷ ns) h e = h

  settle_report-Settled :
      (k : String) (self : DeleteArchiveObjectsCommand S) (rs ns : List DeleteObjectFailure)
      → Settled self.storage k ⊎ In k (keys_of rs)
      → (settle_report self rs ns).0 ≡ none
      → Settled (settle_report self rs ns).1.storage k
  unfolding settle_report
  settle_report-Settled k self [] [] (inl h) e = h
  settle_report-Settled k self [] [] (inr h) e = absurd h
  settle_report-Settled k self [] (n ∷ ns) h e = cc
  settle_report-Settled k self (r ∷ rs) [] h e = cc
  settle_report-Settled k self (r ∷ rs) (n ∷ ns) h e = cc

  kept :
      (k : String) (fs : List DeleteObjectFailure) {s : S}
      → Settled s k ⊎ Reported test k fs
      → Settled s k ⊎ In k (keys_of (keep test fs))
  kept k fs (inl s) = inl s
  kept k fs (inr r) = inr (In-keep test k fs r)

  on_report-Held :
      (k : String) (self : DeleteArchiveObjectsCommand S) (report : DeleteObjectsReport)
      → Settled self.storage k ⊎ Reported is_retryable_delete_object_failure k report.failed
      → is_retryable (on_report self (ok report)).0 ≡ true
      → Held k (on_report self (ok report)).1
  unfolding on_report
  on_report-Held k self report h =
      elim report.failed
          as (λ fs.
            Settled self.storage k ⊎ Reported test k fs
            → is_retryable (on_report self (ok (record report { failed = fs }))).0 ≡ true
            → Held k (on_report self (ok (record report { failed = fs }))).1) [
              | [] ↦ λ h e. cc
              | f ∷ fs ↦ λ h e. settle_report-Held k self _ _ (kept k (f ∷ fs) h) e
            ]
        h

  on_report-Settled :
      (k : String) (self : DeleteArchiveObjectsCommand S) (report : DeleteObjectsReport)
      → Settled self.storage k ⊎ Reported is_retryable_delete_object_failure k report.failed
      → (on_report self (ok report)).0 ≡ none
      → Settled (on_report self (ok report)).1.storage k
  unfolding on_report
  on_report-Settled k self report h =
      (elim report.failed
          as (λ fs.
            Settled self.storage k ⊎ Reported test k fs
            → (on_report self (ok (record report { failed = fs }))).0 ≡ none
            → Settled (on_report self (ok (record report { failed = fs }))).1.storage k) [
              | [] ↦ λ h e. at_end h
              | f ∷ fs ↦ λ h e. settle_report-Settled k self _ _ (kept k (f ∷ fs) h) e
            ])
        h
    where
      at_end : Settled self.storage k ⊎ ⊥ → Settled self.storage k
      at_end (inl s) = s
      at_end (inr r) = absurd r

  -- After the request: what a command that held the key is left with.
  request_accounts :
      (k : String) (self : DeleteArchiveObjectsCommand S) (report : DeleteObjectsReport) (s' : S)
      → delete_objects_with_report client self.pending_keys self.storage ≡ (ok report, s')
      → Held k self
      → (Settled s' k ⊎ Reported test k report.failed) ⊎ Refused k self
  request_accounts k self report s' e (inl h) = inl (
      inl (
        subst (λ (p : Result StorageError DeleteObjectsReport × S). Settled p.1 k) e
          (persists-delete_objects_with_report client any_failure Settled accounts self.pending_keys
            self.storage k h)))
  request_accounts k self report s' e (inr m) =
      elim (In-All (λ j. Settled s' j ⊎ Reported any_failure j report.failed) k self.pending_keys
        (delete_objects_with_report_covers client any_failure Settled accounts self.pending_keys
          self.storage s' report e)
        m) [
          | inl h ↦ inl (inl h)
          | inr f ↦ elim (Reported-split k report.failed f) [
            | inl r ↦ inl (inr r)
            | inr r ↦ inr (report, s', e, r)
          ]
        ]

  nothing_pending :
      (k : String) (keys : List String) {s : S}
      → is_empty keys ≡ true
      → Settled s k ⊎ In k keys
      → Settled s k
  nothing_pending k [] e (inl h) = h
  nothing_pending k [] e (inr m) = absurd m
  nothing_pending k (x ∷ xs) e h = cc

  module _ (k : String) (self : DeleteArchiveObjectsCommand S) (held : Held k self) where
    abbrev answered :
        Result StorageError DeleteObjectsReport × S
        → Option CommandExecutionError × DeleteArchiveObjectsCommand S
    answered (r, s') = on_report (record self { storage = s' }) r

    answered-Held :
        (p : Result StorageError DeleteObjectsReport × S)
        → delete_objects_with_report client self.pending_keys self.storage ≡ p
        → is_retryable (answered p).0 ≡ true
        → Held k (answered p).1 ⊎ Refused k self
    answered-Held (ok report, s') e r = elim (request_accounts k self report s' e held) [
      | inl h ↦ inl (on_report-Held k (record self { storage = s' }) report h r)
      | inr x ↦ inr x
    ]
    answered-Held (err x, s') e r = inl (unfold on_report in (kept_back held))
      where
        kept_back : Held k self → Settled s' k ⊎ In k self.pending_keys
        kept_back (inl h) = inl (
            subst (λ (p : Result StorageError DeleteObjectsReport × S). Settled p.1 k) e
              (persists-delete_objects_with_report client any_failure Settled accounts
                self.pending_keys self.storage k h))
        kept_back (inr m) = inr m

    answered-Settled :
        (p : Result StorageError DeleteObjectsReport × S)
        → delete_objects_with_report client self.pending_keys self.storage ≡ p
        → (answered p).0 ≡ none
        → Settled (answered p).1.storage k ⊎ Refused k self
    answered-Settled (ok report, s') e r = elim (request_accounts k self report s' e held) [
      | inl h ↦ inl (on_report-Settled k (record self { storage = s' }) report h r)
      | inr x ↦ inr x
    ]
    answered-Settled (err x, s') e r = unfold on_report in absurd (cc r)

    execute-Held :
        is_retryable (execute client self).0 ≡ true
        → Held k (execute client self).1 ⊎ Refused k self
    unfolding execute
    execute-Held = elim (Bool-cases (is_empty self.pending_keys)) [
      | inl e ↦ rw (e, execute) (λ r. cc)
      | inr e ↦ rw (e, execute) (answered-Held _ refl)
    ]

    pub execute-Settled :
        (execute client self).0 ≡ none → Settled (execute client self).1.storage k ⊎ Refused k self
    unfolding execute
    execute-Settled = elim (Bool-cases (is_empty self.pending_keys)) [
      | inl e ↦ rw (e, execute) (λ r. inl (nothing_pending k self.pending_keys e held))
      | inr e ↦ rw (e, execute) (answered-Settled _ refl)
    ]

  -- One of the first attempts had the key refused.
  abbrev pub RefusedBefore : String → ℕ → DeleteArchiveObjectsCommand S → Type 0
  RefusedBefore k n self = (j : ℕ) × (j < n) × Refused k (state_at (execute client) j self)

  pub state_at-Held :
      (k : String) (n : ℕ) (self : DeleteArchiveObjectsCommand S)
      → ((j : ℕ) → j < n → is_retryable (outcome (execute client) j self) ≡ true)
      → Held k self
      → Held k (state_at (execute client) n self) ⊎ RefusedBefore k n self
  unfolding state_at outcome
  state_at-Held k zero self retried h = inl h
  state_at-Held k (suc n) self retried h =
      elim (execute-Held k self h (retried zero (omega arith))) [
        | inr x ↦ inr (zero, omega arith, x)
        | inl g ↦
            elim (state_at-Held k n (execute client self).1 (λ j l. retried (suc j) (omega arith))
              g) [ inl m ↦ inl m | inr (j, l, x) ↦ inr (suc j, omega arith, x) ]
      ]

  pub state_at-suc :
      (n : ℕ) (self : DeleteArchiveObjectsCommand S)
      → state_at (execute client) (suc n) self
        ≡ (execute client (state_at (execute client) n self)).1
  unfolding state_at
  state_at-suc zero self = refl
  state_at-suc (suc n) self = state_at-suc n (execute client self).1
