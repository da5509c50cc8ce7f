-- ===== src/Tasks/Outbox/Claims.antt =====
-- The invariant of the outbox: what is queued or in flight is claimed, and claimed once.
use mathlib.Core.List.{append_assoc}
use cqwu_achievement_system.Prelude.{
  ℕ, ◌+◌, ◌<◌, ◌≤◌, ◌≡◌, ◌≢◌, refl, sym, ap, ◌∙◌, Bool, true, false, ◌||◌, none, some, List, [],
  ◌∷◌, ◌++◌, arith, length, length-append, All, All-append, Bool-cases, inl, inr, ==→eq,
}
use cqwu_achievement_system.Effect.{ok}
use cqwu_achievement_system.Tasks.{
  OutboxStatus, running, QueuedTask, TaskCommand, in_memory, from_outbox,
}
use cqwu_achievement_system.Tasks.Outbox.Table.{
  Row, Outbox, Fault, works, refused, reply_lost, statement, outcome_of, next_fault, later_faults,
  member, update_rows,
}
use cqwu_achievement_system.Tasks.Outbox.Lookup.{
  status_of, status_of-append, Distinct, Distinct-append, below-update, Distinct-update,
  status_of-update_running,
}
use cqwu_achievement_system.Tasks.Outbox.Selection.{nodup}

-- The rows that some tasks come from.
abbrev pub outbox_ids : List QueuedTask → List ℕ
outbox_ids [] = []
outbox_ids (t ∷ ts) = elim t.outbox_id [ none ↦ outbox_ids ts | some i ↦ i ∷ outbox_ids ts ]

-- What the workers hold or will take, in the order of the queue.
abbrev pub claims : List QueuedTask → List QueuedTask → List ℕ
claims in_flight queue = outbox_ids (in_flight ++ queue)

-- Over the parts of the state that the methods change.
pub record Claimed {P : Type 0} (rows : List (Row P)) (next_id capacity : ℕ)
    (in_flight queue : List QueuedTask) : Type 0 where
  pub below : All (λ r. r.id < next_id) rows
  pub distinct : Distinct rows
  pub room : length queue ≤ capacity
  pub held : (i : ℕ) → member i (claims in_flight queue) ≡ true → status_of i rows ≡ some running
  pub once : nodup (claims in_flight queue) ≡ true

-- Ids are distinct and below the next, the queue is within its capacity, every task that came from
-- the outbox and is queued or in flight has a row, which is Running, and no two such tasks share a
-- row.
abbrev pub IsClaimed : {P : Type 0} → Outbox P → Type 0
IsClaimed w = Claimed w.rows w.next_id w.capacity w.in_flight w.queue

module _ {P : Type 0} where
  -- A statement keeps what its effect keeps.
  pub statement_keeps :
      {A : Type 0} (I : Outbox P → Type 0) (run : Outbox P → A × Outbox P) (w : Outbox P)
      → I (record w { faults = later_faults w.faults })
      → I (run (record w { faults = later_faults w.faults })).1
      → I (statement run w).1
  unfolding statement
  statement_keeps {A} I run w h k = cases (next_fault w.faults)
    where
      cases : (f : Fault) → I (outcome_of run f (record w { faults = later_faults w.faults })).1
      cases works = k
      cases refused = h
      cases reply_lost = k

  -- A statement that returns took effect.
  pub statement_ok :
      {A : Type 0} (run : Outbox P → A × Outbox P) (w w' : Outbox P) (a : A)
      → statement run w ≡ (ok a, w')
      → run (record w { faults = later_faults w.faults }) ≡ (a, w')
  unfolding statement
  statement_ok {A} run w w' a h = cases (next_fault w.faults) h
    where
      cases :
          (f : Fault)
          → outcome_of run f (record w { faults = later_faults w.faults }) ≡ (ok a, w')
          → run (record w { faults = later_faults w.faults }) ≡ (a, w')
      cases works e = ground (arith)
      cases refused e = cc
      cases reply_lost e = cc

pub member-append : (i : ℕ) (xs ys : List ℕ) → member i (xs ++ ys) ≡ (member i xs || member i ys)
member-append i [] ys = refl
member-append i (x ∷ xs) ys = ground (arith, member-append i xs ys)

nodup-snoc :
    (i : ℕ) (xs : List ℕ) → member i xs ≡ false → nodup xs ≡ true → nodup (xs ++ i ∷ []) ≡ true
nodup-snoc i [] m n = refl
nodup-snoc i (x ∷ xs) m n = ground (arith, nodup-snoc i xs, member-append x xs (i ∷ []), ==→eq i x)

outbox_ids-snoc :
    (ts : List QueuedTask) (i : ℕ) (c : TaskCommand)
    → outbox_ids (ts ++ from_outbox i c ∷ []) ≡ outbox_ids ts ++ i ∷ []
outbox_ids-snoc [] i c = refl
outbox_ids-snoc (t ∷ ts) i c = ground (arith, outbox_ids-snoc ts i c)

pub claims-snoc :
    (ts queue : List QueuedTask) (i : ℕ) (c : TaskCommand)
    → claims ts (queue ++ from_outbox i c ∷ []) ≡ claims ts queue ++ i ∷ []
claims-snoc ts queue i c =
    ap outbox_ids (sym (append_assoc ts queue (from_outbox i c ∷ [])))
    ∙ outbox_ids-snoc (ts ++ queue) i c

claims-in_memory :
    (ts queue : List QueuedTask) (c : TaskCommand)
    → claims ts (queue ++ in_memory c ∷ []) ≡ claims ts queue
claims-in_memory ts queue c =
    ap outbox_ids (sym (append_assoc ts queue (in_memory c ∷ []))) ∙ go (ts ++ queue)
  where
    go : (us : List QueuedTask) → outbox_ids (us ++ in_memory c ∷ []) ≡ outbox_ids us
    go [] = refl
    go (u ∷ us) = ground (arith, go us)

module _ {P : Type 0} {rows : List (Row P)} {n cap : ℕ} {flight queue : List QueuedTask}
    (v : Claimed rows n cap flight queue) where
  -- An update that keeps the ids and keeps every claimed row running.
  pub update-Claimed :
      (test : Row P → Bool) (f : Row P → Row P)
      → ((r : Row P) → (f r).id ≡ r.id)
      → ((r : Row P)
          → member r.id (claims flight queue) ≡ true
          → r.status ≡ running
          → test r ≡ true
          → (f r).status ≡ running)
      → Claimed (update_rows test f rows) n cap flight queue
  update-Claimed test f ids keeps = record {
    below = below-update n test f rows ids v.below;
    distinct = Distinct-update test f rows ids v.distinct;
    room = v.room;
    held = λ i m. status_of-update_running i test f rows ids (λ r e. keeps r (rw e m)) (v.held i m);
    once = v.once;
  }

  -- A running row that is not claimed may be sent while there is a slot.
  pub send-Claimed :
      (i : ℕ) (c : TaskCommand)
      → status_of i rows ≡ some running
      → member i (claims flight queue) ≡ false
      → length queue < cap
      → Claimed rows n cap flight (queue ++ from_outbox i c ∷ [])
  send-Claimed i c taken free slot = record {
    below = v.below;
    distinct = v.distinct;
    room = omega (arith, length-append queue (from_outbox i c ∷ []));
    held = λ j.
        rw (claims-snoc flight queue i c, member-append j (claims flight queue) (i ∷ []))
          (λ m. ground (arith, v.held j, ==→eq i j));
    once = rw (claims-snoc flight queue i c) (nodup-snoc i (claims flight queue) free v.once);
  }

  pub in_memory-Claimed :
      (c : TaskCommand) → length queue < cap → Claimed rows n cap flight (queue ++ in_memory c ∷ [])
  in_memory-Claimed c slot = record {
    below = v.below;
    distinct = v.distinct;
    room = omega (arith, length-append queue (in_memory c ∷ []));
    held = λ j. rw (claims-in_memory flight queue c) (v.held j);
    once = rw (claims-in_memory flight queue c) v.once;
  }

  pub insert-Claimed : (r : Row P) → r.id ≡ n → Claimed (rows ++ r ∷ []) (n + 1) cap flight queue
  insert-Claimed r e = record {
    below =
        All-append (λ q. q.id < n + 1) rows (r ∷ []) (All-weaken rows v.below) (omega arith, tt);
    distinct = Distinct-append rows r (rw e v.below) v.distinct;
    room = v.room;
    held = λ i m. status_of-append i rows r (v.held i m);
    once = v.once;
  }
    where
      All-weaken : (qs : List (Row P)) → All (λ q. q.id < n) qs → All (λ q. q.id < n + 1) qs
      All-weaken [] h = tt
      All-weaken (q ∷ qs) h = (omega (arith, h.0), All-weaken qs h.1)

  -- A row that is not Running is not claimed.
  pub unclaimed :
      (i : ℕ) (s : OutboxStatus)
      → status_of i rows ≡ some s
      → s ≢ running
      → member i (claims flight queue) ≡ false
  unclaimed i s e ne = elim (Bool-cases (member i (claims flight queue))) [
    | inl m ↦ absurd (ne (cc (v.held i m)))
    | inr m ↦ m
  ]
