-- ===== src/Tasks/Outbox/Keeps.antt =====
-- Every method of the dispatcher keeps the invariant, whichever of its statements fail.
use cqwu_achievement_system.Prelude.{
  ℕ, ◌<◌, ◌≡◌, refl, ap, subst, false, String, Option, none, some, arith, ◌==◌, length, Bool-cases,
  Option-cases, inl, inr, ==→eq,
}
use cqwu_achievement_system.Effect.{Result, ok, err, lift, continue, ◌>>=◌}
use cqwu_achievement_system.Tasks.{pending, running, TaskCommand, from_outbox, command_type}
use cqwu_achievement_system.Tasks.Outbox.Table.{Outbox, Codec, TaskError, member}
use cqwu_achievement_system.Tasks.Outbox.Dispatcher.{
  QueueReserveError, full, closed, try_reserve_slot, send, mark_running, count_dropped, on_marked,
  try_enqueue_outbox_task, insert_row, submit, queue_in_memory, or_raise,
}
use cqwu_achievement_system.Tasks.Outbox.Lookup.{status_of, status_of-update_pending}
use cqwu_achievement_system.Tasks.Outbox.Selection.{one_pending}
use cqwu_achievement_system.Tasks.Outbox.Claims.{
  IsClaimed, claims, statement_keeps, statement_ok, update-Claimed, send-Claimed, in_memory-Claimed,
  insert-Claimed, unclaimed,
}

module _ {P : Type 0} where
  pub slot_free : (w : Outbox P) → try_reserve_slot w ≡ none → length w.queue < w.capacity
  unfolding try_reserve_slot
  slot_free w h = ground arith

  mark_running-Claimed : (i : ℕ) (w : Outbox P) → IsClaimed w → IsClaimed (mark_running i w).1
  unfolding mark_running
  mark_running-Claimed i w v =
      statement_keeps IsClaimed _ w v (update-Claimed v _ _ (λ r. refl) (λ r _ _ _. refl))

  -- The row is running and not claimed, and there is a slot.
  abbrev pub Sendable : ℕ → Outbox P → Type 0
  Sendable i u =
      (status_of i u.rows ≡ some running)
      × (member i (claims u.in_flight u.queue) ≡ false)
      × (length u.queue < u.capacity)

  mark_running_one :
      (i : ℕ) (w w' : Outbox P)
      → IsClaimed w
      → length w.queue < w.capacity
      → mark_running i w ≡ (ok 1, w')
      → Sendable i w'
  unfolding mark_running
  mark_running_one i w w' v slot h =
      let e = statement_ok _ w w' 1 h in
      let p = one_pending i w.rows (ap (λ (q : ℕ × Outbox P). q.0) e) v.distinct in
      subst (Sendable i) (ap (λ (q : ℕ × Outbox P). q.1) e) (
        status_of-update_pending i _ _ w.rows (λ r. refl) (λ r e s. (ground arith, refl)) p,
        unclaimed v i pending p (λ q. cc),
        slot,
      )

  pub send-Sendable :
      (i : ℕ) (c : TaskCommand) (w : Outbox P)
      → IsClaimed w
      → Sendable i w
      → IsClaimed (send (from_outbox i c) w)
  send-Sendable i c w v s = send-Claimed v i c s.0 s.1 s.2

  on_marked-Claimed :
      (i : ℕ) (c : TaskCommand) (p : Result TaskError ℕ × Outbox P)
      → IsClaimed p.1
      → (p.0 ≡ ok 1 → Sendable i p.1)
      → IsClaimed (on_marked i c p)
  unfolding on_marked
  on_marked-Claimed i c (ok n, u) v s = elim (Bool-cases (n == 1)) [
    | inl e ↦ rw e (send-Sendable i c u v (s (ap ok (==→eq n 1 e))))
    | inr e ↦ rw e v
  ]
  on_marked-Claimed i c (err x, u) v s = v

  pub try_enqueue-Claimed :
      (i : ℕ) (c : TaskCommand) (w : Outbox P)
      → IsClaimed w
      → IsClaimed (try_enqueue_outbox_task i c w)
  unfolding try_enqueue_outbox_task
  try_enqueue-Claimed i c w v = elim (Option-cases (try_reserve_slot w)) [
    | inl e ↦
        rw (e, try_enqueue_outbox_task)
          (on_marked-Claimed i c (mark_running i w) (mark_running-Claimed i w v) (λ p.
            mark_running_one i w (mark_running i w).1 v (slot_free w e)
              (λ j. (p j, (mark_running i w).1))))
    | inr (x, e) ↦ rw (e, try_enqueue_outbox_task) (dropped x)
  ]
    where
      dropped : (x : QueueReserveError) → IsClaimed (count_dropped x w)
      dropped full = unfold count_dropped in v
      dropped closed = unfold count_dropped in v

  pub queue_in_memory-Claimed :
      (c : TaskCommand) (w : Outbox P) → IsClaimed w → IsClaimed (queue_in_memory c w).1
  unfolding queue_in_memory
  queue_in_memory-Claimed c w v = elim (Option-cases (try_reserve_slot w)) [
    | inl e ↦ rw (e, queue_in_memory) (in_memory-Claimed v c (slot_free w e))
    | inr (full, e) ↦ rw (e, queue_in_memory) v
    | inr (closed, e) ↦ rw (e, queue_in_memory) v
  ]

  insert_row-Claimed :
      (kind : String) (payload : P) (w : Outbox P)
      → IsClaimed w
      → IsClaimed (insert_row kind payload w).1
  unfolding insert_row
  insert_row-Claimed kind payload w v = statement_keeps IsClaimed _ w v (insert-Claimed v _ refl)

module _ {P : Type 0} (codec : Codec P) where
  pub submit-Claimed :
      (c : TaskCommand) (w : Outbox P) → IsClaimed w → IsClaimed (submit codec c w).1
  unfolding submit
  submit-Claimed c w v = encoded (codec.to_value c)
    where
      after_insert :
          (p : Result TaskError ℕ × Outbox P)
          → IsClaimed p.1
          → IsClaimed
              (continue
                (λ (id : ℕ) (u : Outbox P).
                  let r : Result TaskError (Unit {0}) = ok tt in
                  (r, try_enqueue_outbox_task id c u))
                p).1
      after_insert (ok id, u) h = try_enqueue-Claimed id c u h
      after_insert (err x, u) h = h

      encoded :
          (o : Option P)
          → IsClaimed
              ((lift (or_raise o TaskError.not_serializable) >>= λ payload.
                  insert_row (command_type c) payload >>= λ id u.
                  (ok tt, try_enqueue_outbox_task id c u))
                w).1
      encoded none = v
      encoded (some payload) =
          after_insert (insert_row (command_type c) payload w)
            (insert_row-Claimed (command_type c) payload w v)
