-- ===== src/Tasks/Outbox/Submit.antt =====
-- A command that was submitted is in the outbox.
use cqwu_achievement_system.Prelude.{
  ℕ, ◌<◌, ◌≡◌, refl, sym, ap, subst, ◌∙◌, ◌⊎◌, inl, inr, Bool, true, ◌&&◌, String, Option, none,
  some, List, [], ◌∷◌, ◌++◌, arith, if◌then◌else◌, length, All, Option-cases, ==→eq, eq→==,
}
use cqwu_achievement_system.Effect.{Result, ok, err, lift, continue, ok-pair, ◌>>=◌}
use cqwu_achievement_system.Tasks.{
  pending, running, QueuedTask, TaskCommand, from_outbox, command_type,
}
use cqwu_achievement_system.Tasks.Outbox.Table.{
  Row, Outbox, Codec, TaskError, Fault, works, refused, reply_lost, statement, next_fault,
  update_rows, select, has_id, is_status,
}
use cqwu_achievement_system.Tasks.Outbox.Dispatcher.{
  full, closed, try_reserve_slot, mark_running, count_dropped, on_marked, try_enqueue_outbox_task,
  insert_row, submit, or_raise,
}
use cqwu_achievement_system.Tasks.Outbox.Claims.{statement_ok}

module _ {P : Type 0} where
  -- The row waits to be pulled, or it is Running, and then its task may be in the queue.
  abbrev pub Placed : ℕ → TaskCommand → List QueuedTask → Row P → List QueuedTask → Type 0
  Placed i c queue r queue' =
      ((r.status ≡ pending) × (queue' ≡ queue))
      ⊎ ((r.status ≡ running) × ((queue' ≡ queue ++ from_outbox i c ∷ []) ⊎ (queue' ≡ queue)))

  update_last :
      (i : ℕ) (test : Row P → Bool) (f : Row P → Row P) (rows : List (Row P)) (r : Row P)
      → All (λ q. q.id < i) rows
      → ((q : Row P) → test q ≡ true → q.id ≡ i)
      → update_rows test f (rows ++ r ∷ []) ≡ rows ++ (if test r then f r else r) ∷ []
  unfolding update_rows
  update_last i test f [] r h only = refl
  update_last i test f (q ∷ rows) r h only =
      ground (arith, update_last i test f rows r h.1 only, only q)

  select_last :
      (i : ℕ) (test : Row P → Bool) (rows : List (Row P)) (r : Row P)
      → All (λ q. q.id < i) rows
      → ((q : Row P) → test q ≡ true → q.id ≡ i)
      → select test (rows ++ r ∷ []) ≡ (if test r then r ∷ [] else [])
  unfolding select
  select_last i test [] r h only = refl
  select_last i test (q ∷ rows) r h only =
      ground (arith, select_last i test rows r h.1 only, only q)

  -- The immediate enqueue of the last row, which is pending.
  abbrev LastPlaced : ℕ → TaskCommand → List (Row P) → P → List QueuedTask → Outbox P → Type 0
  LastPlaced i c rows payload queue u =
      (r : Row P) × (u.rows ≡ rows ++ r ∷ [])
      × (r.id ≡ i)
      × (r.payload ≡ payload)
      × Placed i c queue r u.queue

  enqueue_last :
      (i : ℕ) (c : TaskCommand) (rows : List (Row P)) (r : Row P) (w : Outbox P)
      → All (λ q. q.id < i) rows
      → w.rows ≡ rows ++ r ∷ []
      → r.id ≡ i
      → r.status ≡ pending
      → LastPlaced i c rows r.payload w.queue (try_enqueue_outbox_task i c w)
  unfolding try_enqueue_outbox_task mark_running on_marked statement
  enqueue_last i c rows r w h e at_i waits = elim (Option-cases (try_reserve_slot w)) [
    | inl s ↦ rw (s, try_enqueue_outbox_task) (marked (next_fault w.faults) refl)
    | inr (full, s) ↦
        rw (s, try_enqueue_outbox_task)
          (unfold count_dropped in (r, e, at_i, refl, inl (waits, refl)))
    | inr (closed, s) ↦
        rw (s, try_enqueue_outbox_task)
          (unfold count_dropped in (r, e, at_i, refl, inl (waits, refl)))
  ]
    where
      test : Row P → Bool
      test q = has_id i q && is_status q.status pending

      only : (q : Row P) → test q ≡ true → q.id ≡ i
      only q t = ground (arith, ==→eq q.id i)

      tested : test r ≡ true
      tested = ground (arith, eq→== r.id i at_i)

      r' : Row P
      r' = record r { status = running; updated_at = w.now }

      moved :
          update_rows test (λ (q : Row P). record q { status = running; updated_at = w.now }) w.rows
          ≡ rows ++ r' ∷ []
      moved = ground (
        arith,
        update_last i test (λ (q : Row P). record q { status = running; updated_at = w.now }) rows r
            h only,
        tested,
      )

      count : length (select test w.rows) ≡ 1
      count = ground (arith, select_last i test rows r h only, tested)

      marked :
          (f : Fault)
          → next_fault w.faults ≡ f
          → LastPlaced i c rows r.payload w.queue (on_marked i c (mark_running i w))
      marked works k = rw (k, next_fault) (rw count (r', moved, at_i, refl, inr (refl, inl refl)))
      marked refused k = rw (k, next_fault) (r, e, at_i, refl, inl (waits, refl))
      marked reply_lost k = rw (k, next_fault) (r', moved, at_i, refl, inr (refl, inr refl))

  -- The row that an insertion appends.
  insert_appends :
      (kind : String) (payload : P) (w u : Outbox P) (i : ℕ)
      → insert_row kind payload w ≡ (ok i, u)
      → (r : Row P) × (u.rows ≡ w.rows ++ r ∷ [])
        × (r.id ≡ w.next_id)
        × (r.payload ≡ payload)
        × (r.status ≡ pending)
        × (u.queue ≡ w.queue)
        × (i ≡ w.next_id)
  unfolding insert_row
  insert_appends kind payload w u i h =
      let e = statement_ok _ w u i h in
      (
        _,
        sym (ap (λ (q : ℕ × Outbox P). q.1.rows) e),
        refl,
        refl,
        refl,
        sym (ap (λ (q : ℕ × Outbox P). q.1.queue) e),
        sym (ap (λ (q : ℕ × Outbox P). q.0) e),
      )

module _ {P : Type 0} (codec : Codec P) where
  -- A submission that returns has added one row to the outbox, with the next id and the encoded command,
  -- and touched no other: the row is Pending and the queue as it was, or it is Running and the queue
  -- is as it was or has the task at its end.
  pub submit-Placed :
      (c : TaskCommand) (w w' : Outbox P)
      → All (λ q. q.id < w.next_id) w.rows
      → submit codec c w ≡ (ok tt, w')
      → (r : Row P) × (w'.rows ≡ w.rows ++ r ∷ [])
        × (r.id ≡ w.next_id)
        × (codec.to_value c ≡ some r.payload)
        × Placed w.next_id c w.queue r w'.queue
  unfolding submit
  submit-Placed c w w' below h = encoded (codec.to_value c) refl h
    where
      Goal : Option P → Type 0
      Goal o =
          (r : Row P) × (w'.rows ≡ w.rows ++ r ∷ [])
          × (r.id ≡ w.next_id)
          × (o ≡ some r.payload)
          × Placed w.next_id c w.queue r w'.queue

      inserted :
          (payload : P) (q : Result TaskError ℕ × Outbox P)
          → insert_row (command_type c) payload w ≡ q
          → continue
              (λ (id : ℕ) (u : Outbox P).
                let r : Result TaskError (Unit {0}) = ok tt in (r, try_enqueue_outbox_task id c u))
              q
            ≡ (ok tt, w')
          → Goal (some payload)
      inserted payload (err x, u) e k = absurd (cc k)
      inserted payload (ok i, u) e k =
          let (r, rows, at_i, same, waits, queue, next) =
            insert_appends (command_type c) payload w u i e in
          let ended = (ap (λ n. try_enqueue_outbox_task n c u) (sym next)) ∙ (ok-pair k).1 in
          let placed = enqueue_last w.next_id c w.rows r u below rows at_i waits in
          let (r', rows', at', same', where_at) =
            subst (λ t. LastPlaced w.next_id c w.rows payload w.queue t) ended
              (subst
                (λ q.
                  LastPlaced w.next_id c w.rows payload q (try_enqueue_outbox_task w.next_id c u))
                queue
                (subst
                  (λ (p : P).
                    LastPlaced w.next_id c w.rows p u.queue (try_enqueue_outbox_task w.next_id c u))
                  same placed)) in
          (r', rows', at', ap some (sym same'), where_at)

      encoded :
          (o : Option P)
          → codec.to_value c ≡ o
          → (lift (or_raise o TaskError.not_serializable) >>= λ payload.
                insert_row (command_type c) payload >>= λ id u.
                (ok tt, try_enqueue_outbox_task id c u))
              w
            ≡ (ok tt, w')
          → Goal o
      encoded none e k = absurd (cc k)
      encoded (some payload) e k = inserted payload (insert_row (command_type c) payload w) refl k
