-- ===== src/Tasks/Outbox/PumpKeeps.antt =====
-- The pump keeps the invariant, whichever of its statements fail.
use Prim.Native.String.{◌++◌ as text_append}
use cqwu_achievement_system.Prelude.{
  ℕ, zero, suc, ◌+◌, ◌≡◌, refl, sym, ap, ◌∙◌, subst, Bool, true, false, ◌&&◌, String, some, List,
  [], ◌∷◌, map, arith, ◌==◌, Option-cases, inl, inr, ==→eq,
}
use cqwu_achievement_system.Effect.{Result, ok, err, pure, continue, ◌>>=◌}
use cqwu_achievement_system.Tasks.{pending, running, TaskCommand, from_outbox}
use cqwu_achievement_system.Tasks.Outbox.Table.{
  Row, Outbox, Codec, Task, TaskError, member, select, has_id, is_status,
}
use cqwu_achievement_system.Tasks.Outbox.Dispatcher.{
  try_reserve_slot, send, mark_outbox_dead, requeue_outbox_rows, picked, ids_of, claim_due,
  enqueue_rows, pump_outbox_once,
}
use cqwu_achievement_system.Tasks.Outbox.Lookup.{
  status_of, status_of-update_pending, status_of-update_running,
}
use cqwu_achievement_system.Tasks.Outbox.Selection.{
  nodup, ids, selected_pending, selected_nodup, selected_test,
}
use cqwu_achievement_system.Tasks.Outbox.Claims.{
  IsClaimed, claims, statement_keeps, statement_ok, update-Claimed, unclaimed, member-append,
  claims-snoc,
}
use cqwu_achievement_system.Tasks.Outbox.Keeps.{send-Sendable, slot_free}

module _ {P : Type 0} where
  abbrev keys : List (ℕ × P) → List ℕ
  keys l = map (λ (p : ℕ × P). p.0) l

  -- The rows of a list are running and not claimed, and no two are the same.
  abbrev Ready : List (ℕ × P) → Outbox P → Type 0
  Ready l u =
      (nodup (keys l) ≡ true)
      × ((i : ℕ)
          → member i (keys l) ≡ true
          → (status_of i u.rows ≡ some running) × (member i (claims u.in_flight u.queue) ≡ false))

  keys-select :
      (rows : List (Row P)) → keys (map (λ (r : Row P). (r.id, r.payload)) rows) ≡ ids rows
  keys-select [] = refl
  keys-select (r ∷ rs) = ap (λ t. r.id ∷ t) (keys-select rs)

  claim_due-Claimed : (n : ℕ) (w : Outbox P) → IsClaimed w → IsClaimed (claim_due n w).1
  unfolding claim_due
  claim_due-Claimed n w v =
      statement_keeps IsClaimed _ w v (update-Claimed v _ _ (λ r. refl) (λ r _ _ _. refl))

  claim_due-Ready :
      (n : ℕ) (w w' : Outbox P) (l : List (ℕ × P))
      → IsClaimed w
      → claim_due n w ≡ (ok l, w')
      → Ready l w'
  unfolding claim_due
  claim_due-Ready n w w' l v h =
      let e = statement_ok _ w w' l h in
      subst (λ (q : List (ℕ × P) × Outbox P). Ready q.0 q.1) e
        (
          rw (keys-select (select test w.rows)) (selected_nodup test w.rows v.distinct),
          λ i. rw (keys-select (select test w.rows)) (λ m.
              let p = selected_pending test w.rows i (λ r t. only_pending r t) v.distinct m in
              (
                status_of-update_pending i test _ w.rows (λ r. refl)
                    (λ r a s. (
                      tested r s (
                          ap (λ j. member j chosen) a
                          ∙ selected_test test (λ j. member j chosen) w.rows i
                              (λ r t. only_chosen r t) m),
                      refl,
                    ))
                    p,
                unclaimed v i pending p (λ q. cc),
              )),
        )
    where
      chosen : List ℕ
      chosen = ids_of (picked n w.now w.rows)

      test : Row P → Bool
      test r = member r.id chosen && is_status r.status pending

      only_chosen : (r : Row P) → test r ≡ true → member r.id chosen ≡ true
      only_chosen r t = ground arith

      tested : (r : Row P) → r.status ≡ pending → member r.id chosen ≡ true → test r ≡ true
      tested r s m = ground arith

      only_pending : (r : Row P) → test r ≡ true → r.status ≡ pending
      only_pending r t = ground arith

  -- The first of the ready rows, and the others.
  Ready-head :
      (i : ℕ) (p : P) (l : List (ℕ × P)) (u : Outbox P)
      → Ready ((i, p) ∷ l) u
      → (status_of i u.rows ≡ some running) × (member i (claims u.in_flight u.queue) ≡ false)
  Ready-head i p l u h = h.1 i (ground arith)

  other :
      (i j : ℕ) (p : P) (l : List (ℕ × P)) (u : Outbox P)
      → Ready ((i, p) ∷ l) u
      → member j (keys l) ≡ true
      → (i == j) ≡ false
  other i j p l u h m = ground (arith, h.0, ==→eq i j)

  dead-Claimed :
      (i : ℕ) (p : P) (l : List (ℕ × P)) (message : String) (u : Outbox P)
      → IsClaimed u
      → Ready ((i, p) ∷ l) u
      → IsClaimed (mark_outbox_dead i message u).1 × Ready l (mark_outbox_dead i message u).1
  unfolding mark_outbox_dead
  dead-Claimed i p l message u v h =
      statement_keeps (λ w. IsClaimed w × Ready l w) _ u (v, tail_ready)
        (
          update-Claimed v (has_id i) _ (λ r. refl)
              (λ r m s t. absurd (ground (arith, (Ready-head i p l u h).1, ==→eq r.id i))),
          (
            tail_ready.0,
            λ j m. (
              status_of-update_running j (has_id i) _ u.rows (λ r. refl)
                  (λ r e s t. absurd (ground (arith, other i j p l u h m))) (tail_ready.1 j m).0,
              (tail_ready.1 j m).1,
            ),
          ),
        )
    where
      tail_ready : Ready l u
      tail_ready = (ground (arith, h.0), λ j m. h.1 j (ground arith))

  sent-Ready :
      (i : ℕ) (p : P) (l : List (ℕ × P)) (c : TaskCommand) (u : Outbox P)
      → Ready ((i, p) ∷ l) u
      → Ready l (send (from_outbox i c) u)
  sent-Ready i p l c u h = (
    ground (arith, h.0),
    λ j m. (
      (h.1 j (ground arith)).0,
      rw
          (
            claims-snoc u.in_flight u.queue i c,
            member-append j (claims u.in_flight u.queue) (i ∷ []),
          )
          (ground (arith, (h.1 j (ground arith)).1, other i j p l u h m)),
    ),
  )

module _ {P : Type 0} (codec : Codec P) where
  -- What the loop over the claimed rows leaves: the invariant, and no claim on what it hands back.
  abbrev Left : Result TaskError (ℕ × List ℕ) × Outbox P → Type 0
  Left p =
      IsClaimed p.1
      × ((sent : ℕ) (remaining : List ℕ)
          → p.0 ≡ ok (sent, remaining)
          → (i : ℕ) → member i remaining ≡ true
          → member i (claims p.1.in_flight p.1.queue) ≡ false)

  Left-bind :
      (p : Result TaskError (Unit {0}) × Outbox P) (f : Unit {0} → Task P (ℕ × List ℕ))
      → IsClaimed p.1
      → ((u : Outbox P) → u ≡ p.1 → Left (f tt u))
      → Left (continue f p)
  Left-bind (ok tt, u) f v h = h u refl
  Left-bind (err x, u) f v h = (v, λ s r e. cc)

  enqueue_rows-Left :
      (n : ℕ) (l : List (ℕ × P)) (w : Outbox P)
      → IsClaimed w
      → Ready l w
      → Left (enqueue_rows codec n l w)
  unfolding enqueue_rows
  enqueue_rows-Left n [] w v h = (v, λ s r e i m. cc)
  enqueue_rows-Left n ((i, p) ∷ l) w v h = elim (Option-cases (codec.from_value p)) [
    | inl e ↦
        rw (e, enqueue_rows)
          (Left-bind
            (mark_outbox_dead i (text_append "invalid outbox payload: " (codec.error_text p)) w)
            (λ _. enqueue_rows codec n l) (dead-Claimed i p l _ w v h).0
            (λ u q.
              enqueue_rows-Left n l u (subst IsClaimed (sym q) (dead-Claimed i p l _ w v h).0)
                (subst (Ready l) (sym q) (dead-Claimed i p l _ w v h).1)))
    | inr (c, e) ↦ elim (Option-cases (try_reserve_slot w)) [
      | inl s ↦
          rw (e, s, enqueue_rows)
            (enqueue_rows-Left (n + 1) l (send (from_outbox i c) w)
              (send-Sendable i c w v
                ((Ready-head i p l w h).0, (Ready-head i p l w h).1, slot_free w s))
              (sent-Ready i p l c w h))
      | inr (x, s) ↦ rw (e, s, enqueue_rows) (v, λ k r q j m. (h.1 j (all_left k r q j m)).1)
    ]
  ]
    where
      all_left :
          (k : ℕ) (r : List ℕ)
          → ◌≡◌ {A = Result TaskError (ℕ × List ℕ)} (ok (n, i ∷ keys l)) (ok (k, r))
          → (j : ℕ) → member j r ≡ true
          → member j (i ∷ keys l) ≡ true
      all_left k r q j m = ground arith

  requeue-Claimed :
      (remaining : List ℕ) (delay : ℕ) (u : Outbox P)
      → IsClaimed u
      → ((i : ℕ) → member i remaining ≡ true → member i (claims u.in_flight u.queue) ≡ false)
      → IsClaimed (requeue_outbox_rows remaining delay u).1
  unfolding requeue_outbox_rows
  requeue-Claimed [] delay u v h = v
  requeue-Claimed (i ∷ is) delay u v h =
      statement_keeps IsClaimed _ u v
        (update-Claimed v _ _ (λ r. refl) (λ r m s t. absurd (ground (arith, h r.id t))))

  -- One run of the pump keeps the invariant of the outbox, whichever of its statements fail, however
  -- many of the payloads do not decode and wherever the queue runs full.
  pub pump-Claimed : (n : ℕ) (w : Outbox P) → IsClaimed w → IsClaimed (pump_outbox_once codec n w).1
  unfolding pump_outbox_once
  pump-Claimed zero w v = v
  pump-Claimed (suc n) w v = claimed_rows (claim_due (suc n) w) refl
    where
      finish :
          (p : Result TaskError (ℕ × List ℕ) × Outbox P)
          → Left p
          → IsClaimed
              (continue
                (λ (q : ℕ × List ℕ). requeue_outbox_rows q.1 1 >>= λ (_ : Unit {0}). pure q.0)
                p).1
      finish (ok (k, r), u) h =
          done (requeue_outbox_rows r 1 u) (requeue-Claimed r 1 u h.0 (h.1 k r refl))
        where
          done :
              (q : Result TaskError (Unit {0}) × Outbox P)
              → IsClaimed q.1
              → IsClaimed (continue (λ (_ : Unit {0}). pure k) q).1
          done (ok tt, t) g = g
          done (err x, t) g = g
      finish (err x, u) h = h.0

      claimed_rows :
          (p : Result TaskError (List (ℕ × P)) × Outbox P)
          → claim_due (suc n) w ≡ p
          → IsClaimed
              (continue
                (λ (l : List (ℕ × P)). enqueue_rows codec 0 l >>= λ (q : ℕ × List ℕ).
                  requeue_outbox_rows q.1 1 >>= λ (_ : Unit {0}). pure q.0)
                p).1
      claimed_rows (ok l, u) e = finish (enqueue_rows codec 0 l u) (
          enqueue_rows-Left 0 l u
            (subst (λ (q : Result TaskError (List (ℕ × P)) × Outbox P). IsClaimed q.1) e
              (claim_due-Claimed (suc n) w v))
            (claim_due-Ready (suc n) w u l v e))
      claimed_rows (err x, u) e =
          subst (λ (q : Result TaskError (List (ℕ × P)) × Outbox P). IsClaimed q.1) e
            (claim_due-Claimed (suc n) w v)
