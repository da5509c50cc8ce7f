-- ===== src/Tasks/Worker/Drains.antt =====
-- A command worker that is stopping ends, once each command in flight has completed.
use cqwu_achievement_system.Prelude.{
  ℕ, zero, suc, ◌+◌, max, Bool, true, false, not, ◌&&◌, Option, none, some, List, [], ◌∷◌, ltb,
  if◌then◌else◌, length, ◌≡◌, refl, sym, ap, subst, ◌∙◌, arith, ◌⊎◌, inl, inr,
}
use cqwu_achievement_system.Tasks.{QueuedTask}
use cqwu_achievement_system.Tasks.Worker.{
  Event, changed, received, completed, Worker, start, is_empty, on_completed, take_at, branch,
  break_if_done, round, rounds_after, rounds, add_command_worker_with_concurrency,
}
use cqwu_achievement_system.Tasks.Worker.Keeps.{take_at_lem}

-- The worker has ended exactly if it is stopping and has nothing in flight.
abbrev EndsWhenDone : Worker → Type 0
EndsWhenDone w = w.ended ≡ (w.stopping && is_empty w.in_flight)

some-inj : {A : Type 0} (a b : A) → some a ≡ some b → a ≡ b
some-inj a b h = ground arith

-- What is known of a round that a worker takes.
Taken : Option Worker → Worker → Type 0
Taken o w' =
    (u : Worker) × (o ≡ some u) × (w' ≡ record u { ended = u.stopping && is_empty u.in_flight })

break-Taken : (o : Option Worker) (w' : Worker) → break_if_done o ≡ some w' → Taken o w'
unfolding Taken
break-Taken none w' h = absurd (cc h)
break-Taken (some u) w' h = (u, refl, sym (some-inj _ w' h))

round-Taken :
    (bound : ℕ) (e : Event) (w w' : Worker)
    → round bound e w ≡ some w'
    → (w.ended ≡ false) × Taken (branch bound e w) w'
unfolding round
round-Taken bound e w w' h = by_ended w.ended refl h
  where
    by_ended :
        (b : Bool)
        → w.ended ≡ b
        → (if b then none else break_if_done (branch bound e w)) ≡ some w'
        → (w.ended ≡ false) × Taken (branch bound e w) w'
    by_ended true k h = absurd (cc h)
    by_ended false k h = (k, break-Taken (branch bound e w) w' h)

disabled :
    (b : Bool) (o : Option Worker) (u : Worker)
    → b ≡ true
    → (if not b then o else none) ≡ some u
    → ⊥
disabled true o u k h = cc h
disabled false o u k h = ground arith

disabled_and :
    (b c : Bool) (o : Option Worker) (u : Worker)
    → b ≡ true
    → (if not b && c then o else none) ≡ some u
    → ⊥
disabled_and true c o u k h = cc h
disabled_and false c o u k h = ground arith

-- A worker that is stopping only takes completions, and each takes one command out of flight.
stopping-branch :
    (bound : ℕ) (e : Event) (w u : Worker)
    → w.stopping ≡ true
    → branch bound e w ≡ some u
    → (u.stopping ≡ true) × (length w.in_flight ≡ suc (length u.in_flight))
unfolding branch
stopping-branch bound (changed signal) w u s h = absurd (disabled w.stopping _ u s h)
stopping-branch bound (received cmd) w u s h =
    absurd (disabled_and w.stopping (ltb (length w.in_flight) bound) _ u s h)
stopping-branch bound (completed n) w u s h = by_place (take_at n w.in_flight) refl h
  where
    by_place :
        (o : Option (QueuedTask × List QueuedTask))
        → take_at n w.in_flight ≡ o
        → on_completed o w ≡ some u
        → (u.stopping ≡ true) × (length w.in_flight ≡ suc (length u.in_flight))
    by_place none e h = absurd (cc h)
    by_place (some p) e h =
        let same = some-inj (record w { in_flight = p.1; finished = p.0 ∷ w.finished }) u h in
        (
          ap (λ (v : Worker). v.stopping) (sym same) ∙ s,
          (take_at_lem n w.in_flight p.1 p.0 e).0
              ∙ ap (λ (v : Worker). suc (length v.in_flight)) same,
        )

-- The worker stops, and it has ended exactly if nothing is in flight.
pub record Draining (w : Worker) : Type 0 where
  pub stops : w.stopping ≡ true
  pub ends : w.ended ≡ is_empty w.in_flight

round-Draining :
    (bound : ℕ) (e : Event) (w w' : Worker)
    → w.stopping ≡ true
    → round bound e w ≡ some w'
    → Draining w' × (length w.in_flight ≡ suc (length w'.in_flight))
unfolding Taken
round-Draining bound e w w' s h =
    let (alive, taken) = round-Taken bound e w w' h in
    let (u, b, same) = taken in
    let (k, l) = stopping-branch bound e w u s b in
    (
      subst Draining (sym same) (record { stops = k; ends = rw k refl }),
      l ∙ ap (λ (v : Worker). suc (length v.in_flight)) (sym same),
    )

-- The worker has ended, or a completion is possible.
abbrev pub Progress : ℕ → Worker → Type 0
Progress bound w = (w.ended ≡ true) ⊎ ((v : Worker) × (round bound (completed 0) w ≡ some v))

first_completes :
    (w : Worker) (b : Bool) (o : Option (QueuedTask × List QueuedTask))
    (p : QueuedTask × List QueuedTask)
    → b ≡ false
    → o ≡ some p
    → (v : Worker) × ((if b then none else break_if_done (on_completed o w)) ≡ some v)
first_completes w true o p h k = absurd (cc h)
first_completes w false none p h k = absurd (cc k)
first_completes w false (some q) p h k = (_, refl)

Draining-Progress : (bound : ℕ) (w : Worker) → Draining w → Progress bound w
unfolding round branch take_at
Draining-Progress bound w d = by_flight w.in_flight refl
  where
    by_flight : (ts : List QueuedTask) → w.in_flight ≡ ts → Progress bound w
    by_flight [] e = inl (d.ends ∙ ap (λ ts. is_empty ts) e)
    by_flight (t ∷ ts) e = inr (
        first_completes w w.ended (take_at zero w.in_flight) (t, ts)
          (d.ends ∙ ap (λ ts. is_empty ts) e) (ap (λ ts. take_at zero ts) e))

first_round :
    (bound : ℕ) (e : Event) (es : List Event) (w w' : Worker)
    → rounds bound (e ∷ es) w ≡ some w'
    → (u : Worker) × (round bound e w ≡ some u) × (rounds bound es u ≡ some w')
unfolding rounds
first_round bound e es w w' h = by_round (round bound e w) refl h
  where
    by_round :
        (o : Option Worker)
        → round bound e w ≡ o
        → rounds_after (rounds bound es) o ≡ some w'
        → (u : Worker) × (round bound e w ≡ some u) × (rounds bound es u ≡ some w')
    by_round none k h = absurd (cc h)
    by_round (some u) k h = (u, k, h)

rounds-Drains :
    (bound : ℕ) (es : List Event) (w w' : Worker)
    → Draining w
    → rounds bound es w ≡ some w'
    → (length es + length w'.in_flight ≡ length w.in_flight) × Draining w'
unfolding rounds
rounds-Drains bound [] w w' d h =
    subst (λ v. (0 + length v.in_flight ≡ length w.in_flight) × Draining v) (some-inj w w' h)
      (omega arith, d)
rounds-Drains bound (e ∷ es) w w' d h =
    let (u, k, rest) = first_round bound e es w w' h in
    let (du, l) = round-Draining bound e w u d.stops k in
    let (n, dw) = rounds-Drains bound es u w' du rest in (omega (arith, n, l), dw)

reached-EndsWhenDone :
    (bound : ℕ) (es : List Event) (w w' : Worker)
    → EndsWhenDone w
    → rounds bound es w ≡ some w'
    → EndsWhenDone w'
unfolding rounds Taken
reached-EndsWhenDone bound [] w w' d h = subst EndsWhenDone (some-inj w w' h) d
reached-EndsWhenDone bound (e ∷ es) w w' d h =
    let (u, k, rest) = first_round bound e es w w' h in
    let (alive, taken) = round-Taken bound e w u k in
    let (v, b, same) = taken in
    reached-EndsWhenDone bound es u w' (subst EndsWhenDone (sym same) refl) rest

-- Once a command worker is stopping, each sequence of rounds that it takes has as many rounds as
-- commands left flight in it, and after it the worker has ended or a completion is possible: it ends
-- once each command that was in flight has completed, and never before.
pub worker-Drains :
    (max_in_flight : ℕ) (before after : List Event) (w w' : Worker)
    → add_command_worker_with_concurrency max_in_flight before ≡ some w
    → w.stopping ≡ true
    → rounds (max max_in_flight 1) after w ≡ some w'
    → (length after + length w'.in_flight ≡ length w.in_flight)
      × (w'.ended ≡ is_empty w'.in_flight)
      × Progress (max max_in_flight 1) w'
unfolding add_command_worker_with_concurrency start
worker-Drains max_in_flight before after w w' r s h =
    let d : Draining w = record {
      stops = s;
      ends =
          reached-EndsWhenDone (max max_in_flight 1) before start w refl r
          ∙ ap (λ b. b && is_empty w.in_flight) s;
    } in
    let (n, e) = rounds-Drains (max max_in_flight 1) after w w' d h in
    (n, e.ends, Draining-Progress (max max_in_flight 1) w' e)
