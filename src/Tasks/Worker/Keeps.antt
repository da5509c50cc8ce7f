-- ===== src/Tasks/Worker/Keeps.antt =====
-- What the command worker keeps over its rounds.
use cqwu_achievement_system.Prelude.{
  ℕ, zero, suc, ◌+◌, ◌≤◌, max, Bool, true, false, not, ◌&&◌, Option, none, some, List, [], ◌∷◌, ltb,
  if◌then◌else◌, length, ◌≡◌, refl, ap, subst, ◌∙◌, arith, Option-cases, Bool-cases, inl, inr,
  and_left, and_right,
}
use cqwu_achievement_system.Tasks.{QueuedTask}
use cqwu_achievement_system.Tasks.Worker.{
  Event, changed, received, completed, Worker, start, is_empty, on_received, on_completed, take_at,
  branch, round, rounds, add_command_worker_with_concurrency,
}

-- How many tasks of a list pass a test.
abbrev pub count : (QueuedTask → Bool) → List QueuedTask → ℕ
count f [] = 0
count f (t ∷ ts) = if f t then suc (count f ts) else count f ts

-- The set in flight is within the bound; what was taken is in flight or finished, each task as often
-- as it was taken; and a worker that has ended is stopping and has nothing in flight.
pub record IsSound (bound : ℕ) (w : Worker) : Type 0 where
  pub bounded : length w.in_flight ≤ bound
  pub kept : (f : QueuedTask → Bool) → count f w.taken ≡ count f w.in_flight + count f w.finished
  pub ending : w.ended ≡ true → (w.stopping ≡ true) × (w.in_flight ≡ [])

pub take_at_lem :
    (n : ℕ) (ts rest : List QueuedTask) (t : QueuedTask)
    → take_at n ts ≡ some (t, rest)
    → (length ts ≡ suc (length rest)) × ((f : QueuedTask → Bool) → count f ts ≡ count f (t ∷ rest))
unfolding take_at
take_at_lem n [] rest t h = absurd (cc h)
take_at_lem zero (x ∷ ts) rest t h = (ground arith, λ f. ground arith)
take_at_lem (suc n) (x ∷ ts) rest t h = elim (Option-cases (take_at n ts)) [
  | inl e ↦ absurd (ground arith)
  | inr (p, e) ↦
      let (l, c) = take_at_lem n ts p.1 p.0 e in
      let q : ◌≡◌ {A = QueuedTask × List QueuedTask} (p.0, x ∷ p.1) (t, rest) =
        some-inj (subst (λ o. step o ≡ some (t, rest)) e h) in
      (
        omega (arith, l, ap (λ (z : QueuedTask × List QueuedTask). length z.1) q),
        λ f.
            moved f (f x) (f p.0) _ (count f p.1) (c f)
            ∙ ap (λ (z : QueuedTask × List QueuedTask). count f (z.0 ∷ z.1)) q,
      )
]
  where
    some-inj : {A : Type 0} {a b : A} → some a ≡ some b → a ≡ b
    some-inj h = ground arith

    step : Option (QueuedTask × List QueuedTask) → Option (QueuedTask × List QueuedTask)
    step o = elim o [ none ↦ none | some p ↦ some (p.0, x ∷ p.1) ]

    moved :
        (f : QueuedTask → Bool) (a b : Bool) (m k : ℕ)
        → m ≡ (if b then suc k else k)
        → (if a then suc m else m)
          ≡ (if b then suc (if a then suc k else k) else (if a then suc k else k))
    moved f true true m k e = omega (arith, e)
    moved f true false m k e = omega (arith, e)
    moved f false true m k e = omega (arith, e)
    moved f false false m k e = omega (arith, e)

abbrev Kept : ℕ → Worker → Type 0
Kept bound w =
    (length w.in_flight ≤ bound)
    × ((f : QueuedTask → Bool) → count f w.taken ≡ count f w.in_flight + count f w.finished)

received-Kept :
    (bound : ℕ) (c : Option QueuedTask) (w : Worker)
    → ltb (length w.in_flight) bound ≡ true
    → Kept bound w
    → Kept bound (on_received c w)
received-Kept bound none w l k = k
received-Kept bound (some t) w l k =
    (ground (arith, k.0), λ f. added (f t) _ (count f w.in_flight) (count f w.finished) (k.1 f))
  where
    added :
        (b : Bool) (m i j : ℕ) → m ≡ i + j → (if b then suc m else m) ≡ (if b then suc i else i) + j
    added true m i j e = omega (arith, e)
    added false m i j e = e

completed-Kept :
    (bound : ℕ) (w : Worker) (o : Option (QueuedTask × List QueuedTask)) (i : ℕ) (v : Worker)
    → take_at i w.in_flight ≡ o
    → on_completed o w ≡ some v
    → Kept bound w
    → Kept bound v
completed-Kept bound w none i v e h k = absurd (cc h)
completed-Kept bound w (some p) i v e h k =
    let (l, c) = take_at_lem i w.in_flight p.1 p.0 e in
    subst (Kept bound) (some-inj h) (
      omega (arith, l, k.0),
      λ f. removed (f p.0) _ _ (count f p.1) (count f w.finished) (k.1 f) (c f),
    )
  where
    some-inj : {A : Type 0} {a b : A} → some a ≡ some b → a ≡ b
    some-inj h = ground arith

    removed :
        (b : Bool) (m n i j : ℕ)
        → m ≡ n + j
        → n ≡ (if b then suc i else i)
        → m ≡ i + (if b then suc j else j)
    removed true m n i j e g = omega (arith, e, g)
    removed false m n i j e g = omega (arith, e, g)

branch-Kept :
    (bound : ℕ) (e : Event) (w v : Worker) → branch bound e w ≡ some v → Kept bound w → Kept bound v
unfolding branch
branch-Kept bound (changed s) w v h k = (ground (arith, k.0), λ f. ground (arith, k.1 f))
branch-Kept bound (received c) w v h k =
    elim (Bool-cases (not w.stopping && ltb (length w.in_flight) bound)) [
      | inl b ↦
          subst (Kept bound) {x = on_received c w} {y = v} (ground arith)
            (received-Kept bound c w (ground arith) k)
      | inr b ↦ absurd (ground arith)
    ]
branch-Kept bound (completed i) w v h k =
    completed-Kept bound w (take_at i w.in_flight) i v refl h k

is_empty→[] : (ts : List QueuedTask) → is_empty ts ≡ true → ts ≡ []
is_empty→[] [] h = refl
is_empty→[] (t ∷ ts) h = absurd (ground arith)

round-IsSound :
    (bound : ℕ) (e : Event) (w v : Worker)
    → round bound e w ≡ some v
    → IsSound bound w
    → IsSound bound v
unfolding round
round-IsSound bound e w v h k = elim (Bool-cases w.ended) [
  | inl b ↦ absurd (ground arith)
  | inr b ↦ elim (Option-cases (branch bound e w)) [
    | inl o ↦ absurd (ground arith)
    | inr (u, o) ↦
        let kept = branch-Kept bound e w u o (k.bounded, k.kept) in
        subst (IsSound bound) (ground arith) (record {
          bounded = kept.0;
          kept = kept.1;
          ending = λ x. (
            and_left u.stopping (is_empty u.in_flight) x,
            is_empty→[] u.in_flight (and_right u.stopping (is_empty u.in_flight) x),
          );
        })
  ]
]

rounds-IsSound :
    (bound : ℕ) (es : List Event) (w v : Worker)
    → rounds bound es w ≡ some v
    → IsSound bound w
    → IsSound bound v
unfolding rounds
rounds-IsSound bound [] w v h k = subst (IsSound bound) (ground arith) k
rounds-IsSound bound (e ∷ es) w v h k = elim (Option-cases (round bound e w)) [
  | inl o ↦ absurd (ground arith)
  | inr (u, o) ↦ rounds-IsSound bound es u v (ground arith) (round-IsSound bound e w u o k)
]

-- On every sequence of events that the worker can take, at most `max_in_flight` commands (one, for
-- 0) are in flight, each task taken from the channel is in flight or has finished, as often as it was
-- taken, and a worker that has ended was stopping and had nothing left in flight.
pub worker-IsSound :
    (max_in_flight : ℕ) (events : List Event) (w : Worker)
    → add_command_worker_with_concurrency max_in_flight events ≡ some w
    → IsSound (max max_in_flight 1) w
unfolding add_command_worker_with_concurrency start
worker-IsSound n events w h =
    rounds-IsSound (max n 1) events start w h
      (record { bounded = omega arith; kept = λ f. refl; ending = λ e. absurd (ground arith) })
