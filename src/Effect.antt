-- ===== src/Effect.antt =====
-- Actions that may fail and that change a state. What was changed before a failure stays changed,
-- so the state comes back beside the error too; `?` of the source is a step of a `do` block.
use cqwu_achievement_system.Prelude.{◌≡◌, refl, ◌⊎◌, inl, inr, arith, List, [], ◌∷◌}

pub data Result (E A : Type 0) : Type 0 where
  ok : A → Result E A
  err : E → Result E A

abbrev pub Action : Type 0 → Type 0 → Type 0 → Type 0
Action S E A = S → Result E A × S

-- What happens to a statement that is sent to the database: it works, it is refused with no effect,
-- or it takes effect and its reply is lost.
pub data Fault : Type 0 where
  works refused reply_lost : Fault

abbrev pub next_fault : List Fault → Fault
next_fault [] = works
next_fault (f ∷ fs) = f

abbrev pub later_faults : List Fault → List Fault
later_faults [] = []
later_faults (f ∷ fs) = fs

-- The result of a statement under a fault, which is the error `e` for the program.
abbrev pub under : {S E A : Type 0} → E → (S → Result E A × S) → Fault → Action S E A
under e run works s = run s
under e run refused s = (err e, s)
under e run reply_lost s = (err e, (run s).1)

module _ {S E A : Type 0} where
  abbrev pub pure : A → Action S E A
  pure a s = (ok a, s)

  abbrev pub raise : E → Action S E A
  raise e s = (err e, s)

  abbrev pub lift : Result E A → Action S E A
  lift r s = (r, s)

module _ {S E A B : Type 0} where
  abbrev pub continue : (A → Action S E B) → Result E A × S → Result E B × S
  continue f (ok a, s) = f a s
  continue f (err e, s) = (err e, s)

  infixl 5 ◌>>=◌ ◌>>◌
  abbrev pub ◌>>=◌ : Action S E A → (A → Action S E B) → Action S E B
  ◌>>=◌ m f s = continue f (m s)

  abbrev pub ◌>>◌ : Action S E A → Action S E B → Action S E B
  m >> k = m >>= λ _. k

-- `map_err`
abbrev pub map_err : {E F A : Type 0} → (E → F) → Result E A → Result F A
map_err f (ok a) = ok a
map_err f (err e) = err (f e)

pub Result-cases :
    {E A : Type 0} (r : Result E A) → ((a : A) × (r ≡ ok a)) ⊎ ((e : E) × (r ≡ err e))
Result-cases (ok a) = inl (a, refl)
Result-cases (err e) = inr (e, refl)

-- A block that succeeds began with a step that succeeds.
pub >>=-eq-ok :
    {S E A B : Type 0} (m : Action S E A) (f : A → Action S E B) {s t : S} {b : B}
    → (m >>= f) s ≡ (ok b, t)
    → (a : A) × (u : S) × (m s ≡ (ok a, u)) × (f a u ≡ (ok b, t))
>>=-eq-ok {S} {E} {A} {B} m f {s} {t} {b} h = split (m s) refl h
  where
    split :
        (p : Result E A × S)
        → m s ≡ p
        → continue f p ≡ (ok b, t)
        → (a : A) × (u : S) × (m s ≡ (ok a, u)) × (f a u ≡ (ok b, t))
    split (ok a, u) e h = (a, u, e, h)
    split (err x, u) e h = absurd (cc h)

pub ok-pair :
    {S E A : Type 0} {a b : A} {s t : S}
    → ◌≡◌ {A = Result E A × S} (ok a, s) (ok b, t)
    → (a ≡ b) × (s ≡ t)
ok-pair h = (ground arith, ground arith)

-- The action keeps a property of the state, whether it succeeds or fails.
abbrev pub Preserves : {S E A : Type 0} → (S → Type 0) → Action S E A → Type 0
Preserves {S} I m = (w : S) → I w → I (m w).1

pub >>=-Preserves :
    {S E A B : Type 0} (I : S → Type 0) (m : Action S E A) (f : A → Action S E B)
    → Preserves I m
    → ((a : A) → Preserves I (f a))
    → Preserves I (m >>= f)
>>=-Preserves {S} {E} {A} {B} I m f h k w c = by_result (m w) (h w c)
  where
    by_result : (x : Result E A × S) → I x.1 → I (continue f x).1
    by_result (ok a, u) h = k a u h
    by_result (err e, u) h = h

-- A predicate on what a step returns, where it succeeds.
abbrev pub OnOk : {E A : Type 0} → (A → Type 0) → Result E A → Type 0
OnOk Q (ok a) = Q a
OnOk Q (err e) = Unit

-- The action keeps a property of the state, and what it returns has another.
abbrev pub Ensures : {S E A : Type 0} → (S → Type 0) → (A → Type 0) → Action S E A → Type 0
Ensures {S} I Q m = (w : S) → I w → I (m w).1 × OnOk Q (m w).0

pub >>=-Ensures :
    {S E A B : Type 0} (I : S → Type 0) (Q : A → Type 0) (R : B → Type 0) (m : Action S E A)
    (f : A → Action S E B)
    → Ensures I Q m
    → ((a : A) → Q a → Ensures I R (f a))
    → Ensures I R (m >>= f)
>>=-Ensures {S} {E} {A} {B} I Q R m f h k w c = by_result (m w) (h w c)
  where
    by_result :
        (x : Result E A × S) → I x.1 × OnOk Q x.0 → I (continue f x).1 × OnOk R (continue f x).0
    by_result (ok a, u) (i, q) = k a q u i
    by_result (err e, u) (i, q) = (i, tt)
