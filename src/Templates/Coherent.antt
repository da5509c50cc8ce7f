-- ===== src/Templates/Coherent.antt =====
-- The cached contexts agree with the table: an invariant of the handlers of templates and of the
-- loading of contexts.
use cqwu_achievement_system.Prelude.{
  String, Bool, true, false, Option, none, some, List, [], ◌∷◌, str_eq, eq_iff, ◌≡◌, refl, subst,
  ap, ◌∙◌, Bool-cases, inl, inr, arith,
}
use cqwu_achievement_system.Effect.{
  Result, ok, err, Action, Fault, works, refused, reply_lost, next_fault, later_faults, continue,
  under, ◌>>=◌,
}
use cqwu_achievement_system.Errors.{AppError}
use cqwu_achievement_system.Schema.Validation.{JsonSchema}
use cqwu_achievement_system.Server.{
  Template, TemplateSchemaContext, Database, Server, Handled, Query, find_template, cached,
  remove_cached, insert_cached, on_pool, run_on_pool, db_error,
}
use cqwu_achievement_system.Templates.{orderly}
use cqwu_achievement_system.Templates.Context.{context_of}
use cqwu_achievement_system.Templates.Lookup.{cached-remove_cached}

-- No statement takes effect and loses its reply.
abbrev pub answered : List Fault → Bool
answered [] = true
answered (reply_lost ∷ fs) = false
answered (works ∷ fs) = answered fs
answered (refused ∷ fs) = answered fs

answered-later : (fs : List Fault) → answered fs ≡ true → answered (later_faults fs) ≡ true
answered-later [] h = refl
answered-later (reply_lost ∷ fs) h = absurd (cc h)
answered-later (works ∷ fs) h = h
answered-later (refused ∷ fs) h = h

answered-next : (fs : List Fault) → answered fs ≡ true → next_fault fs ≡ reply_lost → ⊥
answered-next [] h e = cc e
answered-next (reply_lost ∷ fs) h e = cc h
answered-next (works ∷ fs) h e = cc e
answered-next (refused ∷ fs) h e = cc e

module _ {V : Type 0} (library : JsonSchema V) where
  -- Each cached context is the one that the row of its template gives.
  abbrev pub Agrees : List (String × TemplateSchemaContext V) → List Template → Type 0
  Agrees cache ts =
      (g : String) (c : TemplateSchemaContext V)
      → cached g cache ≡ some c
      → context_of library g (find_template g ts) ≡ ok c

  pub missing :
      (g : String) (o : Option Template) {c : TemplateSchemaContext V}
      → context_of library g o ≡ ok c
      → o ≡ none
      → ⊥
  missing g none h e = cc h
  missing g (some t) h e = cc e

  -- The table changes at one template, whose context is taken from the cache.
  pub Agrees-off :
      (id : String) (cache : List (String × TemplateSchemaContext V)) (ts us : List Template)
      → ((g : String) → str_eq id g ≡ false → find_template g us ≡ find_template g ts)
      → Agrees cache ts
      → Agrees (remove_cached id cache) us
  Agrees-off id cache ts us h a g c e = elim (Bool-cases (str_eq id g)) [
    | inl k ↦ absurd (empty (rw (cached-remove_cached g id cache, k) at e))
    | inr k ↦ rw (h g k) (a g c (rw (cached-remove_cached g id cache, k) at e))
  ]
    where
      empty : ◌≡◌ {A = Option (TemplateSchemaContext V)} none (some c) → ⊥
      empty e = cc e

  -- The table changes at one template, which it did not have.
  pub Agrees-absent :
      (id : String) (cache : List (String × TemplateSchemaContext V)) (ts us : List Template)
      → ((g : String) → str_eq id g ≡ false → find_template g us ≡ find_template g ts)
      → find_template id ts ≡ none
      → Agrees cache ts
      → Agrees cache us
  Agrees-absent id cache ts us h n a g c e = elim (Bool-cases (str_eq id g)) [
    | inl k ↦ absurd (
        missing g (find_template g ts) (a g c e)
          (subst (λ t. find_template t ts ≡ none) ((eq_iff id g).0 k) n))
    | inr k ↦ rw (h g k) (a g c e)
  ]

  -- A context that the table gives is put in the cache.
  pub Agrees-insert :
      (id : String) (c : TemplateSchemaContext V) (cache : List (String × TemplateSchemaContext V))
      (ts : List Template)
      → context_of library id (find_template id ts) ≡ ok c
      → Agrees cache ts
      → Agrees (insert_cached id c cache) ts
  unfolding cached
  Agrees-insert id c cache ts h a g d e = elim (Bool-cases (str_eq id g)) [
    | inl k ↦
        subst (λ t. context_of library t (find_template t ts) ≡ ok d) ((eq_iff id g).0 k)
          (h ∙ ap (λ x. ok x) (same (rw k at e)))
    | inr k ↦ a g d (rw (cached-remove_cached g id cache, k) at (rw k at e))
  ]
    where
      same : ◌≡◌ {A = Option (TemplateSchemaContext V)} (some c) (some d) → c ≡ d
      same e = ground arith

module _ {S P V : Type 0} (library : JsonSchema V) where
  pub record Coherent (w : Server S P V) : Type 0 where
    pub agrees : Agrees library w.schema_cache w.database.templates
    pub replies : answered w.faults ≡ true

  -- The action keeps the invariant.
  abbrev pub Keeps : {E A : Type 0} → Action (Server S P V) E A → Type 0
  Keeps m = (w : Server S P V) → Coherent w → Coherent (m w).1

  pub >>=-Keeps :
      {E A B : Type 0} (m : Action (Server S P V) E A) (f : A → Action (Server S P V) E B)
      → Keeps m
      → ((a : A) → Keeps (f a))
      → Keeps (m >>= f)
  >>=-Keeps {E} {A} {B} m f h k w c = by_result (m w) (h w c)
    where
      by_result : (x : Result E A × Server S P V) → Coherent x.1 → Coherent (continue f x).1
      by_result (ok a, u) h = k a u h
      by_result (err e, u) h = h

  pub orderly-Keeps : {A : Type 0} (m : Handled S P V A) → Keeps m → Keeps (orderly m)
  orderly-Keeps m h w c = h w c

  -- What holds of a statement that works and of one that is refused holds of a statement.
  pub on_pool-by :
      {A : Type 0} (q : Query A) (Goal : Result AppError A × Server S P V → Type 0)
      → ((u : Server S P V) → Coherent u → Goal (run_on_pool q u))
      → ((u : Server S P V) → Coherent u → Goal (err db_error, u))
      → (w : Server S P V) → Coherent w
      → Goal (on_pool q w)
  unfolding on_pool
  on_pool-by {A} q Goal h k w c = by_fault (next_fault w.faults) refl
    where
      later : Coherent (record w { faults = later_faults w.faults })
      later = record { agrees = c.agrees; replies = answered-later w.faults c.replies }

      by_fault :
          (a : Fault)
          → next_fault w.faults ≡ a
          → Goal (under db_error (run_on_pool q) a (record w { faults = later_faults w.faults }))
      by_fault works e = h (record w { faults = later_faults w.faults }) later
      by_fault refused e = k (record w { faults = later_faults w.faults }) later
      by_fault reply_lost e = absurd (answered-next w.faults c.replies e)

  -- A statement that only reads, and what follows it.
  pub on_pool-Keeps :
      {A B : Type 0} (read : Database → A) (f : A → Handled S P V B)
      → ((a : A) → Keeps (f a))
      → Keeps (on_pool (λ d. (ok (read d), d)) >>= f)
  on_pool-Keeps read f h =
      on_pool-by (λ d. (ok (read d), d)) (λ x. Coherent (continue f x).1)
        (λ u c. h (read u.database) u c) λ u c. c
