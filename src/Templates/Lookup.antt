-- ===== src/Templates/Lookup.antt =====
-- What the statements on the table of templates, and the cache, leave to a lookup.
use cqwu_achievement_system.Prelude.{
  String, Bool, true, false, not, Option, none, some, List, [], ◌∷◌, str_eq, eq_iff, if◌then◌else◌,
  ◌≡◌, refl, sym, subst, ap, ◌∙◌, Bool-cases, inl, inr, arith, keep,
}
use cqwu_achievement_system.Json.{absorbed, str_eq_trans}
use cqwu_achievement_system.Server.{
  Template, TemplateSchemaContext, find_template, cached, remove_cached,
}
use cqwu_achievement_system.Templates.{update_where, is_some}

-- Two texts that differ do not both equal a third one.
pub both_not : (a b c : String) → str_eq b c ≡ false → str_eq a b ≡ true → str_eq a c ≡ false
both_not a b c h k = subst (λ t. str_eq t c ≡ false) (sym ((eq_iff a b).0 k)) h

pub find_template-update_where :
    (g id : String) (f : Template → Template) (ts : List Template)
    → ((t : Template) → (f t).template_id ≡ t.template_id)
    → str_eq id g ≡ false
    → find_template g (update_where id f ts) ≡ find_template g ts
unfolding find_template update_where
find_template-update_where g id f [] same h = refl
find_template-update_where g id f (t ∷ ts) same h = elim (Bool-cases (str_eq t.template_id id)) [
  | inl e ↦
      rw (e, same t, both_not t.template_id id g h e) (find_template-update_where g id f ts same h)
  | inr e ↦ rw e (elim (Bool-cases (str_eq t.template_id g)) [
    | inl k ↦ rw k refl
    | inr k ↦ rw k (find_template-update_where g id f ts same h)
  ])
]

is_some-update_where :
    (g id : String) (f : Template → Template) (ts : List Template)
    → ((t : Template) → (f t).template_id ≡ t.template_id)
    → is_some (find_template g (update_where id f ts)) ≡ is_some (find_template g ts)
unfolding find_template update_where
is_some-update_where g id f [] same = refl
is_some-update_where g id f (t ∷ ts) same = elim (Bool-cases (str_eq t.template_id id)) [
  | inl e ↦
      rw (e, same t)
        (by_head _ _ (str_eq t.template_id g) _ _ (is_some-update_where g id f ts same))
  | inr e ↦ rw e (by_head _ _ (str_eq t.template_id g) _ _ (is_some-update_where g id f ts same))
]
  where
    by_head :
        (o p : Option Template) (b : Bool) (t u : Template)
        → is_some o ≡ is_some p
        → is_some (if b then some t else o) ≡ is_some (if b then some u else p)
    by_head o p true t u h = refl
    by_head o p false t u h = h

none_if : (o : Option Template) → is_some o ≡ false → o ≡ none
none_if none h = refl
none_if (some t) h = absurd (cc h)

pub find_template-update_where-none :
    (g id : String) (f : Template → Template) (ts : List Template)
    → ((t : Template) → (f t).template_id ≡ t.template_id)
    → find_template g (update_where id f ts) ≡ none
    → find_template g ts ≡ none
find_template-update_where-none g id f ts same h =
    none_if (find_template g ts) (sym (is_some-update_where g id f ts same) ∙ ap (λ o. is_some o) h)

pub find_template-keep :
    (g id : String) (ts : List Template)
    → str_eq id g ≡ false
    → find_template g (keep (λ (t : Template). not (str_eq t.template_id id)) ts)
      ≡ find_template g ts
unfolding find_template
find_template-keep g id [] h = refl
find_template-keep g id (t ∷ ts) h = elim (Bool-cases (str_eq t.template_id id)) [
  | inl e ↦ rw (e, both_not t.template_id id g h e) (find_template-keep g id ts h)
  | inr e ↦ rw e (elim (Bool-cases (str_eq t.template_id g)) [
    | inl k ↦ rw k refl
    | inr k ↦ rw k (find_template-keep g id ts h)
  ])
]

module _ {V : Type 0} where
  pub cached-remove_cached :
      (g id : String) (cs : List (String × TemplateSchemaContext V))
      → cached g (remove_cached id cs) ≡ (if str_eq id g then none else cached g cs)
  unfolding cached remove_cached
  cached-remove_cached g id [] = elim (Bool-cases (str_eq id g)) [
    | inl e ↦ rw e refl
    | inr e ↦ rw e refl
  ]
  cached-remove_cached g id (c ∷ cs) = elim (Bool-cases (str_eq c.0 id)) [
    | inl e ↦
        rw (e, cached-remove_cached g id cs, (eq_iff c.0 id).0 e)
          (absorbed (str_eq id g) none (some c.1) (cached g cs))
    | inr e ↦ rw e (elim (Bool-cases (str_eq c.0 g)) [
      | inl k ↦ rw (k, apart k e) refl
      | inr k ↦ rw k (cached-remove_cached g id cs)
    ])
  ]
    where
      false_only : false ≡ true → ⊥
      false_only h = ground arith

      apart : str_eq c.0 g ≡ true → str_eq c.0 id ≡ false → str_eq id g ≡ false
      apart k e = elim (Bool-cases (str_eq id g)) [
        | inl l ↦ absurd (false_only (sym e ∙ str_eq_trans c.0 g id k l))
        | inr l ↦ l
      ]
