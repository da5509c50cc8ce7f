-- ===== src/Access/Routes.antt =====
-- The routes that the listings show, against the check of a request.
use cqwu_achievement_system.Prelude.{
  ℕ, String, Bool, true, not, Option, none, some, List, [], ◌∷◌, map, keep, str_eq, eq_iff, ◌&&◌,
  ◌||◌, any, ◌≡◌, ◌≢◌, refl, sym, ap, subst, ◌∙◌, inl, inr, arith, All, Bool-cases,
}
use cqwu_achievement_system.Effect.{ok, >>=-eq-ok, ok-pair}
use cqwu_achievement_system.Access.{
  HttpMethod, all_method, get_method, post_method, put_method, patch_method, delete_method,
  method_text, same_method, AccessRule, AccessDb, RouteInfo,
}
use cqwu_achievement_system.Access.Statements.{
  statement_ok, and_left, and_right, or-cases, or_right, or_left, all_four,
}
use cqwu_achievement_system.Access.Pattern.{starts_with}
use cqwu_achievement_system.Access.Rules.{is_literal}
use cqwu_achievement_system.Access.Broader.{covers-starts_with}
use cqwu_achievement_system.Access.Grants.{
  method_from, still_listed, get_effective_rules_for_user, allowed_by, denied_by,
  get_registry_routes, get_user_effective_routes,
}
use cqwu_achievement_system.Access.Guard.{covers, permits, in_force}

str_eq-sym : (a b : String) → str_eq a b ≡ str_eq b a
str_eq-sym a b = elim (Bool-cases (str_eq a b)) [
  | inl h ↦ h ∙ sym ((eq_iff b a).1 (sym ((eq_iff a b).0 h)))
  | inr h ↦ elim (Bool-cases (str_eq b a)) [
    | inl k ↦ (eq_iff a b).1 (sym ((eq_iff b a).0 k)) ∙ sym k
    | inr k ↦ h ∙ sym k
  ]
]

same_method-sym : (m n : HttpMethod) → same_method m n ≡ same_method n m
unfolding method_text
same_method-sym m n = str_eq-sym (method_text m) (method_text n)

-- For every list of rules, the routes that the filter for new grants leaves are exactly those that
-- the rules do not allow.
pub denied-not_allowed :
    (rules : List (String × HttpMethod)) (route : RouteInfo)
    → denied_by rules route ≡ not (allowed_by rules route)
unfolding denied_by allowed_by
denied-not_allowed [] route = refl
denied-not_allowed (p ∷ ps) route =
    ground (arith, same_method-sym p.1 all_method, denied-not_allowed ps route)

-- A stored rule: its method is one of the program's, and its pattern has no wildcard.
pub record IsPlain (r : AccessRule) : Type 0 where
  pub literal : is_literal r.api_pattern ≡ true
  pub method : HttpMethod
  pub stored : r.http_method ≡ method_text method

method_from-text :
    (up : String → String)
    → ((m : HttpMethod) → up (method_text m) ≡ method_text m)
    → (m : HttpMethod) → method_from up (method_text m) ≡ m
unfolding method_from method_text
method_from-text up h get_method = rw (h get_method) refl
method_from-text up h post_method = rw (h post_method) refl
method_from-text up h put_method = rw (h put_method) refl
method_from-text up h patch_method = rw (h patch_method) refl
method_from-text up h delete_method = rw (h delete_method) refl
method_from-text up h all_method = rw (h all_method) refl

in_force-listed :
    (now : ℕ) (e : Option ℕ) → e ≢ some now → still_listed now e ≡ true → in_force now e ≡ true
in_force-listed now none n h = refl
in_force-listed now (some e) n h = ground (arith, λ (p : e ≡ now). n (ap some p))

method-allowed :
    (m n : HttpMethod)
    → (same_method m n || same_method all_method n) ≡ true
    → (str_eq (method_text n) "ALL" || str_eq (method_text n) (method_text m)) ≡ true
unfolding method_text
method-allowed m n h =
    ground (arith, str_eq-sym (method_text m) (method_text n), str_eq-sym "ALL" (method_text n))

-- A rule that is listed as allowing a route permits it.
listed-permits :
    (up : String → String)
    → ((m : HttpMethod) → up (method_text m) ≡ method_text m)
    → (now : ℕ) (user_id : String) (route : RouteInfo) (r : AccessRule) → IsPlain r
    → r.expires_at ≢ some now
    → (str_eq r.user_id user_id && still_listed now r.expires_at) ≡ true
    → (starts_with r.api_pattern route.path
        && (same_method route.method (method_from up r.http_method)
            || same_method all_method (method_from up r.http_method)))
      ≡ true
    → permits now user_id route.path (method_text route.method) r ≡ true
unfolding permits
listed-permits up hup now user_id route r plain n u a =
    all_four (str_eq r.user_id user_id)
      (str_eq r.http_method "ALL" || str_eq r.http_method (method_text route.method))
      (in_force now r.expires_at) (covers r.api_pattern route.path)
      (and_left (str_eq r.user_id user_id) (still_listed now r.expires_at) u) allowed
      (in_force-listed now r.expires_at n
        (and_right (str_eq r.user_id user_id) (still_listed now r.expires_at) u))
      (covers-starts_with r.api_pattern route.path plain.literal
        (and_left (starts_with r.api_pattern route.path) _ a))
  where
    stored : method_text (method_from up r.http_method) ≡ r.http_method
    stored = rw (plain.stored, method_from-text up hup plain.method) refl

    allowed : (str_eq r.http_method "ALL" || str_eq r.http_method (method_text route.method)) ≡ true
    allowed =
        subst (λ t. (str_eq t "ALL" || str_eq t (method_text route.method)) ≡ true) stored
          (method-allowed route.method (method_from up r.http_method)
            (and_right (starts_with r.api_pattern route.path) _ a))

-- Rules that are plain and do not run out at this very moment.
abbrev pub Settled : ℕ → List AccessRule → Type 0
Settled now = All (λ r. IsPlain r × (r.expires_at ≢ some now))

module _ (up : String → String) (fixes : (m : HttpMethod) → up (method_text m) ≡ method_text m)
    (now : ℕ) (user_id : String) where
  effective : List AccessRule → List (String × HttpMethod)
  unfolding method_from
  effective rs =
      map (λ (r : AccessRule). (r.api_pattern, method_from up r.http_method))
        (keep (λ (r : AccessRule). str_eq r.user_id user_id && still_listed now r.expires_at) rs)

  allowed-permitted :
      (rs : List AccessRule) (route : RouteInfo)
      → Settled now rs
      → allowed_by (effective rs) route ≡ true
      → any (permits now user_id route.path (method_text route.method)) rs ≡ true
  unfolding allowed_by effective
  allowed-permitted [] route h a = a
  allowed-permitted (r ∷ rs) route h a =
      elim (Bool-cases (str_eq r.user_id user_id && still_listed now r.expires_at)) [
        | inr u ↦ or_right _ _ (allowed-permitted rs route h.1 (rw u at a))
        | inl u ↦ elim (or-cases _ _ (rw u at a)) [
          | inl b ↦ or_left _ _ (listed-permits up fixes now user_id route r h.0.0 h.0.1 u b)
          | inr b ↦ or_right _ _ (allowed-permitted rs route h.1 b)
        ]
      ]

All-keep :
    {A : Type 0} (f g : A → Bool) (xs : List A)
    → ((x : A) → f x ≡ true → g x ≡ true)
    → All (λ x. g x ≡ true) (keep f xs)
All-keep f g [] h = tt
All-keep f g (x ∷ xs) h = elim (Bool-cases (f x)) [
  | inl e ↦ rw e (h x e, All-keep f g xs h)
  | inr e ↦ rw e (All-keep f g xs h)
]

-- If no rule has a wildcard, a method that is none of the program's, or an expiry at this very moment,
-- then whatever is listed as a route that the user may call is permitted when the user calls it.
pub effective_routes-permitted :
    (to_uppercase : String → String) (registry routes : List RouteInfo) (user_id : String)
    (w w' : AccessDb)
    → ((m : HttpMethod) → to_uppercase (method_text m) ≡ method_text m)
    → Settled w.now w.rules
    → get_user_effective_routes to_uppercase registry user_id w ≡ (ok routes, w')
    → All
        (λ route. any (permits w.now user_id route.path (method_text route.method)) w.rules ≡ true)
        routes
unfolding get_user_effective_routes get_effective_rules_for_user effective
effective_routes-permitted up registry routes user_id w w' fixes settled h =
    let (rules, u, e, f) = >>=-eq-ok (get_effective_rules_for_user up user_id) _ h in
    let (all_routes, v, g, k) = >>=-eq-ok (get_registry_routes registry) _ f in
    let (p, q) = ok-pair (statement_ok _ w u rules e) in
    let (x, y) = ok-pair k in
    subst (All _) x (
      All-keep (allowed_by rules) _ all_routes (λ route a.
        allowed-permitted up fixes w.now user_id w.rules route settled
          (subst (λ r. allowed_by r route ≡ true) (sym p) a)))
