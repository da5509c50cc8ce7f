-- ===== src/Access/Admits.antt =====
-- Which requests the authentication lets through.
use cqwu_achievement_system.Prelude.{
  String, Bool, true, false, Option, none, some, any, if◌then◌else◌, ◌≡◌, refl, sym, ap, subst, ◌∙◌,
  ◌⊎◌, inl, inr, arith, Bool-cases,
}
use cqwu_achievement_system.Effect.{Result, ok, err, pure, raise, lift, ◌>>=◌, >>=-eq-ok, ok-pair}
use cqwu_achievement_system.Errors.{AppError, user_disabled}
use cqwu_achievement_system.Access.{
  UserRole, admin_role, user_role, UserRow, AccessDb, statement, Query,
}
use cqwu_achievement_system.Access.Statements.{statement_ok, after_statement}
use cqwu_achievement_system.Access.Guard.{
  Claims, JwtErrorKind, expired_signature, other_kind, Request, parse_token, check_token,
  on_verified, find_user, row_or_error, check_user_enabled, is_basic, permits, check_user_role,
  check_role, mw_authentication,
}

-- The rules or the basic permissions let a user make a request.
abbrev pub Permitted : AccessDb → String → Request → Type 0
Permitted w user_id req =
    (is_basic req.path req.method ≡ true)
    ⊎ (any (permits w.now user_id req.path req.method) w.rules ≡ true)

-- What is known of a request that reaches the handler: its token, who it is from, and the state that
-- the handler starts in.
pub record Admitted {R : Type 0} (verify : String → Result JwtErrorKind Claims)
    (next : Claims → Query R) (req : Request) (w w' : AccessDb) (r : R) : Type 0 where
  pub token : String
  pub claims : Claims
  pub user : UserRow
  pub start : AccessDb
  pub carried : parse_token req ≡ ok token
  pub verified : verify token ≡ ok claims
  pub known : find_user claims.sub w.users ≡ some user
  pub enabled : user.is_active ≡ true
  pub allowed : (claims.role ≡ admin_role) ⊎ Permitted w claims.sub req
  pub same_rules : start.rules ≡ w.rules
  pub same_users : start.users ≡ w.users
  pub handled : next claims start ≡ (ok r, w')

check_token_ok :
    (verify : String → Result JwtErrorKind Claims) (token : String) (c : Claims)
    → check_token verify token ≡ ok c
    → verify token ≡ ok c
unfolding check_token
check_token_ok verify token c h = cases (verify token) refl h
  where
    cases :
        (o : Result JwtErrorKind Claims)
        → verify token ≡ o
        → on_verified o ≡ ok c
        → verify token ≡ ok c
    cases (ok d) e k = ground arith
    cases (err expired_signature) e k = absurd (cc k)
    cases (err other_kind) e k = absurd (cc k)

row_ok : (o : Option UserRow) (row : UserRow) → row_or_error o ≡ ok row → o ≡ some row
row_ok none row h = absurd (cc h)
row_ok (some u) row h = ground arith

if_ok :
    (b : Bool) (e : AppError) (u w' : AccessDb)
    → ◌≡◌ {A = Result AppError Unit × AccessDb} ((if b then pure tt else raise e) u) (ok tt, w')
    → (b ≡ true) × (u ≡ w')
if_ok true e u w' h = (refl, λ i. (h i).1)
if_ok false e u w' h = absurd (cc h)

-- A user who passes the check is in the table and active.
enabled_ok :
    (c : Claims) (w w' : AccessDb)
    → check_user_enabled c w ≡ (ok tt, w')
    → (u : UserRow) × (find_user c.sub w.users ≡ some u)
      × (u.is_active ≡ true)
      × (after_statement w ≡ w')
unfolding check_user_enabled
enabled_ok c w w' h =
    let (row, u, e, g) = >>=-eq-ok (statement _) _ h in
    let p = statement_ok _ w u row e in
    let (active, last) = if_ok row.is_active user_disabled u w' g in
    (row, row_ok (find_user c.sub w.users) row (λ i. (p i).0), active, (λ i. (p i).1) ∙ last)

role_ok :
    (id : String) (req : Request) (w w' : AccessDb)
    → check_user_role id req.path req.method w ≡ (ok tt, w')
    → Permitted w id req × (w'.rules ≡ w.rules) × (w'.users ≡ w.users)
unfolding check_user_role
role_ok id req w w' h = elim (Bool-cases (is_basic req.path req.method)) [
  | inl b ↦
      let same = if_ok true user_disabled w w' (rw b at h) in
      (
        inl b,
        ap (λ (z : AccessDb). z.rules) (sym same.1),
        ap (λ (z : AccessDb). z.users) (sym same.1),
      )
  | inr b ↦
      let (found, u, e, g) = >>=-eq-ok (statement _) _ (rw b at h) in
      let p = statement_ok _ w u found e in
      let (allowed, last) = if_ok found _ u w' g in
      let same = (λ i. (p i).1) ∙ last in
      (
        inr (subst (λ x. x ≡ true) (sym (ok-pair p).0) allowed),
        ap (λ (z : AccessDb). z.rules) (sym same),
        ap (λ (z : AccessDb). z.users) (sym same),
      )
]

role_allowed :
    (role : UserRole) (id : String) (req : Request) (w w' : AccessDb)
    → check_role role (check_user_role id req.path req.method) w ≡ (ok tt, w')
    → ((role ≡ admin_role) ⊎ Permitted w id req) × (w'.rules ≡ w.rules) × (w'.users ≡ w.users)
role_allowed admin_role id req w w' h =
    let same = if_ok true user_disabled w w' h in
    (
      inl refl,
      ap (λ (z : AccessDb). z.rules) (sym same.1),
      ap (λ (z : AccessDb). z.users) (sym same.1),
    )
role_allowed user_role id req w w' h = let (p, q, t) = role_ok id req w w' h in (inr p, q, t)

lift_ok :
    {A R : Type 0} (res : Result AppError A) (f : A → Query R) (w w' : AccessDb) (r : R)
    → (lift res >>= f) w ≡ (ok r, w')
    → (a : A) × (res ≡ ok a) × (f a w ≡ (ok r, w'))
lift_ok (ok a) f w w' r h = (a, refl, h)
lift_ok (err e) f w w' r h = absurd (cc h)

assemble :
    {R : Type 0} (verify : String → Result JwtErrorKind Claims) (next : Claims → Query R)
    (req : Request) (w w' : AccessDb) (r : R) (token : String) (claims : Claims) (u v : AccessDb)
    → parse_token req ≡ ok token
    → verify token ≡ ok claims
    → check_user_enabled claims w ≡ (ok tt, u)
    → check_role claims.role (check_user_role claims.sub req.path req.method) u ≡ (ok tt, v)
    → next claims v ≡ (ok r, w')
    → Admitted verify next req w w' r
assemble verify next req w w' r token claims u v p k e c n =
    let (user, known, active, same) = enabled_ok claims w u e in
    let (allowed, rules, users) = role_allowed claims.role claims.sub req u v c in
    record {
      token = token;
      claims = claims;
      user = user;
      start = v;
      carried = p;
      verified = k;
      known = known;
      enabled = active;
      allowed =
          subst (λ x. (claims.role ≡ admin_role) ⊎ Permitted x claims.sub req) (sym same) allowed;
      same_rules = rules ∙ ap (λ (z : AccessDb). z.rules) (sym same);
      same_users = users ∙ ap (λ (z : AccessDb). z.users) (sym same);
      handled = n;
    }

-- A request that is answered with success reached the handler with a token that verifies, from a
-- user who is in the table and active, and who is an administrator or has a basic permission or a
-- rule in force for it; the handler started with the tables of users and rules as they were.
pub authentication-Admitted :
    {R : Type 0} (verify : String → Result JwtErrorKind Claims) (next : Claims → Query R)
    (req : Request) (w w' : AccessDb) (r : R)
    → mw_authentication verify next req w ≡ (ok r, w')
    → Admitted verify next req w w' r
unfolding mw_authentication
authentication-Admitted verify next req w w' r h =
    let (token, p, h1) = lift_ok (parse_token req) _ w w' r h in
    let (claims, k, h2) = lift_ok (check_token verify token) _ w w' r h1 in
    let (_, u, e, h3) = >>=-eq-ok (check_user_enabled claims) _ h2 in
    let (_, v, c, h4) =
      >>=-eq-ok (check_role claims.role (check_user_role claims.sub req.path req.method)) _ h3 in
    assemble verify next req w w' r token claims u v p (check_token_ok verify token claims k) e c h4
