-- ===== src/Access/Granted.antt =====
-- What a grant leaves in the table of rules.
use cqwu_achievement_system.Prelude.{
  ℕ, ◌+◌, String, Bool, true, false, List, [], ◌∷◌, str_eq, eq_iff, ◌&&◌, ◌||◌, any, ltb,
  if◌then◌else◌, ◌≡◌, refl, sym, subst, inl, inr, Bool-cases,
}
use Prim.Native.String.{count}
use cqwu_achievement_system.Errors.{AppError, unexpected_error, data_not_found}
use cqwu_achievement_system.Effect.{Result, ok, err, >>=-eq-ok, ok-pair}
use cqwu_achievement_system.Access.{AccessRule, AccessDb, method_text, statement}
use cqwu_achievement_system.Access.Statements.{
  statement_ok, str_eq→eq, or_right, or_left, all_four, all_three, each_of_three, after_statement,
}
use cqwu_achievement_system.Access.Pattern.{starts_with}
use cqwu_achievement_system.Access.Rules.{is_literal}
use cqwu_achievement_system.Access.Broader.{covers-starts_with}
use cqwu_achievement_system.Access.Grants.{
  GrantRequest, ApiRuleDto, same_key, renewed, new_rule, upsert, has_user, insert_rule,
  check_api_rule_conflict, grant_user_api_access_rule,
}
use cqwu_achievement_system.Access.Guard.{covers, permits, in_force}

-- A rule of a request's user, pattern, method and expiry permits what the request is about.
asked-permits :
    (req : GrantRequest) (r : AccessRule) (now : ℕ) (path method : String)
    → same_key req r ≡ true
    → r.expires_at ≡ req.expires_at
    → is_literal req.api_pattern ≡ true
    → starts_with req.api_pattern path ≡ true
    → (str_eq (method_text req.http_method) "ALL" || str_eq (method_text req.http_method) method)
      ≡ true
    → in_force now req.expires_at ≡ true
    → permits now req.user_id path method r ≡ true
unfolding permits same_key
asked-permits req r now path method k e l s m f =
    all_four (str_eq r.user_id req.user_id)
      (str_eq r.http_method "ALL" || str_eq r.http_method method) (in_force now r.expires_at)
      (covers r.api_pattern path) keys.0
      (subst (λ t. (str_eq t "ALL" || str_eq t method) ≡ true) (sym kept_method) m)
      (subst (λ t. in_force now t ≡ true) (sym e) f)
      (subst (λ t. covers t path ≡ true) (sym kept_pattern)
        (covers-starts_with req.api_pattern path l s))
  where
    keys :
        (str_eq r.user_id req.user_id ≡ true)
        × (str_eq r.api_pattern req.api_pattern ≡ true)
        × (str_eq r.http_method (method_text req.http_method) ≡ true)
    keys =
        each_of_three (str_eq r.user_id req.user_id) (str_eq r.api_pattern req.api_pattern)
          (str_eq r.http_method (method_text req.http_method)) k

    kept_pattern : r.api_pattern ≡ req.api_pattern
    kept_pattern = str_eq→eq _ _ keys.1

    kept_method : r.http_method ≡ method_text req.http_method
    kept_method = str_eq→eq _ _ keys.2

own_key :
    (req : GrantRequest) (by : String) (w : AccessDb) → same_key req (new_rule req by w) ≡ true
unfolding same_key new_rule
own_key req by w =
    all_three (str_eq req.user_id req.user_id) (str_eq req.api_pattern req.api_pattern)
      (str_eq (method_text req.http_method) (method_text req.http_method)) (same req.user_id)
      (same req.api_pattern) (same (method_text req.http_method))
  where
    same : (t : String) → str_eq t t ≡ true
    same t = (eq_iff t t).1 refl

upsert-permits :
    (req : GrantRequest) (by : String) (fresh : AccessRule) (test : AccessRule → Bool)
    (rs : List AccessRule)
    → test fresh ≡ true
    → ((r : AccessRule) → same_key req r ≡ true → test (renewed req by r) ≡ true)
    → any test (upsert req by fresh rs).1 ≡ true
unfolding upsert
upsert-permits req by fresh test [] h k = or_left _ _ h
upsert-permits req by fresh test (r ∷ rs) h k = elim (Bool-cases (same_key req r)) [
  | inl e ↦ rw e (or_left _ _ (k r e))
  | inr e ↦ rw e (or_right _ _ (upsert-permits req by fresh test rs h k))
]

insert-rules :
    (req : GrantRequest) (by : String) (w w' : AccessDb) (row : AccessRule)
    → insert_rule req by w ≡ (ok row, w')
    → w'.rules ≡ (upsert req by (new_rule req by w) w.rules).1
unfolding insert_rule
insert-rules req by w w' row h =
    cases (ltb 255 (count req.api_pattern)) (has_user req.user_id w.users && has_user by w.users) h
  where
    cases :
        (long known : Bool)
        → ◌≡◌ {A = Result AppError AccessRule × AccessDb}
            (if long
              then (err (unexpected_error "database"), w)
              else if known
              then (
                ok (upsert req by (new_rule req by w) w.rules).0,
                record w {
                  rules = (upsert req by (new_rule req by w) w.rules).1;
                  drawn = w.drawn + 1;
                },
              )
              else (err (data_not_found "用户不存在"), w))
            (ok row, w')
        → w'.rules ≡ (upsert req by (new_rule req by w) w.rules).1
    cases true known e = absurd (cc e)
    cases false false e = absurd (cc e)
    cases false true e = sym (λ i. (e i).1.rules)

-- A granted rule works: after a grant of a pattern without wildcards, each path that starts with the
-- pattern is permitted to the user by the method of the grant (by every method for ALL), as long as
-- the grant has not run out, whether it added a row or renewed one.
pub grant-permits :
    (req : GrantRequest) (by : String) (dto : ApiRuleDto) (w w' : AccessDb) (now : ℕ)
    (path method : String)
    → is_literal req.api_pattern ≡ true
    → starts_with req.api_pattern path ≡ true
    → (str_eq (method_text req.http_method) "ALL" || str_eq (method_text req.http_method) method)
      ≡ true
    → in_force now req.expires_at ≡ true
    → grant_user_api_access_rule req by w ≡ (ok dto, w')
    → any (permits now req.user_id path method) w'.rules ≡ true
unfolding grant_user_api_access_rule new_rule renewed
grant-permits req by dto w w' now path method l s m f h =
    let (t, u, e, g) = >>=-eq-ok (check_api_rule_conflict req) _ h in
    let (row, v, e2, g2) = >>=-eq-ok (statement (insert_rule req by)) _ g in
    let rules =
      insert-rules req by (after_statement u) v row
        (statement_ok (insert_rule req by) u v row e2) in
    let (p, q) = ok-pair g2 in
    subst (λ (z : AccessDb). any (permits now req.user_id path method) z.rules ≡ true) q
      (subst (λ rs. any (permits now req.user_id path method) rs ≡ true) (sym rules)
        (upsert-permits req by (new_rule req by (after_statement u)) _ u.rules
          (asked-permits req (new_rule req by (after_statement u)) now path method
            (own_key req by (after_statement u)) refl l s m f)
          (λ r k. asked-permits req (renewed req by r) now path method k refl l s m f)))
