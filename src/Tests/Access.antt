-- ===== src/Tests/Access.antt =====
-- The theorems on the access rules, at concrete inputs.
use cqwu_achievement_system.Prelude.{
  ℕ, ◌≡◌, refl, true, not, ◌||◌, String, none, some, [], ◌∷◌, any, str_eq, All, arith,
}
use cqwu_achievement_system.Effect.{Result, ok, err, pure}
use cqwu_achievement_system.Errors.{api_rule_conflict}
use cqwu_achievement_system.Access.{
  get_method, post_method, all_method, method_text, user_role, AccessRule, AccessDb, RouteInfo,
  statement, Query,
}
use cqwu_achievement_system.Access.Pattern.{
  starts_with, like_prefix, like, like_after, ends_in_slash, rtrim,
}
use cqwu_achievement_system.Access.Rules.{is_literal, like_prefix-eq_starts_with}
use cqwu_achievement_system.Access.Grants.{
  GrantRequest, ApiRuleDto, is_broader, check_api_rule_conflict, new_rule,
  grant_user_api_access_rule, get_user_effective_routes, allowed_by, denied_by,
}
use cqwu_achievement_system.Access.Guard.{
  Claims, JwtErrorKind, Request, permits, covers, mw_authentication,
}
use cqwu_achievement_system.Access.Admits.{Admitted, authentication-Admitted}
use cqwu_achievement_system.Access.Broader.{refused-permits}
use cqwu_achievement_system.Access.Granted.{grant-permits}
use cqwu_achievement_system.Access.Routes.{Settled, effective_routes-permitted, denied-not_allowed}

abbrev rule : AccessRule
rule = record {
  rule_id = "r1";
  user_id = "u1";
  api_pattern = "/api/archive/";
  http_method = "ALL";
  expires_at = some 100;
  created_at = 0;
  granted_by = none;
  description = none;
}

abbrev db : AccessDb
db = record {
  users = record { user_id = "u1"; is_active = true } ∷ [];
  rules = rule ∷ [];
  templates = [];
  now = 10;
  new_id = λ n. "r2";
  drawn = 0;
  faults = [];
}

abbrev narrow : GrantRequest
narrow = record {
  user_id = "u1";
  api_pattern = "/api/archive/t1/";
  expires_at = some 50;
  http_method = get_method;
  description = none;
}

like_prefix-eq_starts_with_example :
    like_prefix "/api/archive/" "/api/archive/t1/" ≡ starts_with "/api/archive/" "/api/archive/t1/"
unfolding is_literal
like_prefix-eq_starts_with_example =
    like_prefix-eq_starts_with "/api/archive/" "/api/archive/t1/" refl

narrow_refused : check_api_rule_conflict narrow db ≡ (err (api_rule_conflict "r1"), db)
unfolding check_api_rule_conflict statement is_broader method_text like_prefix like like_after
narrow_refused = refl

narrow-permits : permits 20 "u1" "/api/archive/t1/info/" "GET" (new_rule narrow "u1" db) ≡ true
unfolding permits new_rule method_text covers like_prefix like like_after ends_in_slash rtrim
narrow-permits = refl

literal_rules : All (λ (r : AccessRule). is_literal r.api_pattern ≡ true) db.rules
unfolding is_literal
literal_rules = (refl, tt)

narrow_literal : is_literal "/api/archive/t1/" ≡ true
unfolding is_literal
narrow_literal = refl

refused-permits_example : any (permits 20 "u1" "/api/archive/t1/info/" "GET") db.rules ≡ true
refused-permits_example =
    refused-permits narrow "u1" db db "r1" 20 "/api/archive/t1/info/" "GET" literal_rules
      narrow_literal narrow_refused narrow-permits

abbrev empty_db : AccessDb
empty_db = record db { rules = [] }

abbrev granted_rule : AccessRule
granted_rule = record {
  rule_id = "r2";
  user_id = "u1";
  api_pattern = "/api/archive/t1/";
  http_method = "GET";
  expires_at = some 50;
  created_at = 10;
  granted_by = some "u1";
  description = none;
}

abbrev granted_db : AccessDb
granted_db = record db { rules = granted_rule ∷ []; drawn = 1 }

abbrev granted_dto : ApiRuleDto
granted_dto = record {
  rule_id = "r2";
  api_pattern = "/api/archive/t1/";
  http_method = get_method;
  expires_at = some 50;
  created_at = 10;
  granted_by = some "u1";
}

narrow_granted : grant_user_api_access_rule narrow "u1" empty_db ≡ (ok granted_dto, granted_db)
unfolding grant_user_api_access_rule statement method_text
narrow_granted = refl

narrow_starts : starts_with "/api/archive/t1/" "/api/archive/t1/info/" ≡ true
unfolding starts_with
narrow_starts = refl

narrow_method :
    (str_eq (method_text get_method) "ALL" || str_eq (method_text get_method) "GET") ≡ true
unfolding method_text
narrow_method = refl

grant-permits_example : any (permits 20 "u1" "/api/archive/t1/info/" "GET") granted_db.rules ≡ true
grant-permits_example =
    grant-permits narrow "u1" granted_dto empty_db granted_db 20 "/api/archive/t1/info/" "GET"
      narrow_literal narrow_starts narrow_method refl narrow_granted

abbrev route : RouteInfo
route = record {
  method = post_method;
  path = "/api/archive/list/";
  category = "c";
  description = "d";
}

denied-not_allowed_example :
    denied_by (("/api/archive/", all_method) ∷ []) route
    ≡ not (allowed_by (("/api/archive/", all_method) ∷ []) route)
denied-not_allowed_example = denied-not_allowed (("/api/archive/", all_method) ∷ []) route

-- Enough of `to_uppercase` for the methods, which are upper case.
abbrev same_text : String → String
same_text t = t

settled : Settled db.now db.rules
unfolding is_literal method_text
settled = (
  (record { literal = refl; method = all_method; stored = refl }, λ e. absurd (ground arith)),
  tt,
)

listed : get_user_effective_routes same_text (route ∷ []) "u1" db ≡ (ok (route ∷ []), db)
unfolding get_user_effective_routes statement starts_with method_text
listed = refl

effective_routes-permitted_example :
    All
      (λ (r : RouteInfo). any (permits db.now "u1" r.path (method_text r.method)) db.rules ≡ true)
      (route ∷ [])
effective_routes-permitted_example =
    effective_routes-permitted same_text (route ∷ []) (route ∷ []) "u1" db db (λ m. refl) settled
      listed

abbrev request : Request
request = record {
  authorization = some (some "Bearer t");
  path = "/api/archive/t1/info/";
  method = "GET";
}

abbrev claims : Claims
claims = record { sub = "u1"; exp = 1; iat = 0; username = "n"; role = user_role }

abbrev verify : String → Result JwtErrorKind Claims
verify t = ok claims

abbrev handler : Claims → Query ℕ
handler c = pure 7

admitted : mw_authentication verify handler request db ≡ (ok 7, db)
unfolding mw_authentication statement starts_with ends_in_slash rtrim like_prefix like
admitted = refl

authentication-Admitted_example : Admitted verify handler request db db 7
authentication-Admitted_example = authentication-Admitted verify handler request db db 7 admitted
