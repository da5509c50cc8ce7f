-- ===== src/Access/Grants.antt =====
-- The access rules of users: src/modules/admin/api_rule/service.rs, and the routes that a user may
-- call, from src/modules/user/service.rs.
use Prim.Native.String.{◌++◌ as text_append, count}
use cqwu_achievement_system.Prelude.{
  ℕ, ◌+◌, String, Bool, true, false, not, Option, none, some, List, [], ◌∷◌, map, str_eq, ◌&&◌,
  ◌||◌, any, all, keep, leb, ltb, if◌then◌else◌,
}
use cqwu_achievement_system.Effect.{Result, ok, err, pure, raise, ◌>>=◌, ◌>>◌}
use cqwu_achievement_system.Errors.{AppError, data_not_found, api_rule_conflict, unexpected_error}
use cqwu_achievement_system.Access.{
  HttpMethod, all_method, get_method, post_method, put_method, patch_method, delete_method,
  method_text, same_method, AccessRule, UserRow, TemplateRow, AccessDb, RouteInfo, extend_routes,
  Query, statement,
}
use cqwu_achievement_system.Access.Pattern.{starts_with, like_prefix}

pub record GrantRequest : Type 0 where
  pub user_id : String
  pub api_pattern : String
  pub expires_at : Option ℕ
  pub http_method : HttpMethod
  pub description : Option String

pub record ApiRuleDto : Type 0 where
  pub rule_id : String
  pub api_pattern : String
  pub http_method : HttpMethod
  pub expires_at : Option ℕ
  pub created_at : ℕ
  pub granted_by : Option String

-- The expiry of a rule is no earlier than the one that is asked for.
abbrev pub outlasts : Option ℕ → Option ℕ → Bool
outlasts none asked = true
outlasts (some e) none = false
outlasts (some e) (some t) = leb t e

-- The WHERE clause of the search for a broader rule.
unfoldable pub is_broader : GrantRequest → AccessRule → Bool
is_broader req r =
    str_eq r.user_id req.user_id
    && like_prefix r.api_pattern req.api_pattern
    && (str_eq r.http_method "ALL" || str_eq r.http_method (method_text req.http_method))
    && outlasts r.expires_at req.expires_at

abbrev pub find_rule : (AccessRule → Bool) → List AccessRule → Option AccessRule
find_rule test [] = none
find_rule test (r ∷ rs) = if test r then some r else find_rule test rs

abbrev pub on_conflict : Option AccessRule → Query Unit
on_conflict (some r) = raise (api_rule_conflict r.rule_id)
on_conflict none = pure tt

unfoldable pub check_api_rule_conflict : GrantRequest → Query Unit
unfolding is_broader
check_api_rule_conflict req = do
  row ← statement (λ w. (ok (find_rule (is_broader req) w.rules), w))
  on_conflict row

-- The key of ON CONFLICT.
unfoldable pub same_key : GrantRequest → AccessRule → Bool
same_key req r =
    str_eq r.user_id req.user_id
    && str_eq r.api_pattern req.api_pattern
    && str_eq r.http_method (method_text req.http_method)

unfoldable pub renewed : GrantRequest → String → AccessRule → AccessRule
renewed req granted_by r = record r {
  expires_at = req.expires_at;
  granted_by = some granted_by;
  description = req.description;
}

unfoldable pub new_rule : GrantRequest → String → AccessDb → AccessRule
new_rule req granted_by w = record {
  rule_id = w.new_id w.drawn;
  user_id = req.user_id;
  api_pattern = req.api_pattern;
  http_method = method_text req.http_method;
  expires_at = req.expires_at;
  created_at = w.now;
  granted_by = some granted_by;
  description = req.description;
}

-- INSERT ... ON CONFLICT ... DO UPDATE, with the row that is written.
unfoldable pub upsert :
    GrantRequest → String → AccessRule → List AccessRule → AccessRule × List AccessRule
unfolding same_key renewed
upsert req granted_by fresh [] = (fresh, fresh ∷ [])
upsert req granted_by fresh (r ∷ rs) =
    let rest = upsert req granted_by fresh rs in
    if same_key req r
    then (renewed req granted_by r, renewed req granted_by r ∷ rs)
    else (rest.0, r ∷ rest.1)

abbrev pub has_user : String → List UserRow → Bool
has_user id users = any (λ u. str_eq u.user_id id) users

-- The statement: a pattern beyond VARCHAR(255) and a missing user or grantor are refused.
unfoldable pub insert_rule :
    GrantRequest → String → AccessDb → Result AppError AccessRule × AccessDb
unfolding upsert new_rule
insert_rule req granted_by w =
    if ltb 255 (count req.api_pattern)
    then (err (unexpected_error "database"), w)
    else if has_user req.user_id w.users && has_user granted_by w.users
    then (let (row, rules) = upsert req granted_by (new_rule req granted_by w) w.rules in
        (ok row, record w { rules = rules; drawn = w.drawn + 1 }))
    else (err (data_not_found "用户不存在"), w)

unfoldable pub grant_user_api_access_rule : GrantRequest → String → Query ApiRuleDto
unfolding check_api_rule_conflict insert_rule
grant_user_api_access_rule req granted_by = do
  check_api_rule_conflict req
  row ← statement (insert_rule req granted_by)
  pure (record {
    rule_id = row.rule_id;
    api_pattern = req.api_pattern;
    http_method = req.http_method;
    expires_at = req.expires_at;
    created_at = row.created_at;
    granted_by = some granted_by;
  })

abbrev pub on_affected : Bool → Query Unit
on_affected true = pure tt
on_affected false = raise (data_not_found "API访问规则不存在")

unfoldable pub revoke_user_api_access_rule : String → Query Unit
revoke_user_api_access_rule rule_id = do
  affected ← statement (λ w. (
    ok (any (λ r. str_eq r.rule_id rule_id) w.rules),
    record w { rules = keep (λ r. not (str_eq r.rule_id rule_id)) w.rules },
  ))
  on_affected affected

abbrev pub route_name : TemplateRow → String
route_name row = text_append row.category (text_append "-" row.name)

abbrev pub template_route : TemplateRow → HttpMethod → String → String → String → RouteInfo
template_route row method tail before after = record {
  method = method;
  path = text_append "/api/archive/" (text_append row.template_id tail);
  category = row.category;
  description =
      text_append (route_name row) (text_append before (text_append (route_name row) after));
}

-- The routes of one template.
unfoldable pub build_template_route_info : TemplateRow → List RouteInfo
build_template_route_info row =
    template_route row post_method "/create/" "&用于创建" ""
    ∷ template_route row get_method "/init_upload/" "&如果" "需要文件， 则用于初始化该模板的上传会话"
    ∷ template_route row post_method "/presigned/" "&如果" "需要文件， 则用于获取该模板的预签名上传URL"
    ∷ template_route row post_method "/query/" "&用于查询" "的归档记录"
    ∷ template_route row delete_method "/delete/" "&用于删除" "的归档记录"
    ∷ template_route row get_method "/info/" "&用于获取" "的模板信息"
    ∷ []

unfoldable pub with_templates : List RouteInfo → List TemplateRow → List RouteInfo
unfolding build_template_route_info
with_templates routes [] = routes
with_templates routes (t ∷ ts) =
    with_templates (extend_routes routes (build_template_route_info t)) ts

-- `registry` is the content of `ROUTE_REGISTRY`, whose lock is not poisoned.
unfoldable pub get_registry_routes : List RouteInfo → Query (List RouteInfo)
unfolding with_templates
get_registry_routes registry = do
  rows ← statement (λ w. (ok (keep (λ (t : TemplateRow). t.is_active) w.templates), w))
  pure (with_templates registry rows)

unfoldable pub do_filter_with_prefix : String → HttpMethod → List RouteInfo → List RouteInfo
do_filter_with_prefix prefix method routes =
    keep
      (λ (route : RouteInfo).
        starts_with prefix route.path
        && (same_method route.method method || same_method method all_method))
      routes

abbrev pub on_routes : List RouteInfo → Query Unit
on_routes [] = raise (data_not_found "没有找到匹配的路由")
on_routes (r ∷ rs) = pure tt

unfoldable pub check_api_rule_validity : List RouteInfo → String → HttpMethod → Query Unit
unfolding get_registry_routes do_filter_with_prefix
check_api_rule_validity registry prefix method = do
  routes ← get_registry_routes registry
  on_routes (do_filter_with_prefix prefix method routes)

-- `HttpMethod::from` on a stored text; `to_uppercase` of the language is a parameter.
abbrev pub method_of : String → HttpMethod
method_of text =
    if str_eq text "GET"
    then get_method
    else if str_eq text "POST"
    then post_method
    else if str_eq text "PUT"
    then put_method
    else if str_eq text "PATCH"
    then patch_method
    else if str_eq text "DELETE"
    then delete_method
    else all_method

-- `expires_at IS NULL OR expires_at >= NOW()`
abbrev pub still_listed : ℕ → Option ℕ → Bool
still_listed now none = true
still_listed now (some e) = leb now e

-- The rules allow a route.
unfoldable pub allowed_by : List (String × HttpMethod) → RouteInfo → Bool
allowed_by rules route =
    any
      (λ (p : String × HttpMethod).
        starts_with p.0 route.path && (same_method route.method p.1 || same_method all_method p.1))
      rules

-- No rule allows a route.
unfoldable pub denied_by : List (String × HttpMethod) → RouteInfo → Bool
denied_by rules route =
    all
      (λ (p : String × HttpMethod).
        not (starts_with p.0 route.path)
        || (not (same_method route.method p.1) && not (same_method p.1 all_method)))
      rules

module _ (to_uppercase : String → String) where
  unfoldable pub method_from : String → HttpMethod
  method_from text = method_of (to_uppercase text)

  unfoldable pub get_effective_rules_for_user : String → Query (List (String × HttpMethod))
  unfolding method_from
  get_effective_rules_for_user user_id = statement (λ w. (
    ok (
        map (λ (r : AccessRule). (r.api_pattern, method_from r.http_method))
          (keep (λ (r : AccessRule). str_eq r.user_id user_id && still_listed w.now r.expires_at)
            w.rules)),
    w,
  ))

  unfoldable pub do_filter_with_user_exists_rules : List RouteInfo → String → Query (List RouteInfo)
  unfolding get_effective_rules_for_user denied_by
  do_filter_with_user_exists_rules routes user_id = do
    user_rules ← get_effective_rules_for_user user_id
    pure (keep (denied_by user_rules) routes)

  unfoldable pub get_user_effective_routes : List RouteInfo → String → Query (List RouteInfo)
  unfolding get_effective_rules_for_user allowed_by get_registry_routes
  get_user_effective_routes registry user_id = do
    user_rules ← get_effective_rules_for_user user_id
    routes ← get_registry_routes registry
    pure (keep (allowed_by user_rules) routes)
