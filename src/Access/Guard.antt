-- ===== src/Access/Guard.antt =====
-- The authentication of a request: src/middleware/auth.rs. The verification of a token (with its
-- configuration) and the handler behind the middleware are parameters.
use Prim.Native.String.{[] as empty_text, ◌∷◌ as text_cons}
use cqwu_achievement_system.Prelude.{
  ℕ, String, Bool, true, Option, none, some, List, [], ◌∷◌, str_eq, ◌&&◌, ◌||◌, any, ltb,
  if◌then◌else◌,
}
use cqwu_achievement_system.Effect.{Result, ok, err, pure, raise, lift, ◌>>=◌, ◌>>◌}
use cqwu_achievement_system.Errors.{
  AppError, unauthorized, jwt_expired, user_disabled, forbidden, unexpected_error,
}
use cqwu_achievement_system.Access.{
  UserRole, admin_role, user_role, AccessRule, UserRow, Query, statement,
}
use cqwu_achievement_system.Access.Pattern.{
  same_char, starts_with, like_prefix, ends_in_slash, rtrim,
}

pub record Claims : Type 0 where
  pub sub : String
  pub exp : ℕ
  pub iat : ℕ
  pub username : String
  pub role : UserRole

-- The kinds of a token's error that the program tells apart.
pub data JwtErrorKind : Type 0 where
  expired_signature other_kind : JwtErrorKind

-- What the middleware reads of a request: the header `Authorization`, whose value may be no text, the
-- path and the method.
pub record Request : Type 0 where
  pub authorization : Option (Option String)
  pub path : String
  pub method : String

-- `strip_prefix`, the prefix first
unfoldable pub strip_prefix : String → String → Option String
strip_prefix empty_text text = some text
strip_prefix (text_cons p ps) empty_text = none
strip_prefix (text_cons p ps) (text_cons c text) =
    if same_char p c then strip_prefix ps text else none

abbrev pub or_unauthorized : Option String → Result AppError String
or_unauthorized none = err unauthorized
or_unauthorized (some token) = ok token

abbrev pub bearer : Option (Option String) → Option String
bearer (some (some v)) = strip_prefix "Bearer " v
bearer _ = none

unfoldable pub parse_token : Request → Result AppError String
unfolding strip_prefix
parse_token req = or_unauthorized (bearer req.authorization)

abbrev pub on_verified : Result JwtErrorKind Claims → Result AppError Claims
on_verified (ok claims) = ok claims
on_verified (err expired_signature) = err jwt_expired
on_verified (err other_kind) = err unauthorized

unfoldable pub check_token : (String → Result JwtErrorKind Claims) → String → Result AppError Claims
check_token verify_jwt_token token = on_verified (verify_jwt_token token)

-- `fetch_one` on the user
abbrev pub find_user : String → List UserRow → Option UserRow
find_user id [] = none
find_user id (u ∷ us) = if str_eq u.user_id id then some u else find_user id us

abbrev pub row_or_error : Option UserRow → Result AppError UserRow
row_or_error none = err (unexpected_error "no rows returned")
row_or_error (some u) = ok u

unfoldable pub check_user_enabled : Claims → Query Unit
check_user_enabled claims = do
  row ← statement (λ w. (row_or_error (find_user claims.sub w.users), w))
  if row.is_active then pure tt else raise user_disabled

abbrev pub basic_permissions : List (String × String)
basic_permissions = ("/api/user/", "ALL") ∷ []

-- The loop over the basic permissions.
unfoldable pub is_basic : String → String → Bool
is_basic api_path http_method =
    any
      (λ (p : String × String).
        starts_with p.0 api_path && (str_eq p.1 "ALL" || str_eq p.1 http_method))
      basic_permissions

-- `expires_at IS NULL OR expires_at > NOW()`
abbrev pub in_force : ℕ → Option ℕ → Bool
in_force now none = true
in_force now (some e) = ltb now e

-- A rule's pattern covers a path.
unfoldable pub covers : String → String → Bool
covers pattern api_path =
    (ends_in_slash pattern && str_eq api_path (rtrim pattern)) || like_prefix pattern api_path

-- The WHERE clause of the search for a rule that permits the request.
unfoldable pub permits : ℕ → String → String → String → AccessRule → Bool
unfolding covers
permits now user_id api_path http_method r =
    str_eq r.user_id user_id
    && (str_eq r.http_method "ALL" || str_eq r.http_method http_method)
    && in_force now r.expires_at
    && covers r.api_pattern api_path

unfoldable pub check_user_role : String → String → String → Query Unit
unfolding permits is_basic
check_user_role user_id api_path http_method = if is_basic api_path http_method then pure tt else do
  has_permission ←
      statement (λ w. (ok (any (permits w.now user_id api_path http_method) w.rules), w))
  if has_permission then pure tt else raise (forbidden "用户权限不足")

-- Only a user's requests are checked against the rules.
abbrev pub check_role : UserRole → Query Unit → Query Unit
check_role admin_role check = pure tt
check_role user_role check = check

unfoldable pub mw_authentication :
    {R : Type 0} → (String → Result JwtErrorKind Claims) → (Claims → Query R) → Request → Query R
unfolding parse_token check_token check_user_enabled check_user_role
mw_authentication verify_jwt_token next req = do
  token ← lift (parse_token req)
  claims ← lift (check_token verify_jwt_token token)
  check_user_enabled claims
  check_role claims.role (check_user_role claims.sub req.path req.method)
  next claims
