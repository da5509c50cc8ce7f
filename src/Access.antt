-- ===== src/Access.antt =====
-- Who may call what: src/middleware/auth.rs, src/modules/admin/api_rule/service.rs,
-- src/domain/http_method.rs, src/domain/user_role.rs and src/domain/route_registry.rs.
--
-- The tables `sys_user`, `sys_access_rule` and `sys_template` are lists of the columns that are read
-- here; `NOW()` is the field `now`. A `Uuid` is its text.
pub mod Pattern
pub mod Rules
pub mod Grants
pub mod Guard
pub mod Statements
pub mod Broader
pub mod Routes
pub mod Granted
pub mod Admits
use Prim.Native.Nat.{Ordering}
use Prim.Native.String.{compare as text_compare}
use cqwu_achievement_system.Prelude.{
  ℕ, ◌+◌, String, Bool, true, false, Option, none, some, List, [], ◌∷◌, str_eq, ◌&&◌,
}
use cqwu_achievement_system.Effect.{Result, ok, err, Action, Fault, next_fault, later_faults, under}
use cqwu_achievement_system.Errors.{AppError, unexpected_error}

pub data HttpMethod : Type 0 where
  get_method post_method put_method patch_method delete_method all_method : HttpMethod

unfoldable pub method_text : HttpMethod → String
method_text get_method = "GET"
method_text post_method = "POST"
method_text put_method = "PUT"
method_text patch_method = "PATCH"
method_text delete_method = "DELETE"
method_text all_method = "ALL"

-- `PartialEq` of the methods
abbrev pub same_method : HttpMethod → HttpMethod → Bool
same_method m n = str_eq (method_text m) (method_text n)

pub data UserRole : Type 0 where
  admin_role user_role : UserRole

-- One row of `sys_access_rule`; the method is stored as text.
pub record AccessRule : Type 0 where
  pub rule_id : String
  pub user_id : String
  pub api_pattern : String
  pub http_method : String
  pub expires_at : Option ℕ
  pub created_at : ℕ
  pub granted_by : Option String
  pub description : Option String

pub record UserRow : Type 0 where
  pub user_id : String
  pub is_active : Bool

pub record TemplateRow : Type 0 where
  pub template_id : String
  pub name : String
  pub category : String
  pub is_active : Bool

-- `new_id` gives the ids that the database draws, of which `drawn` have been used.
pub record AccessDb : Type 0 where
  pub users : List UserRow
  pub rules : List AccessRule
  pub templates : List TemplateRow
  pub now : ℕ
  pub new_id : ℕ → String
  pub drawn : ℕ
  pub faults : List Fault

pub record RouteInfo : Type 0 where
  pub method : HttpMethod
  pub path : String
  pub category : String
  pub description : String

-- `Ord` of the routes: by path, then by the text of the method.
abbrev pub compare_route : RouteInfo → RouteInfo → Ordering
compare_route a b = elim (text_compare a.path b.path) [
  | Ordering.eq ↦ text_compare (method_text a.method) (method_text b.method)
  | o ↦ o
]

-- `BTreeSet::insert` on the elements in order: an equal element stays.
pub insert_route : RouteInfo → List RouteInfo → List RouteInfo
insert_route r [] = r ∷ []
insert_route r (x ∷ xs) = elim (compare_route r x) [
  | Ordering.lt ↦ r ∷ x ∷ xs
  | Ordering.eq ↦ x ∷ xs
  | Ordering.gt ↦ x ∷ insert_route r xs
]

-- `extend` of the set
unfoldable pub extend_routes : List RouteInfo → List RouteInfo → List RouteInfo
unfolding insert_route
extend_routes routes [] = routes
extend_routes routes (r ∷ rs) = extend_routes (insert_route r routes) rs

unfoldable pub register_route :
    HttpMethod → String → String → String → List RouteInfo → List RouteInfo
unfolding insert_route
register_route method path description category routes =
    insert_route
      (record { method = method; path = path; category = category; description = description })
      routes

abbrev pub Query : Type 0 → Type 0
Query A = Action AccessDb AppError A

-- A statement: the rest of a fault is an unexpected error.
unfoldable pub statement : {A : Type 0} → (AccessDb → Result AppError A × AccessDb) → Query A
statement run w =
    under (unexpected_error "database") run (next_fault w.faults)
      (record w { faults = later_faults w.faults })
