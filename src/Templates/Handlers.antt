-- ===== src/Templates/Handlers.antt =====
-- The requests about templates: the validation of src/modules/admin/template/models.rs and the
-- handlers of src/modules/admin/template/routes.rs. `SchemaFileDefinition` has conditions of its own,
-- but the requests do not ask for them.
use Prim.Native.String.{[] as empty_text, ◌∷◌ as text_cons}
use cqwu_achievement_system.Prelude.{
  ℕ, zero, suc, String, Bool, true, false, Option, none, some, List, [], ◌∷◌, ◌++◌, leb, ◌&&◌,
  if◌then◌else◌, any, str_eq,
}
use cqwu_achievement_system.Effect.{Result, ok, err, Action, pure, raise, lift, ◌>>=◌, ◌>>◌}
use cqwu_achievement_system.Errors.{
  AppError, FieldErrors, validation_error, database_conflict_error,
}
use cqwu_achievement_system.Schema.Validation.{
  JsonSchema, TemplateSchema, ValidationError, validate,
}
use cqwu_achievement_system.Server.{Template, Server, Handled, on_pool}
use cqwu_achievement_system.Templates.{
  CreateTemplateRequest, UpdateTemplateRequest, Stop, orderly, create_template, update_template,
  delete_template, modify_template_status, check_any_record_exists,
}

-- The number of characters.
unfoldable pub text_length : String → ℕ
text_length empty_text = zero
text_length (text_cons c text) = suc (text_length text)

abbrev pub field_errors : String → String → Bool → List FieldErrors
field_errors field message true = []
field_errors field message false = record { field = field; messages = message ∷ [] } ∷ []

abbrev pub within : ℕ → ℕ → String → Bool
within lo hi text = leb lo (text_length text) && leb (text_length text) hi

-- A check on a field that may be missing.
abbrev pub if_given : {A : Type 0} → (A → Bool) → Option A → Bool
if_given test none = true
if_given test (some a) = test a

abbrev pub name_errors : Option String → List FieldErrors
name_errors name = field_errors "name" "模板名称长度应在1到100个字符之间" (if_given (within 1 100) name)

abbrev pub category_errors : Option String → List FieldErrors
category_errors c = field_errors "category" "模板类别长度应在1到50个字符之间" (if_given (within 1 50) c)

abbrev pub description_errors : Option String → List FieldErrors
description_errors d =
    field_errors "description" "模板描述不能为空" (if_given (λ t. leb 1 (text_length t)) d)

abbrev pub errors_of : Result ValidationError Unit → List FieldErrors
errors_of (ok u) = []
errors_of (err e) = record { field = "schema"; messages = e.message ∷ [] } ∷ []

-- `validate().map_err(AppError::ValidationError)`
abbrev pub or_validation_error : List FieldErrors → Result AppError Unit
or_validation_error [] = ok tt
or_validation_error (e ∷ es) = err (validation_error (e ∷ es))

module _ {V : Type 0} (library : JsonSchema V) where
  abbrev schema_errors : Option TemplateSchema → List FieldErrors
  schema_errors none = []
  schema_errors (some s) = errors_of (validate library s)

  unfoldable pub validate_create : CreateTemplateRequest → Result AppError Unit
  unfolding validate text_length
  validate_create req = or_validation_error (
      name_errors (some req.name)
      ++ category_errors (some req.category)
      ++ description_errors req.description
      ++ schema_errors (some req.schema))

  unfoldable pub validate_update : UpdateTemplateRequest → Result AppError Unit
  unfolding validate text_length
  validate_update req = or_validation_error (
      name_errors req.name
      ++ category_errors req.category
      ++ description_errors req.description
      ++ schema_errors req.schema)

module _ {S P V : Type 0} where
  abbrev pub refuse_if : String → Bool → Handled S P V Unit
  refuse_if message true = raise (database_conflict_error message)
  refuse_if message false = pure tt

module _ {S P V : Type 0} (library : JsonSchema V) where
  unfoldable pub create_template_handler :
      (ℕ → String) → CreateTemplateRequest → String → Action (Server S P V) Stop Template
  unfolding validate_create create_template
  create_template_handler uuid req user =
      orderly (lift (validate_create library req)) >> create_template uuid req user

  unfoldable pub update_template_handler :
      UpdateTemplateRequest → Action (Server S P V) Stop Template
  unfolding validate_update update_template check_any_record_exists
  update_template_handler req = do
    orderly (lift (validate_update library req))
    orderly (check_any_record_exists req.template_id >>= refuse_if "该模板已有归档记录，无法修改")
    update_template req

-- SELECT DISTINCT category
abbrev pub add_category : String → List String → List String
add_category c cs = if any (str_eq c) cs then cs else c ∷ cs

unfoldable pub categories_of : List Template → List String
categories_of [] = []
categories_of (t ∷ ts) =
    if t.is_active then add_category t.category (categories_of ts) else categories_of ts

module _ {S P V : Type 0} where
  unfoldable pub delete_template_handler : String → Handled S P V Unit
  unfolding delete_template check_any_record_exists
  delete_template_handler id = do
    check_any_record_exists id >>= refuse_if "存在关联的归档记录，无法删除该模板"
    delete_template id

  unfoldable pub modify_template_status_handler : String → Bool → Handled S P V Unit
  unfolding modify_template_status
  modify_template_status_handler id is_active = modify_template_status id is_active

  unfoldable pub get_all_template_categories : Handled S P V (List String)
  unfolding categories_of on_pool
  get_all_template_categories = on_pool (λ d. (ok (categories_of d.templates), d))
