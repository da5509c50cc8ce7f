-- ===== src/Templates/Context.antt =====
-- The contexts of templates, which are loaded from the database and cached:
-- `get_or_load_template_context`, `validate_instance_by_id` and `get_template_info_by_id` of
-- src/modules/archive/service.rs.
use Prim.Native.String.{◌++◌ as text_append}
use cqwu_achievement_system.Prelude.{String, Option, none, some, [], ◌∷◌}
use cqwu_achievement_system.Effect.{Result, ok, err, pure, lift, ◌>>=◌}
use cqwu_achievement_system.Errors.{AppError, data_not_found, unexpected_error, validation_error}
use cqwu_achievement_system.Json.{Value}
use cqwu_achievement_system.Schema.{try_from_schema}
use cqwu_achievement_system.Schema.Validation.{JsonSchema, ValidationError, validate_instance}
use cqwu_achievement_system.Server.{
  Template, TemplateSchemaContext, Handled, find_template, on_pool, cached, insert_cached,
}

-- One error of a field.
abbrev pub field_error : String → String → AppError
field_error field message =
    validation_error (record { field = field; messages = message ∷ [] } ∷ [])

abbrev pub as_data_error : Result ValidationError Unit → Result AppError Unit
as_data_error (ok u) = ok u
as_data_error (err e) = err (field_error "data" e.message)

abbrev pub row_or_not_found : Option Template → Result AppError Template
row_or_not_found none = err (data_not_found "模板不存在")
row_or_not_found (some t) = ok t

module _ {V : Type 0} (library : JsonSchema V) where
  abbrev pub on_built : String → Value → Result String V → Result AppError (TemplateSchemaContext V)
  on_built id schema_def (err e) = err (
      unexpected_error
        (text_append "无法为模板 " (text_append id (text_append " 创建 JSON Schema 验证器: " e))))
  on_built id schema_def (ok v) =
      ok (record { validator = v; file_field_configs = try_from_schema schema_def })

  -- The context of a row.
  abbrev pub context_of : String → Option Template → Result AppError (TemplateSchemaContext V)
  context_of id none = err (data_not_found "关联的模板不存在")
  context_of id (some t) = on_built id t.schema_def (library.validator_for t.schema_def)

module _ {S P V : Type 0} (library : JsonSchema V) where
  unfoldable pub from_database_get_template_context :
      String → Handled S P V (TemplateSchemaContext V)
  unfolding on_pool
  from_database_get_template_context id =
      on_pool (λ d. (ok (find_template id d.templates), d)) >>= λ row.
      lift (context_of library id row)

  abbrev pub on_cached :
      String → Option (TemplateSchemaContext V) → Handled S P V (TemplateSchemaContext V)
  on_cached id (some c) = pure c
  on_cached id none = do
    c ← from_database_get_template_context id
    λ w. (ok c, record w { schema_cache = insert_cached id c w.schema_cache })

  unfoldable pub get_or_load_template_context : String → Handled S P V (TemplateSchemaContext V)
  unfolding from_database_get_template_context cached
  get_or_load_template_context id w = on_cached id (cached id w.schema_cache) w

  unfoldable pub validate_instance_by_id : String → Value → Handled S P V Unit
  unfolding get_or_load_template_context validate_instance
  validate_instance_by_id id json = get_or_load_template_context id >>= λ c.
      lift (as_data_error (validate_instance library c.validator json))

module _ {S P V : Type 0} where
  unfoldable pub get_template_info_by_id : String → Handled S P V Template
  unfolding on_pool
  get_template_info_by_id id =
      on_pool (λ d. (ok (find_template id d.templates), d)) >>= λ row. lift (row_or_not_found row)
