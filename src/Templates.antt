-- ===== src/Templates.antt =====
-- Templates: src/modules/admin/template/service.rs with the handlers of
-- src/modules/admin/template/routes.rs. A panic of a handler is a result of its own.
pub mod Context
pub mod Handlers
pub mod Lookup
pub mod Coherent
pub mod Keeps
pub mod Serve
pub mod Frozen
use cqwu_achievement_system.Prelude.{
  ℕ, suc, String, Bool, true, false, not, Option, none, some, List, [], ◌∷◌, ◌++◌, str_eq, keep,
  if◌then◌else◌,
}
use cqwu_achievement_system.Effect.{Result, ok, err, Action, pure, raise, map_err, ◌>>=◌, ◌>>◌}
use cqwu_achievement_system.Errors.{AppError, data_not_found, forbidden}
use cqwu_achievement_system.Json.{Value}
use cqwu_achievement_system.Schema.{SchemaFileFieldConfig, into_schema, and_then}
use cqwu_achievement_system.Schema.Validation.{TemplateSchema}
use cqwu_achievement_system.Server.{
  Template, Database, Server, Handled, Query, db_error, find_template, any_record_of, on_pool,
  remove_cached,
}

pub record SchemaFileDefinition : Type 0 where
  pub field : String
  pub title : String
  pub file_config : SchemaFileFieldConfig

pub record CreateTemplateRequest : Type 0 where
  pub name : String
  pub category : String
  pub description : Option String
  pub schema : TemplateSchema
  pub schema_files : Option (List SchemaFileDefinition)

pub record UpdateTemplateRequest : Type 0 where
  pub template_id : String
  pub name : Option String
  pub category : Option String
  pub description : Option String
  pub schema : Option TemplateSchema
  pub schema_files : Option (List SchemaFileDefinition)

-- How a handler ends without a response of its own.
pub data Stop : Type 0 where
  rejected : AppError → Stop
  panicked : Stop

-- The loop over the file fields of a request.
unfoldable pub put_files : List SchemaFileDefinition → Value → Option Value
put_files [] schema = some schema
put_files (f ∷ fs) schema =
    and_then (into_schema f.file_config f.field f.title schema) (put_files fs)

abbrev pub files_or_none : Option (List SchemaFileDefinition) → List SchemaFileDefinition
files_or_none none = []
files_or_none (some fs) = fs

abbrev pub coalesce : {A : Type 0} → Option A → A → A
coalesce none a = a
coalesce (some b) a = b

abbrev pub coalesce_null : {A : Type 0} → Option A → Option A → Option A
coalesce_null none a = a
coalesce_null (some b) a = some b

abbrev pub new_template : String → CreateTemplateRequest → Value → String → ℕ → Template
new_template id req schema_def user now = record {
  template_id = id;
  name = req.name;
  category = req.category;
  description = req.description;
  schema_def = schema_def;
  is_active = true;
  created_at = now;
  created_by = some user;
  updated_at = now;
}

-- What the insertion makes of the row that is there under the id.
abbrev pub inserted :
    Option Template → String → CreateTemplateRequest → Value → String → Query Template
inserted (some t) id req schema_def user d = (err db_error, d)
inserted none id req schema_def user d = (
  ok (new_template id req schema_def user d.now),
  record d { templates = new_template id req schema_def user d.now ∷ d.templates },
)

-- INSERT INTO sys_template ... RETURNING
unfoldable pub insert_template : String → CreateTemplateRequest → Value → String → Query Template
insert_template id req schema_def user d =
    inserted (find_template id d.templates) id req schema_def user d

-- UPDATE sys_template ... WHERE template_id = id
unfoldable pub update_where : String → (Template → Template) → List Template → List Template
update_where id f [] = []
update_where id f (t ∷ ts) = (if str_eq t.template_id id then f t else t) ∷ update_where id f ts

abbrev pub schema_of : Option TemplateSchema → Option Value
schema_of none = none
schema_of (some s) = some s.schema_def

abbrev pub updated_by : UpdateTemplateRequest → Option Value → ℕ → Template → Template
updated_by req schema_def now t = record t {
  name = coalesce req.name t.name;
  category = coalesce req.category t.category;
  description = coalesce_null req.description t.description;
  schema_def = coalesce schema_def t.schema_def;
  updated_at = now;
}

-- UPDATE sys_template ... RETURNING with `fetch_optional`
unfoldable pub update_returning : UpdateTemplateRequest → Option Value → Query (Option Template)
unfolding update_where
update_returning req schema_def d =
    let ts = update_where req.template_id (updated_by req schema_def d.now) d.templates in
    (ok (find_template req.template_id ts), record d { templates = ts })

abbrev pub is_some : {A : Type 0} → Option A → Bool
is_some none = false
is_some (some a) = true

abbrev pub deleted : Bool → Bool → String → Query Bool
deleted true found id d = (err db_error, d)
deleted false found id d = (
  ok found,
  record d { templates = keep (λ (t : Template). not (str_eq t.template_id id)) d.templates },
)

-- DELETE FROM sys_template, which the records of the template forbid; whether a row is affected
unfoldable pub delete_where : String → Query Bool
delete_where id d =
    deleted (any_record_of id d.records) (is_some (find_template id d.templates)) id d

abbrev pub with_status : Bool → ℕ → Template → Template
with_status is_active now t = record t { is_active = is_active; updated_at = now }

-- UPDATE sys_template SET is_active; whether a row is affected
unfoldable pub set_status : String → Bool → Query Bool
unfolding update_where
set_status id is_active d = (
  ok (is_some (find_template id d.templates)),
  record d { templates = update_where id (with_status is_active d.now) d.templates },
)

-- The schema of the request with the file fields put in; `unwrap` panics where there is none.
abbrev pub put_update_files :
    List SchemaFileDefinition → Option TemplateSchema → Option (Option Value)
put_update_files [] schema = some (schema_of schema)
put_update_files (f ∷ fs) none = none
put_update_files (f ∷ fs) (some s) =
    and_then (put_files (f ∷ fs) s.schema_def) (λ schema_def. some (some schema_def))

module _ {S P V : Type 0} where
  abbrev pub orderly : {A : Type 0} → Handled S P V A → Action (Server S P V) Stop A
  orderly run w = let (r, v) = run w in (map_err rejected r, v)

  abbrev pub or_panic : {A : Type 0} → Option A → Action (Server S P V) Stop A
  or_panic none = raise panicked
  or_panic (some a) = pure a

  -- `gen_random_uuid` of the database draws the ids, in order.
  abbrev pub with_id : {A : Type 0} → (ℕ → String) → (String → Handled S P V A) → Handled S P V A
  with_id uuid run w = run (uuid w.drawn) (record w { drawn = suc w.drawn })

  unfoldable pub clear_template_cache : String → Handled S P V Unit
  clear_template_cache id w = (ok tt, record w { schema_cache = remove_cached id w.schema_cache })

  unfoldable pub create_template :
      (ℕ → String) → CreateTemplateRequest → String → Action (Server S P V) Stop Template
  unfolding put_files insert_template on_pool
  create_template uuid req user = do
    schema_def ← or_panic (put_files (files_or_none req.schema_files) req.schema.schema_def)
    orderly (with_id uuid (λ id. on_pool (insert_template id req schema_def user)))

  abbrev pub on_updated : String → Option Template → Handled S P V Template
  on_updated id none = raise (data_not_found "模板不存在")
  on_updated id (some t) = clear_template_cache id >> pure t

  unfoldable pub update_template : UpdateTemplateRequest → Action (Server S P V) Stop Template
  unfolding put_files update_returning on_pool clear_template_cache
  update_template req = do
    schema_def ← or_panic (put_update_files (files_or_none req.schema_files) req.schema)
    orderly (on_pool (update_returning req schema_def) >>= on_updated req.template_id)

  abbrev pub on_affected : Handled S P V Unit → Bool → Handled S P V Unit
  on_affected rest false = raise (data_not_found "模板不存在")
  on_affected rest true = rest

  unfoldable pub delete_template : String → Handled S P V Unit
  unfolding delete_where on_pool clear_template_cache
  delete_template id = on_pool (delete_where id) >>= on_affected (clear_template_cache id)

  unfoldable pub modify_template_status : String → Bool → Handled S P V Unit
  unfolding set_status on_pool
  modify_template_status id is_active = on_pool (set_status id is_active) >>= on_affected (pure tt)

  unfoldable pub check_any_record_exists : String → Handled S P V Bool
  unfolding on_pool
  check_any_record_exists id = on_pool (λ d. (ok (any_record_of id d.records), d))

  abbrev pub on_enabled : Option Template → Handled S P V Unit
  on_enabled none = raise (data_not_found "关联的模板不存在")
  on_enabled (some t) = if t.is_active then pure tt else raise (forbidden "关联的模板已经被禁用")

  unfoldable pub check_template_is_enabled : String → Handled S P V Unit
  unfolding on_pool
  check_template_is_enabled id =
      on_pool (λ d. (ok (find_template id d.templates), d)) >>= on_enabled
