-- ===== src/Server.antt =====
-- The state that the handlers of templates and archive records share: the tables of the migrations
-- `sys_template`, `archive_record` and `sys_file`, the cache of template contexts of
-- src/utils/schema.rs, Redis, the object store and the outbox.
--
-- A table is a list of rows. A statement goes to the pool or to the open transaction, which has a copy
-- of the tables until it is committed; each statement takes the next fault. A failed statement of the
-- program is an error; a rolled back transaction leaves no trace.
use cqwu_achievement_system.Prelude.{
  ℕ, String, Bool, not, Option, none, some, List, [], ◌∷◌, str_eq, keep, any, if◌then◌else◌,
}
use cqwu_achievement_system.Effect.{Result, ok, Action, Fault, next_fault, later_faults, under}
use cqwu_achievement_system.Errors.{AppError, unexpected_error}
use cqwu_achievement_system.Json.{ℤ, Value}
use cqwu_achievement_system.Schema.{SchemaFileFieldConfigs}
use cqwu_achievement_system.Upload.{Cache}
use cqwu_achievement_system.Tasks.Outbox.Table.{Outbox}

pub record Template : Type 0 where
  pub template_id : String
  pub name : String
  pub category : String
  pub description : Option String
  pub schema_def : Value
  pub is_active : Bool
  pub created_at : ℕ
  pub created_by : Option String
  pub updated_at : ℕ

pub record ArchiveRecord : Type 0 where
  pub record_id : String
  pub template_id : String
  pub data_of : Value
  pub created_by : Option String
  pub created_at : ℕ

pub record FileMetadata : Type 0 where
  pub filename : String
  pub file_size : ℤ
  pub mime_type : String

-- A row of `sys_file`
pub record FileRow : Type 0 where
  pub file_id : String
  pub record_id : String
  pub object_key : String
  pub metadata : FileMetadata
  pub uploaded_by : Option String

pub record Database : Type 0 where
  pub templates : List Template
  pub records : List ArchiveRecord
  pub files : List FileRow
  pub now : ℕ

-- `TemplateSchemaContext`, over the validators of the JSON schema library
pub record TemplateSchemaContext (V : Type 0) : Type 0 where
  pub validator : V
  pub file_field_configs : Option SchemaFileFieldConfigs

pub record Server (S P V : Type 0) : Type 0 where
  pub database : Database
  pub transaction : Database
  pub schema_cache : List (String × TemplateSchemaContext V)
  pub redis : Cache
  pub store : S
  pub outbox : Outbox P
  pub drawn : ℕ
  pub faults : List Fault

unfoldable pub find_template : String → List Template → Option Template
find_template id [] = none
find_template id (t ∷ ts) = if str_eq t.template_id id then some t else find_template id ts

unfoldable pub any_record_of : String → List ArchiveRecord → Bool
any_record_of template_id rs = any (λ (r : ArchiveRecord). str_eq r.template_id template_id) rs

abbrev pub db_error : AppError
db_error = unexpected_error "database"

-- What a statement gives: a result or an error, and the tables.
abbrev pub Query : Type 0 → Type 0
Query A = Database → Result AppError A × Database

abbrev pub Handled : Type 0 → Type 0 → Type 0 → Type 0 → Type 0
Handled S P V A = Action (Server S P V) AppError A

module _ {S P V : Type 0} where
  abbrev pub run_on_pool : {A : Type 0} → Query A → Handled S P V A
  run_on_pool run w = let (r, d) = run w.database in (r, record w { database = d })

  abbrev pub run_on_transaction : {A : Type 0} → Query A → Handled S P V A
  run_on_transaction run w = let (r, d) = run w.transaction in (r, record w { transaction = d })

  abbrev faulty : {A : Type 0} → Handled S P V A → Handled S P V A
  faulty run w =
      under db_error run (next_fault w.faults) (record w { faults = later_faults w.faults })

  -- A statement on the pool.
  unfoldable pub on_pool : {A : Type 0} → Query A → Handled S P V A
  on_pool run = faulty (run_on_pool run)

  -- A statement in the open transaction.
  unfoldable pub on_transaction : {A : Type 0} → Query A → Handled S P V A
  on_transaction run = faulty (run_on_transaction run)

  unfoldable pub begin : Handled S P V Unit
  begin = faulty (λ w. (ok tt, record w { transaction = w.database }))

  unfoldable pub commit : Handled S P V Unit
  commit = faulty (λ w. (ok tt, record w { database = w.transaction }))

module _ {V : Type 0} where
  -- `get` of the cache
  unfoldable pub cached :
      String → List (String × TemplateSchemaContext V) → Option (TemplateSchemaContext V)
  cached id [] = none
  cached id (c ∷ cs) = if str_eq c.0 id then some c.1 else cached id cs

  unfoldable pub remove_cached :
      String → List (String × TemplateSchemaContext V) → List (String × TemplateSchemaContext V)
  remove_cached id cs = keep (λ c. not (str_eq c.0 id)) cs

  -- `insert` of the cache
  abbrev pub insert_cached :
      String
      → TemplateSchemaContext V
      → List (String × TemplateSchemaContext V)
      → List (String × TemplateSchemaContext V)
  insert_cached id c cs = (id, c) ∷ remove_cached id cs
