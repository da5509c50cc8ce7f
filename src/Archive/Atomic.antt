-- ===== src/Archive/Atomic.antt =====
-- The creation of a record is all or nothing in the tables.
use cqwu_achievement_system.Prelude.{
  ℕ, String, true, Option, none, some, List, ◌∷◌, ◌++◌, ◌≡◌, ◌⊎◌, All,
}
use cqwu_achievement_system.Effect.{Result, ok, ◌>>=◌}
use cqwu_achievement_system.Errors.{AppError}
use cqwu_achievement_system.Json.{Value}
use cqwu_achievement_system.Schema.{SchemaFileFieldConfigs}
use cqwu_achievement_system.Schema.Validation.{JsonSchema}
use cqwu_achievement_system.Storage.{Client}
use cqwu_achievement_system.Tasks.Outbox.Table.{Codec}
use cqwu_achievement_system.Server.{
  ArchiveRecord, FileRow, Database, Server, Handled, TemplateSchemaContext,
}
use cqwu_achievement_system.Templates.{check_template_is_enabled}
use cqwu_achievement_system.Templates.Context.{
  get_or_load_template_context, validate_instance_by_id,
}
use cqwu_achievement_system.Templates.Frozen.{is_error}
use cqwu_achievement_system.Archive.Files.{Objects}
use cqwu_achievement_system.Archive.Records.{CreateArchiveRecordRequest}
use cqwu_achievement_system.Archive.Handlers.{files_of}
use cqwu_achievement_system.Archive.Complete.{file_named, has_row}

-- The tables with a record and some of its files.
abbrev pub extended : Database → ArchiveRecord → List FileRow → Database
extended d r fs = record d { records = r ∷ d.records; files = fs ++ d.files }

abbrev pub FilesOfRecord : ArchiveRecord → List FileRow → Type 0
FilesOfRecord r fs = All (λ (f : FileRow). f.record_id ≡ r.record_id) fs

-- The committed tables are `d`, and the transaction has added the record and some of its files.
abbrev Open : Database → ArchiveRecord → Database → Database → Type 0
Open d r e t = (e ≡ d) × (fs : List FileRow) × (t ≡ extended d r fs) × FilesOfRecord r fs

-- Each file that the data names, in the form that the quota of its field asks for, has its row.
abbrev pub RowsOf :
    (String → Option String)
    → Option (SchemaFileFieldConfigs × String)
    → ArchiveRecord
    → Database
    → Type 0
RowsOf parse_str none r e = Unit
RowsOf parse_str (some f) r e =
    (id : String) → file_named parse_str id r.data_of f.0 ≡ true → has_row r.record_id id e ≡ true

module _ (parse_str : String → Option String)
    (Files : Option (SchemaFileFieldConfigs × String) → Type 0) (d : Database)
    (req : CreateArchiveRecordRequest) (template_id : String) where
  -- The record of the request and all of its files are added, and nothing else.
  abbrev pub Committed : Database → Type 0
  Committed e =
      (r : ArchiveRecord) × (fs : List FileRow) × (e ≡ extended d r fs)
      × (r.template_id ≡ template_id)
      × (r.data_of ≡ req.data_of)
      × FilesOfRecord r fs
      × (files : Option (SchemaFileFieldConfigs × String)) × Files files
      × RowsOf parse_str files r e

module _ {S P V : Type 0} (parse_str : String → Option String)
    (Files : Option (SchemaFileFieldConfigs × String) → Type 0) (d : Database)
    (req : CreateArchiveRecordRequest) (template_id : String) where
  -- How a creation ends: with the record and its files committed, or with an error and the committed
  -- tables as they were.
  abbrev pub Ended : {A : Type 0} → Result AppError A × Server S P V → Type 0
  Ended x =
      Committed parse_str Files d req template_id x.1.database
      ⊎ ((x.1.database ≡ d) × (is_error x.0 ≡ true))

module _ {S P V : Type 0} (objects : Objects S) (client : Client S) (codec : Codec P)
    (library : JsonSchema V) (parse_str : String → Option String) (debug : Value → String)
    (uuid : ℕ → String) where
  -- The context that the request loads, after its checks.
  abbrev pub loading : CreateArchiveRecordRequest → String → Handled S P V (TemplateSchemaContext V)
  loading req template_id = check_template_is_enabled template_id >>= λ a.
      validate_instance_by_id library template_id req.data_of >>= λ b.
      get_or_load_template_context library template_id

  -- The file fields of that context with the session of the request.
  abbrev pub FilesLoaded :
      CreateArchiveRecordRequest
      → String
      → Server S P V
      → Option (SchemaFileFieldConfigs × String)
      → Type 0
  FilesLoaded req template_id w files =
      (context : TemplateSchemaContext V) × (v : Server S P V) × (files
        ≡ files_of context.file_field_configs req.session_id)
      × (loading req template_id w ≡ (ok context, v))
