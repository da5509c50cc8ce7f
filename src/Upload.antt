-- ===== src/Upload.antt =====
-- Upload sessions in Redis and their quotas: `DEDUCT_QUOTA_LUA_SCRIPT`, `try_to_get_field_quota` and
-- `check_file_validity` of src/modules/archive/service.rs, over the types of src/domain/schema.rs and
-- src/modules/archive/models.rs.
--
-- A session is kept as the value that its JSON text stands for; the numbers in it are taken to be
-- below 10^14, which the script's JSON library writes back as they are. The keys of Redis are the ids
-- of the sessions, and an entry is gone from its expiry on. The script runs as one step.
pub mod Quota
use Prim.Native.String.{◌++◌ as text_append}
use cqwu_achievement_system.Prelude.{
  ℕ, ◌+◌, ◌-◌, String, Bool, true, false, not, Option, none, some, List, [], ◌∷◌, str_eq, ◌==◌, ltb,
  any, if◌then◌else◌,
}
use cqwu_achievement_system.Json.{ℤ, ltℤ}
use cqwu_achievement_system.Schema.{SchemaFileFieldConfig, field_of}
use cqwu_achievement_system.Effect.{
  Result, ok, err, Action, Fault, next_fault, later_faults, works, refused, reply_lost,
}
use cqwu_achievement_system.Errors.{
  AppError, data_not_found, forbidden, unexpected_error, validation_message,
}

pub record UploadSession : Type 0 where
  pub user_id : String
  pub schema_file_configs : List (String × SchemaFileFieldConfig)

pub record Entry : Type 0 where
  pub session_id : String
  pub session : UploadSession
  pub expires_at : ℕ

pub record Cache : Type 0 where
  pub entries : List Entry
  pub now : ℕ
  pub faults : List Fault

-- The error replies of the script, and a failure of the connection.
pub data ScriptError : Type 0 where
  session_not_found forbidden_user field_not_found quota_exhausted other_failure : ScriptError

-- The session of an id, whether it has expired or not.
unfoldable pub session_of : String → List Entry → Option Entry
session_of id [] = none
session_of id (e ∷ es) = if str_eq e.session_id id then some e else session_of id es

abbrev pub unexpired : ℕ → Option Entry → Option UploadSession
unexpired now none = none
unexpired now (some e) = if ltb now e.expires_at then some e.session else none

-- `SETEX` of a key that is there.
unfoldable pub set_session : String → UploadSession → ℕ → List Entry → List Entry
set_session id s expires [] = []
set_session id s expires (e ∷ es) =
    if str_eq e.session_id id
    then record e { session = s; expires_at = expires } ∷ es
    else e ∷ set_session id s expires es

unfoldable pub set_field :
    String
    → SchemaFileFieldConfig
    → List (String × SchemaFileFieldConfig)
    → List (String × SchemaFileFieldConfig)
set_field field c [] = []
set_field field c (p ∷ ps) = if str_eq p.0 field then (p.0, c) ∷ ps else p ∷ set_field field c ps

abbrev pub Script : Type 0
Script = Result ScriptError SchemaFileFieldConfig × Cache

abbrev pub spent : SchemaFileFieldConfig → SchemaFileFieldConfig
spent c = record c { quota = c.quota - 1 }

module _ (id user field : String) (w : Cache) where
  -- The script from the field's configuration on.
  unfoldable pub on_field : UploadSession → Option SchemaFileFieldConfig → Script
  on_field s none = (err field_not_found, w)
  on_field s (some c) = if c.quota == 0 then (err quota_exhausted, w) else (
    ok (spent c),
    record w {
      entries =
          set_session id
            (record s { schema_file_configs = set_field field (spent c) s.schema_file_configs })
            (w.now + 1800) w.entries;
    },
  )

  -- The script from the session on.
  unfoldable pub on_session : Option UploadSession → Script
  unfolding on_field
  on_session none = (err session_not_found, w)
  on_session (some s) =
      if str_eq s.user_id user
      then on_field s (field_of field s.schema_file_configs)
      else (err forbidden_user, w)

  -- DEDUCT_QUOTA_LUA_SCRIPT
  unfoldable pub deduct_quota : Script
  unfolding on_session
  deduct_quota = on_session (unexpired w.now (session_of id w.entries))

-- The script under a fault of the connection.
abbrev pub execute_script : (Cache → Script) → Fault → Cache → Script
execute_script run works w = run w
execute_script run refused w = (err other_failure, w)
execute_script run reply_lost w = (err other_failure, (run w).1)

abbrev pub on_script :
    Result ScriptError SchemaFileFieldConfig → Result AppError SchemaFileFieldConfig
on_script (ok c) = ok c
on_script (err session_not_found) = err (data_not_found "上传会话不存在或已过期")
on_script (err forbidden_user) = err (forbidden "无权限使用此上传会话")
on_script (err field_not_found) = err (data_not_found "上传字段不存在")
on_script (err quota_exhausted) = err (forbidden "该字段配额已用完")
on_script (err other_failure) = err (unexpected_error "redis")

abbrev pub Cached : Type 0 → Type 0
Cached A = Action Cache AppError A

unfoldable pub try_to_get_field_quota : String → String → String → Cached SchemaFileFieldConfig
unfolding deduct_quota
try_to_get_field_quota id field user w =
    let (r, w') =
      execute_script (deduct_quota id user field) (next_fault w.faults)
        (record w { faults = later_faults w.faults }) in
    (on_script r, w')

-- The extension of a file name, and `to_lowercase`, of the standard library, are parameters.
module _ (extension : String → Option String) (to_lowercase : String → String) where
  abbrev pub check_extension : List String → Option String → Result AppError Unit
  check_extension types none = err (validation_message "无法获取文件扩展名")
  check_extension types (some ext) =
      if any (λ t. str_eq t (to_lowercase (text_append "." ext))) types
      then ok tt
      else err (validation_message "不支持的文件类型")

  abbrev pub check_types : List String → String → Result AppError Unit
  check_types [] filename = ok tt
  check_types (t ∷ ts) filename = check_extension (t ∷ ts) (extension filename)

  unfoldable pub check_file_validity : SchemaFileFieldConfig → String → ℤ → Result AppError Unit
  check_file_validity config filename content_length =
      if ltℤ config.max_size content_length
      then err (validation_message "文件大小超出限制")
      else check_types config.allowed_types filename
