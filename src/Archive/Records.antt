-- ===== src/Archive/Records.antt =====
-- The statements about archive records and their upload sessions: `create_archive_record`,
-- `delete_archive_record_by_id`, `init_upload_session`, `check_upload_session_exists` and
-- `delete_upload_session` of src/modules/archive/service.rs.
--
-- The ids that the program and the database draw come from one stream.
use cqwu_achievement_system.Prelude.{
  ℕ, ◌+◌, String, Bool, true, false, not, Option, none, some, List, [], ◌∷◌, str_eq, keep, map,
  if◌then◌else◌,
}
use cqwu_achievement_system.Effect.{
  Result, ok, err, next_fault, later_faults, under, pure, raise, ◌>>=◌,
}
use cqwu_achievement_system.Errors.{AppError, data_not_found, unexpected_error}
use cqwu_achievement_system.Json.{Value}
use cqwu_achievement_system.Schema.{SchemaFileFieldConfigs}
use cqwu_achievement_system.Upload.{Entry, Cache, session_of, unexpired}
use cqwu_achievement_system.Server.{
  Template, ArchiveRecord, FileRow, Handled, Query, db_error, find_template, on_transaction,
}
use cqwu_achievement_system.Templates.{with_id, is_some}
use cqwu_achievement_system.Archive.Files.{has_record}

pub record CreateArchiveRecordRequest : Type 0 where
  pub data_of : Value
  pub session_id : Option String

abbrev pub inserted_record : Option Template → Bool → ArchiveRecord → Query ArchiveRecord
inserted_record none taken r d = (err (data_not_found "关联的模板不存在"), d)
inserted_record (some t) true r d = (err db_error, d)
inserted_record (some t) false r d = (ok r, record d { records = r ∷ d.records })

-- INSERT INTO archive_record: the template is there, and the id is not.
unfoldable pub insert_record : String → String → Value → String → Query ArchiveRecord
insert_record id template_id json user d =
    inserted_record (find_template template_id d.templates) (has_record id d.records)
      (record {
        record_id = id;
        template_id = template_id;
        data_of = json;
        created_by = some user;
        created_at = d.now;
      })
      d

-- DELETE FROM archive_record, with the files of the record; whether a row is affected
abbrev pub same_record : String → String → ArchiveRecord → Bool
same_record record_id template_id r =
    if str_eq r.record_id record_id then str_eq r.template_id template_id else false

abbrev pub any_record : (ArchiveRecord → Bool) → List ArchiveRecord → Bool
any_record test [] = false
any_record test (r ∷ rs) = if test r then true else any_record test rs

abbrev pub removed : Bool → String → String → Query Bool
removed false record_id template_id d = (ok false, d)
removed true record_id template_id d = (
  ok true,
  record d {
    records = keep (λ r. not (same_record record_id template_id r)) d.records;
    files = keep (λ (f : FileRow). not (str_eq f.record_id record_id)) d.files;
  },
)

unfoldable pub delete_record : String → String → Query Bool
delete_record record_id template_id d =
    removed (any_record (same_record record_id template_id) d.records) record_id template_id d

abbrev pub keys_of_record : String → List FileRow → List String
keys_of_record id fs =
    map (λ (f : FileRow). f.object_key) (keep (λ (f : FileRow). str_eq f.record_id id) fs)

abbrev without : String → List Entry → List Entry
without id es = keep (λ (e : Entry). not (str_eq e.session_id id)) es

module _ {S P V : Type 0} where
  unfoldable pub create_archive_record :
      (ℕ → String) → CreateArchiveRecordRequest → String → String → Handled S P V ArchiveRecord
  unfolding on_transaction insert_record
  create_archive_record uuid req template_id user =
      with_id uuid λ id. on_transaction (insert_record id template_id req.data_of user)

  abbrev pub or_not_found : List String → Bool → Handled S P V (List String)
  or_not_found keys false = raise (data_not_found "归档记录不存在")
  or_not_found keys true = pure keys

  unfoldable pub delete_archive_record_by_id : String → String → Handled S P V (List String)
  unfolding on_transaction delete_record
  delete_archive_record_by_id template_id record_id = do
    keys ← on_transaction (λ d. (ok (keys_of_record record_id d.files), d))
    on_transaction (delete_record record_id template_id) >>= or_not_found keys

  -- A call of Redis, under its faults.
  abbrev pub redis_call : {A : Type 0} → (Cache → Result AppError A × Cache) → Handled S P V A
  redis_call run w =
      let (r, c) =
        under (unexpected_error "redis") run (next_fault w.redis.faults)
          (record w.redis { faults = later_faults w.redis.faults }) in
      (r, record w { redis = c })

  unfoldable pub check_upload_session_exists : String → Handled S P V Unit
  unfolding session_of
  check_upload_session_exists id = do
    found ← redis_call (λ c. (ok (is_some (unexpired c.now (session_of id c.entries))), c))
    if found then pure tt else raise (data_not_found "上传会话不存在或已过期")

  unfoldable pub delete_upload_session : String → Handled S P V Unit
  delete_upload_session id = redis_call (λ c. (ok tt, record c { entries = without id c.entries }))

  -- `SETEX`, whatever is there
  unfoldable pub init_upload_session :
      (ℕ → String) → SchemaFileFieldConfigs → String → Handled S P V String
  init_upload_session uuid configs user = with_id uuid λ id. redis_call (λ c. (
    ok id,
    record c {
      entries =
          record {
            session_id = id;
            session = record { user_id = user; schema_file_configs = configs };
            expires_at = c.now + 1800;
          }
          ∷ without id c.entries;
    },
  ))

  -- The rollback of the open transaction; its failure is only logged.
  unfoldable pub rollback : Handled S P V Unit
  rollback w = (ok tt, record w { transaction = w.database; faults = later_faults w.faults })
