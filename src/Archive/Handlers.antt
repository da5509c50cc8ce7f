-- ===== src/Archive/Handlers.antt =====
-- The requests about archive records: the handlers of src/modules/archive/routes.rs with
-- `presigned_upload_url` of src/modules/archive/service.rs.
--
-- A submission that is cut off by its time limit counts as one whose statement fails.
use cqwu_achievement_system.Prelude.{ℕ, String, Option, none, some, List, [], ◌∷◌}
use cqwu_achievement_system.Effect.{Result, ok, err, continue, pure, raise, lift, ◌>>=◌, ◌>>◌}
use cqwu_achievement_system.Errors.{AppError, data_not_found}
use cqwu_achievement_system.Json.{ℤ, Value}
use cqwu_achievement_system.Schema.{SchemaFileFieldConfigs}
use cqwu_achievement_system.Schema.Validation.{JsonSchema}
use cqwu_achievement_system.Storage.{Client}
use cqwu_achievement_system.Tasks.{delete_archive_objects}
use cqwu_achievement_system.Tasks.Outbox.Table.{Codec}
use cqwu_achievement_system.Tasks.Outbox.Dispatcher.{submit}
use cqwu_achievement_system.Server.{Template, ArchiveRecord, Server, Handled, begin, commit}
use cqwu_achievement_system.Templates.{check_template_is_enabled, with_id}
use cqwu_achievement_system.Templates.Context.{
  get_or_load_template_context, validate_instance_by_id, get_template_info_by_id,
}
use cqwu_achievement_system.Archive.{
  collect_archive_object_keys_from_data, delete_files_by_object_keys,
}
use cqwu_achievement_system.Archive.Files.{
  Objects, build_temp_object_key, check_need_file, create_files_record, at_store, as_unexpected,
}
use cqwu_achievement_system.Archive.Urls.{enrich_archive_records_with_urls}
use cqwu_achievement_system.Archive.Records.{
  CreateArchiveRecordRequest, create_archive_record, delete_archive_record_by_id,
  check_upload_session_exists, delete_upload_session, init_upload_session, rollback,
}

-- The file fields and the session of a request, where it has files.
abbrev pub files_of :
    Option SchemaFileFieldConfigs → Option String → Option (SchemaFileFieldConfigs × String)
files_of (some cs) (some session_id) = some (cs, session_id)
files_of _ _ = none

abbrev pub PresignedResponse : Type 0
PresignedResponse = String × String

module _ {S P V : Type 0} (objects : Objects S) (client : Client S) (codec : Codec P)
    (library : JsonSchema V) (parse_str : String → Option String) (debug : Value → String)
    (uuid : ℕ → String) where
  abbrev pub expected_object_keys :
      Option (SchemaFileFieldConfigs × String) → String → Value → List String
  expected_object_keys none record_id json = []
  expected_object_keys (some f) record_id json =
      collect_archive_object_keys_from_data parse_str record_id f.0 json

  -- The part of the transaction whose failure is compensated.
  abbrev pub save_files :
      Option (SchemaFileFieldConfigs × String) → ArchiveRecord → String → Handled S P V Unit
  save_files none r user = pure tt
  save_files (some f) r user =
      check_upload_session_exists f.1
      >> create_files_record objects r.record_id f.1 user parse_str debug f.0 r.data_of

  -- The command to delete what was copied; its failure is only logged.
  abbrev pub submit_cleanup : List String → Handled S P V Unit
  submit_cleanup [] w = (ok tt, w)
  submit_cleanup (k ∷ ks) w =
      (ok tt, record w { outbox = (submit codec (delete_archive_objects (k ∷ ks)) w.outbox).1 })

  abbrev pub drop_session : Option String → Handled S P V Unit
  drop_session none = pure tt
  drop_session (some id) = delete_upload_session id

  abbrev first_or : ArchiveRecord → List ArchiveRecord → ArchiveRecord
  first_or r [] = r
  first_or r (s ∷ ss) = s

  abbrev pub with_links :
      Option (SchemaFileFieldConfigs × String) → ArchiveRecord → Handled S P V ArchiveRecord
  with_links none r = pure r
  with_links (some f) r = do
    rs ← enrich_archive_records_with_urls objects parse_str f.0 (r ∷ [])
    pure (first_or r rs)

  abbrev pub on_saved :
      Option (SchemaFileFieldConfigs × String)
      → Option String
      → ArchiveRecord
      → Result AppError Unit × Server S P V
      → Result AppError ArchiveRecord × Server S P V
  on_saved files session r (err e, w) =
      (rollback >> submit_cleanup (expected_object_keys files r.record_id r.data_of) >> raise e) w
  on_saved files session r (ok u, w) = (commit >> drop_session session >> with_links files r) w

  abbrev pub save_record :
      Option (SchemaFileFieldConfigs × String)
      → Option String
      → String
      → ArchiveRecord
      → Handled S P V ArchiveRecord
  save_record files session user r w = on_saved files session r (save_files files r user w)

  unfoldable pub create_archive_record_handler :
      CreateArchiveRecordRequest → String → String → Handled S P V ArchiveRecord
  unfolding check_template_is_enabled validate_instance_by_id get_or_load_template_context
      check_need_file begin create_archive_record rollback commit create_files_record
      check_upload_session_exists delete_upload_session enrich_archive_records_with_urls
  create_archive_record_handler req template_id user = do
    check_template_is_enabled template_id
    validate_instance_by_id library template_id req.data_of
    context ← get_or_load_template_context library template_id
    lift (check_need_file context req.session_id)
    begin
    r ← create_archive_record uuid req template_id user
    save_record (files_of context.file_field_configs req.session_id) req.session_id user r

  unfoldable pub delete_archive_record_handler : String → String → Handled S P V Unit
  unfolding begin commit delete_archive_record_by_id delete_files_by_object_keys
  delete_archive_record_handler template_id record_id = do
    begin
    keys ← delete_archive_record_by_id template_id record_id
    commit
    λ w.
        let (s, o) = delete_files_by_object_keys client codec keys (w.store, w.outbox) in
        (ok tt, record w { store = s; outbox = o })

  abbrev on_configs : Option SchemaFileFieldConfigs → String → Handled S P V String
  on_configs none user = raise (data_not_found "该模板不包含文件字段，无需初始化上传会话")
  on_configs (some cs) user = init_upload_session uuid cs user

  unfoldable pub init_upload_session_handler : String → String → Handled S P V String
  unfolding check_template_is_enabled get_or_load_template_context init_upload_session
  init_upload_session_handler template_id user = do
    check_template_is_enabled template_id
    context ← get_or_load_template_context library template_id
    on_configs context.file_field_configs user

  unfoldable pub get_template_info_handler : String → Handled S P V Template
  unfolding get_template_info_by_id
  get_template_info_handler template_id = get_template_info_by_id template_id

module _ {S P V : Type 0} (objects : Objects S) (uuid : ℕ → String) where
  -- The link to upload a file under, with the id of the file.
  unfoldable pub presigned_upload_url :
      String → String → ℤ → String → Handled S P V PresignedResponse
  presigned_upload_url session_id content_type content_length filename = with_id uuid λ id w.
      let (r, v) =
        at_store objects
          (objects.presign_put (build_temp_object_key session_id id) content_type content_length
            (objects.encode filename))
          w in
      continue (λ url. pure (url, id)) (as_unexpected r, v)
