-- ===== src/Archive/Files.antt =====
-- The files of a new record: `get_file_metadata`, `move_temp_file_to_save`, `save_file_metadata`,
-- `process_single_file`, `check_required`, `check_need_file` and `create_files_record` of
-- src/modules/archive/service.rs, `FileMetadata::try_from_head` of src/domain/file_metadata.rs and
-- `copy_source_to_dest` of src/utils/s3_storage.rs. The calls of the S3 client and the URL encoding
-- are parameters.
use Prim.Native.String.{◌++◌ as text_append}
use cqwu_achievement_system.Prelude.{
  String, Bool, true, false, Option, none, some, List, [], ◌∷◌, str_eq, ◌==◌, ◌&&◌, any,
  if◌then◌else◌,
}
use cqwu_achievement_system.Effect.{Result, ok, err, Action, pure, raise, lift, ◌>>=◌, ◌>>◌}
use cqwu_achievement_system.Errors.{AppError, data_not_found, unexpected_error, validation_message}
use cqwu_achievement_system.Json.{ℤ, Value, Values, json_array, no_values, add_value, get_field}
use cqwu_achievement_system.Schema.{SchemaFileFieldConfig, SchemaFileFieldConfigs}
use cqwu_achievement_system.Server.{
  ArchiveRecord, FileMetadata, FileRow, Server, TemplateSchemaContext, Handled, Query, db_error,
  on_transaction,
}
use cqwu_achievement_system.Archive.{build_archive_dest_key, try_parse_file_id, member_id}

pub data HeadObjectError : Type 0 where
  not_found : HeadObjectError
  other_error : String → HeadObjectError

-- What the program reads of a head response: the metadata "original-filename", the content type and
-- the content length.
pub record HeadObjectOutput : Type 0 where
  pub original_filename : Option String
  pub content_type : Option String
  pub content_length : Option ℤ

-- The calls of the S3 client on single objects over the state of the service, with the name of the
-- bucket and the URL encoding; a copy gets its source and its destination,
-- and the presigned requests their key with the content type, length and name, or with the disposition.
pub record Objects (S : Type 0) : Type 0 where
  pub bucket_name : String
  pub encode : String → String
  pub decode : String → Option String
  pub head_object : String → Action S HeadObjectError HeadObjectOutput
  pub copy_object : String → String → Action S String Unit
  pub presign_put : String → String → ℤ → String → Action S String String
  pub presign_get : String → String → Action S String String

abbrev pub build_temp_object_key : String → String → String
build_temp_object_key session_id file_id =
    text_append "temp/" (text_append session_id (text_append "/" file_id))

abbrev pub or_text : {A : Type 0} → String → Option A → Result String A
or_text e none = err e
or_text e (some a) = ok a

abbrev pub decoded_name : Option (Option String) → Result String String
decoded_name none = err "文件名元数据丢失"
decoded_name (some o) = or_text "文件名解码失败" o

abbrev map_option : {A B : Type 0} → (A → B) → Option A → Option B
map_option f none = none
map_option f (some a) = some (f a)

abbrev metadata_from :
    Result String String → Result String String → Result String ℤ → Result String FileMetadata
metadata_from (err e) m s = err e
metadata_from (ok n) (err e) s = err e
metadata_from (ok n) (ok m) (err e) = err e
metadata_from (ok n) (ok m) (ok s) = ok (record { filename = n; file_size = s; mime_type = m })

unfoldable pub try_from_head :
    (String → Option String) → HeadObjectOutput → Result String FileMetadata
try_from_head decode head =
    metadata_from (decoded_name (map_option decode head.original_filename))
      (or_text "MIME类型丢失" head.content_type) (or_text "文件大小丢失" head.content_length)

abbrev pub as_unexpected : {A : Type 0} → Result String A → Result AppError A
as_unexpected (ok a) = ok a
as_unexpected (err e) = err (unexpected_error e)

abbrev on_head :
    (String → Option String)
    → Result HeadObjectError HeadObjectOutput
    → Result AppError FileMetadata
on_head decode (ok head) = as_unexpected (try_from_head decode head)
on_head decode (err not_found) = err (data_not_found "存在无效的文件ID")
on_head decode (err (other_error e)) = err (unexpected_error (text_append "获取文件元数据失败: " e))

module _ {S P V : Type 0} (objects : Objects S) where
  -- A call of the store.
  abbrev pub at_store : {E A : Type 0} → Action S E A → Action (Server S P V) E A
  at_store run w = let (r, s) = run w.store in (r, record w { store = s })

  unfoldable pub get_file_metadata : String → Handled S P V FileMetadata
  unfolding try_from_head
  get_file_metadata key w =
      let (r, v) = at_store (objects.head_object key) w in (on_head objects.decode r, v)

  unfoldable pub move_temp_file_to_save : String → String → Handled S P V Unit
  move_temp_file_to_save source dest w =
      let (r, v) =
        at_store
          (objects.copy_object
            (objects.encode (text_append objects.bucket_name (text_append "/" source))) dest)
          w in
      (as_unexpected r, v)

abbrev pub has_file : String → List FileRow → Bool
has_file id fs = any (λ (f : FileRow). str_eq f.file_id id) fs

abbrev pub has_record : String → List ArchiveRecord → Bool
has_record id rs = any (λ (r : ArchiveRecord). str_eq r.record_id id) rs

-- INSERT INTO sys_file: the id is not there, and the record is.
unfoldable pub insert_file : FileRow → Query Unit
insert_file f d =
    if has_file f.file_id d.files
    then (err db_error, d)
    else if has_record f.record_id d.records
    then (ok tt, record d { files = f ∷ d.files })
    else (err db_error, d)

abbrev pub invalid_id : String → AppError
invalid_id field = validation_message (text_append field " 需一个合法的文件ID")

unfoldable pub check_required : Option String → Bool → String → Result AppError Unit
check_required none true field = err (invalid_id field)
check_required _ _ field = ok tt

abbrev pub invalid_item : String → String → AppError
invalid_item field item =
    validation_message (text_append "字段 " (text_append field (text_append " 包含无效文件ID: " item)))

abbrev pub cons_id :
    AppError → Option String → Result AppError (List String) → Result AppError (List String)
cons_id e none ids = err e
cons_id e (some id) (err x) = err x
cons_id e (some id) (ok ids) = ok (id ∷ ids)

abbrev pub id_of_value : (String → Option String) → Option Value → Option String
id_of_value parse_str none = none
id_of_value parse_str (some v) = try_parse_file_id parse_str v

module _ (parse_str : String → Option String) (debug : Value → String) where
  -- The ids of an array, if each item is one; `debug` prints an item.
  unfoldable pub parse_ids : String → Values → Result AppError (List String)
  parse_ids field no_values = ok []
  parse_ids field (add_value v vs) =
      cons_id (invalid_item field (debug v)) (try_parse_file_id parse_str v) (parse_ids field vs)

-- The first id that stands twice, in the order of the loop with its set of the ids seen.
unfoldable pub check_unique : String → List String → List String → Result AppError Unit
check_unique field seen [] = ok tt
check_unique field seen (id ∷ ids) =
    if member_id id seen
    then err
        (validation_message (text_append "字段 " (text_append field (text_append " 包含重复文件ID: " id))))
    else check_unique field (id ∷ seen) ids

abbrev pub check_not_empty : String → Bool → List String → Result AppError Unit
check_not_empty field true [] =
    err (validation_message (text_append "字段 " (text_append field " 不能为空")))
check_not_empty field _ ids = ok tt

module _ {S P V : Type 0} (objects : Objects S) (record_id session_id user_id : String) where
  unfoldable pub save_file_metadata : String → String → FileMetadata → Handled S P V Unit
  unfolding on_transaction insert_file
  save_file_metadata file_id key metadata = on_transaction (
      insert_file (record {
        file_id = file_id;
        record_id = record_id;
        object_key = key;
        metadata = metadata;
        uploaded_by = some user_id;
      }))

  unfoldable pub process_single_file : String → Handled S P V Unit
  unfolding get_file_metadata move_temp_file_to_save save_file_metadata
  process_single_file id = do
    metadata ← get_file_metadata objects (build_temp_object_key session_id id)
    move_temp_file_to_save objects (build_temp_object_key session_id id)
        (build_archive_dest_key record_id id)
    save_file_metadata id (build_archive_dest_key record_id id) metadata

  unfoldable pub process_files : List String → Handled S P V Unit
  unfolding process_single_file
  process_files [] = pure tt
  process_files (id ∷ ids) = process_single_file id >> process_files ids

  -- One round of the loop, from the values on.
  abbrev pub process_one : String → Bool → Option String → Handled S P V Unit
  process_one field required none = lift (check_required none required field)
  process_one field required (some id) = process_single_file id

  abbrev pub process_many : String → Bool → Result AppError (List String) → Handled S P V Unit
  process_many field required (err e) = raise e
  process_many field required (ok ids) =
      lift (check_not_empty field required ids)
      >> lift (check_unique field [] ids)
      >> process_files ids

  module _ (parse_str : String → Option String) (debug : Value → String) where
    abbrev pub process_array : String → Bool → Option Value → Handled S P V Unit
    process_array field required (some (json_array vs)) =
        process_many field required (parse_ids parse_str debug field vs)
    process_array field required _ = lift (check_required none required field)

    abbrev pub process_field : SchemaFileFieldConfig → String → Option Value → Handled S P V Unit
    process_field c field v =
        if c.quota == 1
        then process_one field c.required (id_of_value parse_str v)
        else process_array field c.required v

    unfoldable pub create_files_record : SchemaFileFieldConfigs → Value → Handled S P V Unit
    unfolding process_files check_required check_unique parse_ids
    create_files_record [] json = pure tt
    create_files_record (p ∷ ps) json =
        process_field p.1 p.0 (get_field p.0 json) >> create_files_record ps json

abbrev pub any_required : Option SchemaFileFieldConfigs → Bool
any_required none = false
any_required (some cs) = any (λ (p : String × SchemaFileFieldConfig). p.1.required) cs

abbrev pub no_session : Option String → Bool
no_session none = true
no_session (some s) = false

unfoldable pub check_need_file :
    {V : Type 0} → TemplateSchemaContext V → Option String → Result AppError Unit
check_need_file context session_id =
    if no_session session_id && any_required context.file_field_configs
    then err (validation_message "请上传必要的文件")
    else ok tt
