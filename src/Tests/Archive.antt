-- ===== src/Tests/Archive.antt =====
-- The theorems on the files of archive records, at concrete inputs.
use cqwu_achievement_system.Prelude.{◌≡◌, refl, true, String, Option, some, List, [], ◌∷◌, map, All}
use cqwu_achievement_system.Json.{
  Value, pos, json_string, json_array, json_object, no_values, add_value, no_members, add_member,
}
use cqwu_achievement_system.Schema.{SchemaFileFieldConfig}
use cqwu_achievement_system.Archive.{
  build_archive_dest_key, collect_archive_object_keys_from_data, member_id,
  delete_files_by_object_keys,
}
use cqwu_achievement_system.Archive.Keys.{field_named, no_repeats, collected-no_repeats}
use cqwu_achievement_system.Archive.Deletion.{Accounted, deletion-Accounted}
use cqwu_achievement_system.Tests.Storage.{refusing, Never, any_failure, refusing-Accounts}
use cqwu_achievement_system.Tests.Tasks.{outbox, codec}
use cqwu_achievement_system.Archive.Files.{create_files_record, Objects, not_found}
use cqwu_achievement_system.Archive.Handlers.{save_record}
use cqwu_achievement_system.Archive.Records.{check_upload_session_exists}
use cqwu_achievement_system.Server.{ArchiveRecord, FileRow, Server}
use cqwu_achievement_system.Tasks.{TaskCommand}
use cqwu_achievement_system.Upload.{UploadSession}
use cqwu_achievement_system.Effect.{ok, err, refused}
use cqwu_achievement_system.Archive.Copies.{Compensated, save_record-Compensated}
use cqwu_achievement_system.Archive.Removal.{Ended as RemovalEnded}
use cqwu_achievement_system.Archive.Atomic.{Ended}
use cqwu_achievement_system.Tests.Server.{objects, client, library, server, uuid, old_record}

deletion-Accounted_example :
    Accounted refusing any_failure Never refusing-Accounts codec
      ("a" ∷ "b" ∷ [])
      outbox
      (delete_files_by_object_keys refusing codec ("a" ∷ "b" ∷ []) (tt, outbox))
deletion-Accounted_example =
    deletion-Accounted refusing any_failure Never refusing-Accounts codec ("a" ∷ "b" ∷ []) tt outbox
      tt

abbrev photos : SchemaFileFieldConfig
photos = record { allowed_types = []; quota = 3; max_size = pos 1_048_576; required = true }

abbrev data_of_record : Value
data_of_record = json_object (
    add_member "photos"
      (json_array (add_value (json_string "x") (add_value (json_string "x") no_values))) no_members)

abbrev any_text : String → Option String
any_text t = some t

collected-no_repeats_example :
    (ids : List String) × (collect_archive_object_keys_from_data any_text "r"
        (("photos", photos) ∷ [])
        data_of_record
      ≡ map (build_archive_dest_key "r") ids)
    × (no_repeats ids ≡ true)
    × ((id : String)
        → member_id id ids ≡ field_named any_text id data_of_record (("photos", photos) ∷ []))
collected-no_repeats_example =
    collected-no_repeats any_text "r" (("photos", photos) ∷ []) data_of_record

-- Each key that was written is one of `keys`.
abbrev Inside : List String → List String → Type 0
Inside keys s = All (λ k. member_id k keys ≡ true) s

abbrev configs : List (String × SchemaFileFieldConfig)
configs = ("photos", photos) ∷ []

abbrev own_keys : List String
own_keys = collect_archive_object_keys_from_data any_text "r0" configs data_of_record

abbrev record_0 : ArchiveRecord
record_0 = record old_record { data_of = data_of_record }

abbrev upload_session : UploadSession
upload_session = record { user_id = "u"; schema_file_configs = configs }

-- The object is copied, and then the statement that inserts its row is refused.
abbrev failing_server : Server (List String) TaskCommand (Unit {0})
failing_server = record server {
  redis = record {
    entries = record { session_id = "s"; session = upload_session; expires_at = 9 } ∷ [];
    now = 0;
    faults = [];
  };
  faults = refused ∷ [];
}

save_record-Compensated_example :
    Compensated
      (Inside own_keys)
      objects
      client
      codec
      library
      any_text
      (λ v. "")
      uuid
      configs
      "s"
      "u"
      record_0
      failing_server
      (save_record objects client codec library any_text
        (λ v. "")
        uuid
        (some (configs, "s"))
        (some "s")
        "u"
        record_0
        failing_server)
unfolding create_files_record check_upload_session_exists cqwu_achievement_system.Json.member_of
save_record-Compensated_example =
    save_record-Compensated (Inside own_keys) objects client codec library any_text (λ v. "") uuid
      configs "s" "u" record_0 (λ key s h. h) (λ source key m s h. (m, h)) (some "s") failing_server
      tt tt refl

-- A store without objects, whose service refuses every key.
abbrev no_objects : Objects (Unit {0})
no_objects = record {
  bucket_name = "bucket";
  encode = λ t. t;
  decode = λ t. some t;
  head_object = λ key s. (err not_found, s);
  copy_object = λ source key s. (err "no such object", s);
  presign_put = λ key type length name s. (ok key, s);
  presign_get = λ key disposition s. (ok key, s);
}

abbrev file_of_record : FileRow
file_of_record = record {
  file_id = "x";
  record_id = "r0";
  object_key = "archive/r0/x";
  metadata = record { filename = "a.png"; file_size = pos 10; mime_type = "image/png" };
  uploaded_by = some "u";
}

abbrev filled_server : Server (Unit {0}) TaskCommand (Unit {0})
filled_server = record {
  database = record server.database { files = file_of_record ∷ [] };
  transaction = server.transaction;
  schema_cache = [];
  redis = server.redis;
  store = tt;
  outbox = outbox;
  drawn = 0;
  faults = [];
}
