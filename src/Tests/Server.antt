-- ===== src/Tests/Server.antt =====
-- A server with one template and one record, for the tests of the handlers.
use cqwu_achievement_system.Prelude.{ℕ, zero, suc, String, true, none, some, List, [], ◌∷◌, map}
use cqwu_achievement_system.Effect.{ok, works, refused}
use cqwu_achievement_system.Json.{
  Value, pos, json_string, json_array, json_object, no_values, add_value, no_members, add_member,
}
use cqwu_achievement_system.Schema.Validation.{JsonSchema}
use cqwu_achievement_system.Storage.{Client}
use cqwu_achievement_system.Tasks.{TaskCommand}
use cqwu_achievement_system.Upload.{Cache}
use cqwu_achievement_system.Server.{Template, ArchiveRecord, Server}
use cqwu_achievement_system.Templates.{UpdateTemplateRequest, CreateTemplateRequest}
use cqwu_achievement_system.Archive.Files.{Objects}
use cqwu_achievement_system.Archive.Records.{CreateArchiveRecordRequest}
use cqwu_achievement_system.Tests.Tasks.{outbox}
use cqwu_achievement_system.Tests.Schema.{schema, photos}

abbrev pub library : JsonSchema (Unit {0})
library = record { validator_for = λ v. ok tt; iter_errors = λ v json. [] }

-- A store that notes the keys that are written.
abbrev pub objects : Objects (List String)
objects = record {
  bucket_name = "bucket";
  encode = λ t. t;
  decode = λ t. some t;
  head_object = λ key s. (
    ok (record {
      original_filename = some "a.png";
      content_type = some "image/png";
      content_length = some (pos 10);
    }),
    s,
  );
  copy_object = λ source key s. (ok tt, key ∷ s);
  presign_put = λ key type length name s. (ok key, s);
  presign_get = λ key disposition s. (ok key, s);
}

abbrev pub client : Client (List String)
client = record {
  refused = λ k. none;
  delete_objects = λ keys s. (ok (record { deleted = map some keys; errors = [] }), s);
}

abbrev pub uuid : ℕ → String
uuid zero = "r1"
uuid (suc n) = "r2"

abbrev pub template : Template
template = record {
  template_id = "t";
  name = "Prizes";
  category = "study";
  description = none;
  schema_def = schema;
  is_active = true;
  created_at = 0;
  created_by = none;
  updated_at = 0;
}

abbrev pub data_of_record : Value
data_of_record =
    json_object
      (add_member "photos" (json_array (add_value (json_string "x") no_values)) no_members)

abbrev pub old_record : ArchiveRecord
old_record = record {
  record_id = "r0";
  template_id = "t";
  data_of = data_of_record;
  created_by = none;
  created_at = 0;
}

abbrev pub redis : Cache
redis = record { entries = []; now = 0; faults = [] }

abbrev pub server : Server (List String) TaskCommand (Unit {0})
server = record {
  database = record { templates = template ∷ []; records = old_record ∷ []; files = []; now = 5 };
  transaction = record { templates = []; records = []; files = []; now = 5 };
  schema_cache = [];
  redis = redis;
  store = [];
  outbox = outbox;
  drawn = 0;
  faults = works ∷ refused ∷ [];
}

abbrev pub update_t : UpdateTemplateRequest
update_t = record {
  template_id = "t";
  name = some "Awards";
  category = none;
  description = none;
  schema = none;
  schema_files = none;
}

abbrev pub create_t : CreateTemplateRequest
create_t = record {
  name = "Talks";
  category = "study";
  description = none;
  schema = record { schema_def = schema; instance_value = none };
  schema_files = some (record { field = "photos"; title = "Photos"; file_config = photos } ∷ []);
}

abbrev pub create_r : CreateArchiveRecordRequest
create_r = record { data_of = data_of_record; session_id = some "s" }
