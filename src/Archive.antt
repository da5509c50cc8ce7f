-- ===== src/Archive.antt =====
-- The files of archive records: `collect_archive_object_keys_from_data` and
-- `delete_files_by_object_keys` of src/modules/archive/service.rs.
--
-- A set of ids is the list of its elements; `Uuid::parse_str` is a parameter, with a `Uuid` as its
-- text. The fields of a configuration come in the order of its map, which is some order.
pub mod Keys
pub mod Deletion
pub mod Files
pub mod Urls
pub mod Records
pub mod Handlers
pub mod Presigned
pub mod Traverse
pub mod Unchanged
pub mod Complete
pub mod Atomic
pub mod Copies
pub mod Removal
use Prim.Native.String.{◌++◌ as text_append}
use cqwu_achievement_system.Prelude.{
  ℕ, String, Bool, true, false, not, Option, none, some, List, [], ◌∷◌, ◌++◌, str_eq, ◌&&◌, any,
  if◌then◌else◌,
}
use cqwu_achievement_system.Effect.{Result, ok, err, Action}
use cqwu_achievement_system.Errors.{AppError, validation_message}
use cqwu_achievement_system.Storage.{Client, StorageError, delete_objects}
use cqwu_achievement_system.Tasks.{delete_archive_objects}
use cqwu_achievement_system.Tasks.Outbox.Table.{Outbox, Codec, TaskError}
use cqwu_achievement_system.Tasks.Outbox.Dispatcher.{submit}
use cqwu_achievement_system.Json.{
  Value, Values, json_null, json_bool, json_number, json_string, json_array, json_object, no_values,
  add_value, get_field,
}
use cqwu_achievement_system.Schema.{SchemaFileFieldConfig}

abbrev pub build_archive_dest_key : String → String → String
build_archive_dest_key record_id file_id =
    text_append "archive/" (text_append record_id (text_append "/" file_id))

abbrev pub member_id : String → List String → Bool
member_id id ids = any (str_eq id) ids

unfoldable pub keys_of_ids : String → List String → List String
keys_of_ids record_id [] = []
keys_of_ids record_id (id ∷ ids) = build_archive_dest_key record_id id ∷ keys_of_ids record_id ids

module _ (parse_str : String → Option String) where
  abbrev pub try_parse_file_id : Value → Option String
  try_parse_file_id (json_string s) = parse_str s
  try_parse_file_id _ = none

  -- `unique_file_ids.insert(file_id)`, on the ids in the order in which they came.
  unfoldable pub insert_id : Option String → List String → List String
  insert_id none ids = ids
  insert_id (some id) ids = if member_id id ids then ids else ids ++ id ∷ []

  -- The loop over the items of an array.
  unfoldable pub insert_items : Values → List String → List String
  unfolding insert_id
  insert_items no_values ids = ids
  insert_items (add_value v vs) ids = insert_items vs (insert_id (try_parse_file_id v) ids)

  unfoldable pub insert_value : Option Value → List String → List String
  unfolding insert_id insert_items
  insert_value (some (json_string s)) ids = insert_id (parse_str s) ids
  insert_value (some (json_array vs)) ids = insert_items vs ids
  insert_value _ ids = ids

  -- The loop over the fields.
  unfoldable pub collect_ids :
      List (String × SchemaFileFieldConfig) → Value → List String → List String
  unfolding insert_value
  collect_ids [] json ids = ids
  collect_ids (c ∷ cs) json ids = collect_ids cs json (insert_value (get_field c.0 json) ids)

  unfoldable pub collect_archive_object_keys_from_data :
      String → List (String × SchemaFileFieldConfig) → Value → List String
  unfolding collect_ids keys_of_ids
  collect_archive_object_keys_from_data record_id configs json =
      keys_of_ids record_id (collect_ids configs json [])

-- Where `delete_objects` fails, the command is submitted; a failure of the submission is only logged.
unfoldable pub delete_files_by_object_keys :
    {S P : Type 0} → Client S → Codec P → List String → S × Outbox P → S × Outbox P
delete_files_by_object_keys client codec [] (s, w) = (s, w)
delete_files_by_object_keys client codec (k ∷ ks) (s, w) =
    elim (delete_objects client (k ∷ ks) s).0 [
      | ok done ↦ ((delete_objects client (k ∷ ks) s).1, w)
      | err e ↦ (
        (delete_objects client (k ∷ ks) s).1,
        (submit codec (delete_archive_objects (k ∷ ks)) w).1,
      )
    ]
