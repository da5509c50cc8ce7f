-- ===== src/Tests/Schema.antt =====
-- The theorems on the file fields of schemas, at concrete inputs.
use cqwu_achievement_system.Prelude.{
  ◌≡◌, refl, true, ◌||◌, String, some, [], ◌∷◌, str_eq, if◌then◌else◌,
}
use cqwu_achievement_system.Json.{
  Value, pos, json_string, json_array, json_object, no_values, add_value, no_members, add_member,
}
use cqwu_achievement_system.Schema.{SchemaFileFieldConfig, into_schema, try_from_schema}
use cqwu_achievement_system.Schema.Lookup.{config_of}
use cqwu_achievement_system.Schema.RoundTrip.{is_required, into_schema-read_back}

abbrev pub photos : SchemaFileFieldConfig
photos = record {
  allowed_types = ".png" ∷ ".jpg" ∷ [];
  quota = 3;
  max_size = pos 1_048_576;
  required = true;
}

abbrev pub text_field : Value
text_field = json_object (add_member "type" (json_string "string") no_members)

-- A schema with a text field, which is required.
abbrev pub schema : Value
schema = json_object (
    add_member "properties" (json_object (add_member "name" text_field no_members))
      (add_member "required" (json_array (add_value (json_string "name") no_values)) no_members))

into_schema-read_back_example :
    (s : Value) × (into_schema photos "photos" "Photos" schema ≡ some s)
    × ((g : String)
        → config_of g (try_from_schema s) ≡ (
            if str_eq "photos" g
            then some (record photos { required = photos.required || is_required "photos" schema })
            else config_of g (try_from_schema schema)))
unfolding cqwu_achievement_system.Json.member_of
into_schema-read_back_example = into_schema-read_back photos "photos" "Photos" schema refl refl refl
