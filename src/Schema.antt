-- ===== src/Schema.antt =====
-- The file fields of a template's JSON schema: src/domain/schema.rs. A panic of the source, where a
-- part of the schema is no object or no array, is `none`.
pub mod Lookup
pub mod FieldDef
pub mod Required
pub mod RoundTrip
pub mod Validation
use Prim.Native.String.{◌++◌ as text_append}
use cqwu_achievement_system.Prelude.{
  ℕ, String, Bool, true, false, Option, none, some, List, [], ◌∷◌, str_eq, any, ◌==◌, ◌||◌,
  if◌then◌else◌,
}
use cqwu_achievement_system.Effect.{Result, ok, err}
use cqwu_achievement_system.Json.{
  ℤ, pos, Number, whole, Value, Values, Members, json_null, json_bool, json_number, json_string,
  json_array, json_object, no_values, add_value, no_members, add_member, member_of, set_member,
  get_field, as_object, as_array, as_str, as_i64, as_u64, append_value, texts, strings,
}

pub record SchemaFileFieldConfig : Type 0 where
  pub allowed_types : List String
  pub quota : ℕ
  pub max_size : ℤ
  pub required : Bool

-- The configurations of the fields, as the map from their names.
abbrev pub SchemaFileFieldConfigs : Type 0
SchemaFileFieldConfigs = List (String × SchemaFileFieldConfig)

-- `get`
unfoldable pub field_of : String → SchemaFileFieldConfigs → Option SchemaFileFieldConfig
field_of field [] = none
field_of field (p ∷ ps) = if str_eq p.0 field then some p.1 else field_of field ps

-- `insert`
unfoldable pub insert_config :
    String → SchemaFileFieldConfig → SchemaFileFieldConfigs → SchemaFileFieldConfigs
insert_config field c [] = (field, c) ∷ []
insert_config field c (p ∷ ps) =
    if str_eq p.0 field then (p.0, c) ∷ ps else p ∷ insert_config field c ps

-- `remove`
unfoldable pub del : String → SchemaFileFieldConfigs → SchemaFileFieldConfigs
del field [] = []
del field (p ∷ ps) = if str_eq p.0 field then ps else p ∷ del field ps

-- The definition of the field without its title.
abbrev pub typed_field : SchemaFileFieldConfig → Members → Members
typed_field c def =
    if c.quota == 1
    then set_member "format" (json_string "file-id") (set_member "type" (json_string "string") def)
    else set_member "maxItems" (json_number (whole (pos c.quota))) (
        set_member "items"
          (json_object (
            add_member "type" (json_string "string")
              (add_member "format" (json_string "file-id") no_members)))
          (set_member "type" (json_string "array") def))

abbrev pub x_config : SchemaFileFieldConfig → Value
x_config c = json_object (
    add_member "accept" (json_array (texts c.allowed_types))
      (add_member "max_size" (json_number (whole c.max_size)) no_members))

unfoldable pub file_field : SchemaFileFieldConfig → String → Members → Members
file_field c title def =
    set_member "title" (json_string title)
      (typed_field c (set_member "x-file-config" (x_config c) def))

-- `entry(key).or_insert({})` with `as_object_mut`, and the same with an array
abbrev pub object_or_none : Option Value → Option Members
object_or_none none = some no_members
object_or_none (some v) = as_object v

abbrev pub array_or_none : Option Value → Option Values
array_or_none none = some no_values
array_or_none (some v) = as_array v

-- The item equals the text.
abbrev pub is_text : String → Value → Bool
is_text field (json_string s) = str_eq s field
is_text field _ = false

abbrev pub any_is_text : String → Values → Bool
any_is_text field no_values = false
any_is_text field (add_value v vs) = is_text field v || any_is_text field vs

abbrev pub add_required : String → Members → Option Values → Option Value
add_required field ms none = none
add_required field ms (some vs) = some (
    json_object (
      set_member "required"
        (json_array (if any_is_text field vs then vs else append_value (json_string field) vs)) ms))

unfoldable pub mark_required : SchemaFileFieldConfig → String → Members → Option Value
mark_required c field ms =
    if c.required
    then add_required field ms (array_or_none (member_of "required" ms))
    else some (json_object ms)

-- The members of the schema, or those of a new one in place of a value that is no object.
abbrev pub members_or_fresh : Value → Members
members_or_fresh (json_object ms) = ms
members_or_fresh _ =
    add_member "type" (json_string "object")
      (add_member "properties" (json_object no_members) no_members)

module _ (c : SchemaFileFieldConfig) (field title : String) where
  -- From the definition of the field on; `props` are the properties of the members `ms`.
  unfoldable pub on_field_def : Members → Members → Option Members → Option Value
  unfolding mark_required file_field
  on_field_def ms props none = none
  on_field_def ms props (some def) = mark_required c field (
      set_member "properties"
        (json_object (set_member field (json_object (file_field c title def)) props)) ms)

  unfoldable pub on_properties : Members → Option Members → Option Value
  unfolding on_field_def
  on_properties ms none = none
  on_properties ms (some props) = on_field_def ms props (object_or_none (member_of field props))

  unfoldable pub into_schema : Value → Option Value
  unfolding on_properties
  into_schema schema =
      on_properties (members_or_fresh schema)
        (object_or_none (member_of "properties" (members_or_fresh schema)))

abbrev pub and_then : {A B : Type 0} → Option A → (A → Option B) → Option B
and_then none f = none
and_then (some a) f = f a

abbrev pub is_file_id : Option Value → Bool
is_file_id (some (json_string s)) = str_eq s "file-id"
is_file_id _ = false

abbrev pub quota_of : Value → String → Option ℕ
quota_of field_def type =
    if str_eq type "string"
    then (if is_file_id (get_field "format" field_def) then some 1 else none)
    else if str_eq type "array"
    then and_then (get_field "maxItems" field_def) as_u64
    else none

unfoldable pub try_from_field_def : Value → Bool → Option SchemaFileFieldConfig
try_from_field_def field_def required = and_then (get_field "x-file-config" field_def) λ x.
    and_then (and_then (get_field "accept" x) as_array) λ accept.
      and_then (and_then (get_field "max_size" x) as_i64) λ max_size.
        and_then (and_then (get_field "type" field_def) as_str) λ type.
          and_then (quota_of field_def type) λ quota. some (record {
            allowed_types = strings accept;
            quota = quota;
            max_size = max_size;
            required = required;
          })

abbrev pub strings_or_default : Option Values → List String
strings_or_default none = []
strings_or_default (some vs) = strings vs

abbrev pub required_fields : Value → List String
required_fields schema = strings_or_default (and_then (get_field "required" schema) as_array)

abbrev pub contains : List String → String → Bool
contains fields field = any (λ s. str_eq s field) fields

unfoldable pub insert_if_file :
    String → Option SchemaFileFieldConfig → SchemaFileFieldConfigs → SchemaFileFieldConfigs
insert_if_file field none configs = configs
insert_if_file field (some c) configs = insert_config field c configs

-- The loop over the properties.
unfoldable pub collect_configs :
    List String → Members → SchemaFileFieldConfigs → SchemaFileFieldConfigs
unfolding insert_if_file try_from_field_def
collect_configs required no_members configs = configs
collect_configs required (add_member field field_def ms) configs =
    collect_configs required ms
      (insert_if_file field (try_from_field_def field_def (contains required field)) configs)

abbrev pub configs_of_properties : List String → Option Members → SchemaFileFieldConfigs
configs_of_properties required none = []
configs_of_properties required (some props) = collect_configs required props []

abbrev pub none_if_empty : SchemaFileFieldConfigs → Option SchemaFileFieldConfigs
none_if_empty [] = none
none_if_empty (c ∷ cs) = some (c ∷ cs)

unfoldable pub try_from_schema : Value → Option SchemaFileFieldConfigs
unfolding collect_configs
try_from_schema schema = none_if_empty (
    configs_of_properties (required_fields schema)
      (and_then (get_field "properties" schema) as_object))
