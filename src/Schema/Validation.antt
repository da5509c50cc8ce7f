-- ===== src/Schema/Validation.antt =====
-- The validation of a template's schema and of the types of files: `TemplateSchema::validate`,
-- `validate_instance`, `deserialize_allowed_types` and `validate_allowed_types` of
-- src/domain/schema.rs. The JSON schema library and `trim` are parameters.
use Prim.Native.Char.{Char, code}
use Prim.Native.String.{◌++◌ as text_append, [] as empty_text, ◌∷◌ as text_cons}
use cqwu_achievement_system.Prelude.{
  String, Bool, false, Option, none, some, List, [], ◌∷◌, str_eq, ◌&&◌, ◌||◌, leb, ◌==◌,
  if◌then◌else◌,
}
use cqwu_achievement_system.Effect.{Result, ok, err}
use cqwu_achievement_system.Json.{
  Value, Values, Members, json_string, json_array, json_object, no_values, add_value, no_members,
  add_member, member_of, get_field, as_object,
}
use cqwu_achievement_system.Schema.{and_then}

-- `TemplateSchema`
pub record TemplateSchema : Type 0 where
  pub schema_def : Value
  pub instance_value : Option Value

-- `ValidationError` of the validator, with its code and its message
pub record ValidationError : Type 0 where
  pub code : String
  pub message : String

-- The messages of the properties that are refused.
unfoldable pub refused_fields : Members → String
refused_fields no_members = ""
refused_fields (add_member field (json_object def) ms) = elim (member_of "x-config-file" def) [
  | some x ↦ text_append "不允许自主定义" (text_append field (text_append "为一个文件类型\n" (refused_fields ms)))
  | none ↦ refused_fields ms
]
refused_fields (add_member field _ ms) = refused_fields ms

abbrev pub guard_properties : Option Members → Result ValidationError Unit
guard_properties none = ok tt
guard_properties (some props) =
    if str_eq (refused_fields props) ""
    then ok tt
    else err (record { code = "invalid_json_schema"; message = refused_fields props })

-- `join("; ")`
abbrev pub join : List String → String
join [] = ""
join (t ∷ []) = t
join (t ∷ u ∷ us) = text_append t (text_append "; " (join (u ∷ us)))

-- The JSON schema library: `validator_for`, which gives a validator or a text, and `iter_errors` with
-- the texts of the errors.
pub record JsonSchema (V : Type 0) : Type 0 where
  pub validator_for : Value → Result String V
  pub iter_errors : V → Value → List String

module _ {V : Type 0} (library : JsonSchema V) where
  abbrev on_errors : List String → Result ValidationError Unit
  on_errors [] = ok tt
  on_errors (e ∷ es) = err (record {
    code = "instance_validation_failed";
    message = text_append "Schema校验失败: " (join (e ∷ es));
  })

  unfoldable pub validate_instance : V → Value → Result ValidationError Unit
  validate_instance validator json = on_errors (library.iter_errors validator json)

  abbrev pub validate_optional : V → Option Value → Result ValidationError Unit
  validate_optional validator none = ok tt
  validate_optional validator (some json) = validate_instance validator json

  abbrev pub on_guarded :
      Result ValidationError Unit → V → Option Value → Result ValidationError Unit
  on_guarded (err e) validator json = err e
  on_guarded (ok u) validator json = validate_optional validator json

  abbrev pub on_validator : TemplateSchema → Result String V → Result ValidationError Unit
  on_validator t (err e) =
      err (record { code = "invalid_json_schema"; message = text_append "无效的JSON Schema: " e })
  on_validator t (ok validator) =
      on_guarded (guard_properties (and_then (get_field "properties" t.schema_def) as_object))
        validator t.instance_value

  unfoldable pub validate : TemplateSchema → Result ValidationError Unit
  unfolding validate_instance refused_fields
  validate t = on_validator t (library.validator_for t.schema_def)

abbrev is_alnum : Char → Bool
is_alnum c =
    (leb b'a' (code c) && leb (code c) b'z')
    || (leb b'A' (code c) && leb (code c) b'Z')
    || (leb b'0' (code c) && leb (code c) b'9')

-- One character or more, each a letter or a digit.
abbrev pub some_alnum : String → Bool
some_alnum empty_text = false
some_alnum (text_cons c empty_text) = is_alnum c
some_alnum (text_cons c (text_cons d text)) = is_alnum c && some_alnum (text_cons d text)

-- FILE_TYPE_REGEX
abbrev pub is_file_type : String → Bool
is_file_type empty_text = false
is_file_type (text_cons c text) = (code c == b'.') && some_alnum text

module _ (trim : String → String) where
  unfoldable pub type_errors : List String → String
  type_errors [] = ""
  type_errors (t ∷ ts) =
      if is_file_type (trim t)
      then type_errors ts
      else text_append "无效的文件类型格式: " (text_append (trim t) (text_append "\n" (type_errors ts)))

  unfoldable pub validate_allowed_types : List String → Result ValidationError Unit
  unfolding type_errors
  validate_allowed_types types =
      if str_eq (type_errors types) ""
      then ok tt
      else err (record { code = "invalid_file_type"; message = type_errors types })

abbrev cons_type : String → Result String (List String) → Result String (List String)
cons_type t (ok ts) = ok (t ∷ ts)
cons_type t (err e) = err e

unfoldable pub types_of_items : Values → Result String (List String)
types_of_items no_values = ok []
types_of_items (add_value (json_string t) vs) = cons_type t (types_of_items vs)
types_of_items (add_value _ vs) = err "allowed_types must contain only strings"

unfoldable pub deserialize_allowed_types : Value → Result String (List String)
unfolding types_of_items
deserialize_allowed_types (json_array vs) = types_of_items vs
deserialize_allowed_types (json_object no_members) = ok []
deserialize_allowed_types _ = err "allowed_types must be an array of strings"
