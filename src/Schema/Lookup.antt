-- ===== src/Schema/Lookup.antt =====
-- Looking up the configurations of a schema: `insert` and the loop of `try_from_schema`.
use cqwu_achievement_system.Prelude.{
  String, Bool, true, false, Option, none, some, List, [], ◌∷◌, str_eq, eq_iff, if◌then◌else◌, ◌≡◌,
  refl, sym, ap, subst, Bool-cases, inl, inr, arith, ◌∙◌, arith,
}
use cqwu_achievement_system.Json.{
  Value, Members, no_members, add_member, member_of, has_member, distinct, absorbed, str_eq_trans,
  get_field, as_object,
}
use cqwu_achievement_system.Schema.{
  SchemaFileFieldConfig, SchemaFileFieldConfigs, field_of, insert_config, insert_if_file,
  collect_configs, contains, try_from_field_def, and_then, required_fields, try_from_schema,
  configs_of_properties, none_if_empty,
}

apart : {b : Bool} → b ≡ false → b ≡ true → ⊥
apart h k = ground arith

pub field_of-insert_config :
    (g field : String) (c : SchemaFileFieldConfig) (cs : SchemaFileFieldConfigs)
    → field_of g (insert_config field c cs) ≡ (if str_eq field g then some c else field_of g cs)
unfolding field_of insert_config
field_of-insert_config g field c [] = refl
field_of-insert_config g field c (p ∷ ps) = elim (Bool-cases (str_eq p.0 field)) [
  | inl e ↦ rw e (
      subst
        (λ t.
          (if str_eq t g then some c else field_of g ps)
          ≡ (if str_eq field g then some c else if str_eq t g then some p.1 else field_of g ps))
        (sym ((eq_iff p.0 field).0 e))
        (absorbed (str_eq field g) (some c) (some p.1) (field_of g ps)))
  | inr e ↦ rw e (elim (Bool-cases (str_eq p.0 g)) [
    | inl k ↦ rw k (elim (Bool-cases (str_eq field g)) [
      | inl l ↦ absurd (apart e (str_eq_trans p.0 g field k l))
      | inr l ↦ rw l refl
    ])
    | inr k ↦ rw k (field_of-insert_config g field c ps)
  ])
]

abbrev pub or_default :
    Option SchemaFileFieldConfig → Option SchemaFileFieldConfig → Option SchemaFileFieldConfig
or_default none d = d
or_default (some c) d = some c

-- The configuration that a property of the name `g` has, or else `d`.
abbrev pub found :
    List String
    → String
    → Option Value
    → Option SchemaFileFieldConfig
    → Option SchemaFileFieldConfig
found required g none d = d
found required g (some v) d = or_default (try_from_field_def v (contains required g)) d

member_of-missing : (g : String) (ms : Members) → has_member g ms ≡ false → member_of g ms ≡ none
unfolding member_of
member_of-missing g no_members h = refl
member_of-missing g (add_member name v ms) h = elim (Bool-cases (str_eq name g)) [
  | inl e ↦ absurd (apart h (rw e refl))
  | inr e ↦ rw e (member_of-missing g ms (rest (str_eq name g) e h))
]
  where
    rest :
        (b : Bool)
        → b ≡ false
        → (if b then true else has_member g ms) ≡ false
        → has_member g ms ≡ false
    rest b e h = ground arith

field_of-insert_if_file :
    (g name : String) (o : Option SchemaFileFieldConfig) (acc : SchemaFileFieldConfigs)
    → field_of g (insert_if_file name o acc)
      ≡ (if str_eq name g then or_default o (field_of g acc) else field_of g acc)
unfolding insert_if_file
field_of-insert_if_file g name none acc = elim (Bool-cases (str_eq name g)) [
  | inl e ↦ rw e refl
  | inr e ↦ rw e refl
]
field_of-insert_if_file g name (some c) acc = field_of-insert_config g name c acc

head-distinct : (b d : Bool) → (if b then false else d) ≡ true → (b ≡ false) × (d ≡ true)
head-distinct b d h = (ground arith, ground arith)

pub field_of-collect_configs :
    (required : List String) (g : String) (ms : Members) (acc : SchemaFileFieldConfigs)
    → distinct ms ≡ true
    → field_of g (collect_configs required ms acc)
      ≡ found required g (member_of g ms) (field_of g acc)
unfolding collect_configs member_of
field_of-collect_configs required g no_members acc h = refl
field_of-collect_configs required g (add_member name v ms) acc h =
    field_of-collect_configs required g ms _ (head-distinct (has_member name ms) (distinct ms) h).1
    ∙ rw (field_of-insert_if_file g name (try_from_field_def v (contains required name)) acc)
        (elim (Bool-cases (str_eq name g)) [
          | inl e ↦
              rw (e, gone ((eq_iff name g).0 e))
                (ap (λ t. or_default (try_from_field_def v (contains required t)) (field_of g acc))
                  ((eq_iff name g).0 e))
          | inr e ↦ rw e refl
        ])
  where
    gone : name ≡ g → member_of g ms ≡ none
    gone e = member_of-missing g ms (
        subst (λ t. has_member t ms ≡ false) e
          (head-distinct (has_member name ms) (distinct ms) h).0)

-- The configuration of a field in those of a schema.
abbrev pub config_of : String → Option SchemaFileFieldConfigs → Option SchemaFileFieldConfig
config_of g none = none
config_of g (some cs) = field_of g cs

abbrev pub properties : Value → Option Members
properties schema = and_then (get_field "properties" schema) as_object

abbrev pub distinct_properties : Option Members → Bool
distinct_properties none = true
distinct_properties (some ms) = distinct ms

config_of-none_if_empty :
    (g : String) (cs : SchemaFileFieldConfigs) → config_of g (none_if_empty cs) ≡ field_of g cs
unfolding field_of
config_of-none_if_empty g [] = refl
config_of-none_if_empty g (c ∷ cs) = refl

field_of-configs :
    (required : List String) (g : String) (o : Option Members)
    → distinct_properties o ≡ true
    → field_of g (configs_of_properties required o)
      ≡ found required g (and_then o (member_of g)) none
unfolding field_of
field_of-configs required g none h = refl
field_of-configs required g (some ms) h = field_of-collect_configs required g ms [] h

-- The configuration of a field is read off the property of its name.
pub config_of-try_from_schema :
    (schema : Value) (g : String)
    → distinct_properties (properties schema) ≡ true
    → config_of g (try_from_schema schema)
      ≡ found (required_fields schema) g (and_then (properties schema) (member_of g)) none
unfolding try_from_schema
config_of-try_from_schema schema g h =
    config_of-none_if_empty g (configs_of_properties (required_fields schema) (properties schema))
    ∙ field_of-configs (required_fields schema) g (properties schema) h
