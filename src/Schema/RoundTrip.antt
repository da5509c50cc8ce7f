-- ===== src/Schema/RoundTrip.antt =====
-- A file field that is written to a schema is read back: `into_schema` and `try_from_schema`.
use cqwu_achievement_system.Prelude.{
  String, Bool, true, false, Option, none, some, List, str_eq, eq_iff, if◌then◌else◌, ◌≡◌, refl,
  sym, ap, subst, Bool-cases, inl, inr, arith, ◌∙◌, ltb, ◌^◌, ◌&&◌, ◌||◌, and_left, and_right,
}
use cqwu_achievement_system.Json.{
  Value, Members, no_members, member_of, set_member, as_object, in_i64, json_null, json_bool,
  json_number, json_string, json_array, json_object, member_of-set_member, distinct,
  distinct-set_member, str_eq_refl,
}
use cqwu_achievement_system.Schema.{
  SchemaFileFieldConfig, file_field, try_from_field_def, contains, required_fields, object_or_none,
  on_properties, on_field_def, members_or_fresh, into_schema, try_from_schema, collect_configs,
  and_then,
}
use cqwu_achievement_system.Schema.Lookup.{
  config_of, found, or_default, properties, distinct_properties, config_of-try_from_schema,
}
use cqwu_achievement_system.Schema.FieldDef.{try_from-file_field}
use cqwu_achievement_system.Schema.Required.{is_some, takes_required, Marked, mark_required-Marked}

-- The parts of a schema that `into_schema` changes have the shapes that it expects, or are missing.
module _ (c : SchemaFileFieldConfig) (field title : String) where
  abbrev accepts_field : Option Members → Bool
  accepts_field none = false
  accepts_field (some props) = is_some (object_or_none (member_of field props))

  abbrev accepts_members : Members → Bool
  accepts_members ms =
      accepts_field (object_or_none (member_of "properties" ms)) && takes_required c ms

  abbrev pub accepts : Value → Bool
  accepts schema = accepts_members (members_or_fresh schema)

-- Whether the schema asks for the field.
abbrev pub is_required : String → Value → Bool
is_required field schema = contains (required_fields schema) field

-- The members that `into_schema` makes of those of a schema.
module _ (c : SchemaFileFieldConfig) (field title : String) (ms : Members) where
  written : Members → Members → Value
  written props def = json_object (set_member field (json_object (file_field c title def)) props)

  Written : Members → Option Value → Type 0
  Written props o =
      (m : Members) × (def : Members) × (o ≡ some (json_object m))
      × (member_of "properties" m ≡ some (written props def))
      × ((g : String)
          → is_required g (json_object m)
            ≡ ((c.required && str_eq field g) || is_required g (json_object ms)))

  on_field_def-Written :
      (props : Members) (o : Option Members)
      → takes_required c ms ≡ true
      → is_some o ≡ true
      → Written props (on_field_def c field title ms props o)
  unfolding on_field_def Written written Marked
  on_field_def-Written props none h k = absurd (cc k)
  on_field_def-Written props (some def) h k =
      let marked =
        mark_required-Marked c field (set_member "properties" (written props def) ms)
          (simp (member_of-set_member, h)) in
      (
        marked.0,
        def,
        marked.1,
        marked.2 ∙ simp (member_of-set_member),
        λ g. marked.3 g ∙ simp (member_of-set_member),
      )

  on_properties-Written :
      (o : Option Members)
      → accepts_field c field title o ≡ true
      → takes_required c ms ≡ true
      → (props : Members) × (o ≡ some props) × Written props (on_properties c field title ms o)
  unfolding on_properties
  on_properties-Written none k h = absurd (cc k)
  on_properties-Written (some props) k h =
      (props, refl, on_field_def-Written props (object_or_none (member_of field props)) h k)

props_of :
    (ms props : Members)
    → object_or_none (member_of "properties" ms) ≡ some props
    → distinct_properties (properties (json_object ms)) ≡ true
    → (distinct props ≡ true)
      × ((g : String)
          → config_of g (try_from_schema (json_object ms))
            ≡ found (required_fields (json_object ms)) g (member_of g props) none)
unfolding member_of
props_of ms props h d =
    by_member (member_of "properties" ms) h d λ g. config_of-try_from_schema (json_object ms) g d
  where
    by_member :
        (o : Option Value)
        → object_or_none o ≡ some props
        → distinct_properties (and_then o as_object) ≡ true
        → ((g : String)
            → config_of g (try_from_schema (json_object ms))
              ≡ found
                  (required_fields (json_object ms))
                  g
                  (and_then (and_then o as_object) (member_of g))
                  none)
        → (distinct props ≡ true)
          × ((g : String)
              → config_of g (try_from_schema (json_object ms))
                ≡ found (required_fields (json_object ms)) g (member_of g props) none)
    by_member none h d k =
        subst
          (λ t.
            (distinct t ≡ true)
            × ((g : String)
                → config_of g (try_from_schema (json_object ms))
                  ≡ found (required_fields (json_object ms)) g (member_of g t) none))
          {x = no_members} {y = props} (ground arith) (refl, k)
    by_member (some v) h d k = (
      subst (λ o. distinct_properties o ≡ true) h d,
      λ g.
          k g
          ∙ ap (λ o. found (required_fields (json_object ms)) g (and_then o (member_of g)) none) h,
    )

config_of-fresh :
    (schema : Value) (g : String)
    → config_of g (try_from_schema (json_object (members_or_fresh schema)))
      ≡ config_of g (try_from_schema schema)
unfolding try_from_schema member_of collect_configs
config_of-fresh (json_object ms) g = refl
config_of-fresh json_null g = refl
config_of-fresh (json_bool b) g = refl
config_of-fresh (json_number n) g = refl
config_of-fresh (json_string s) g = refl
config_of-fresh (json_array vs) g = refl

is_required-fresh :
    (schema : Value) (g : String)
    → is_required g (json_object (members_or_fresh schema)) ≡ is_required g schema
unfolding member_of
is_required-fresh (json_object ms) g = refl
is_required-fresh json_null g = refl
is_required-fresh (json_bool b) g = refl
is_required-fresh (json_number n) g = refl
is_required-fresh (json_string s) g = refl
is_required-fresh (json_array vs) g = refl

distinct-fresh :
    (schema : Value)
    → distinct_properties (properties schema) ≡ true
    → distinct_properties (properties (json_object (members_or_fresh schema))) ≡ true
unfolding member_of
distinct-fresh (json_object ms) h = h
distinct-fresh json_null h = refl
distinct-fresh (json_bool b) h = refl
distinct-fresh (json_number n) h = refl
distinct-fresh (json_string s) h = refl
distinct-fresh (json_array vs) h = refl

-- The conditions under which a configuration is read back as it was written: the numbers of the source
-- have 64 bits.
abbrev pub fits : SchemaFileFieldConfig → Bool
fits c = in_i64 c.max_size && ltb c.quota (2 ^ 64)

module _ (c : SchemaFileFieldConfig) (field title : String) where
  read-written :
      (ms m props def : Members) (g : String)
      → fits c ≡ true
      → distinct props ≡ true
      → member_of "properties" m ≡ some (written c field title ms props def)
      → config_of g (try_from_schema (json_object m)) ≡ (
          if str_eq field g
          then some (record c { required = is_required field (json_object m) })
          else found (required_fields (json_object m)) g (member_of g props) none)
  unfolding written
  read-written ms m props def g f d e =
      config_of-try_from_schema (json_object m) g
        (rw e (distinct-set_member field (json_object (file_field c title def)) props d))
      ∙ rw (e, member_of-set_member g field (json_object (file_field c title def)) props)
          (elim (Bool-cases (str_eq field g)) [
            | inl k ↦
                rw
                  (
                    k,
                    try_from-file_field c title def (contains (required_fields (json_object m)) g)
                        (and_left (in_i64 c.max_size) (ltb c.quota (2 ^ 64)) f)
                        (and_right (in_i64 c.max_size) (ltb c.quota (2 ^ 64)) f),
                  )
                  (ap (λ t. some (record c { required = is_required t (json_object m) }))
                    (sym ((eq_iff field g).0 k)))
            | inr k ↦ rw k refl
          ])

-- The configurations of a schema once a file field is written to it: the field has its own, and is
-- required if it was or is to be; each other field has the one that it had.
module _ (c : SchemaFileFieldConfig) (field title : String) where
  abbrev pub after_write : Value → String → Option SchemaFileFieldConfig
  after_write schema g =
      if str_eq field g
      then some (record c { required = c.required || is_required field schema })
      else config_of g (try_from_schema schema)

  -- What the schema says after the writing, from what it says of the field and of the others.
  after-cases :
      (m : Members) (props : Members) (schema : Value) (g : String)
      → ((h : String)
          → is_required h (json_object m)
            ≡ ((c.required && str_eq field h) || is_required h schema))
      → config_of g (try_from_schema schema)
        ≡ found (required_fields schema) g (member_of g props) none
      → (if str_eq field g
          then some (record c { required = is_required field (json_object m) })
          else found (required_fields (json_object m)) g (member_of g props) none)
        ≡ after_write schema g
  after-cases m props schema g r o = elim (Bool-cases (str_eq field g)) [
    | inl k ↦ rw (k, r field, str_eq_refl field, and_true c.required) refl
    | inr k ↦
        rw (k, o) (found-same _ _ (member_of g props) (r g ∙ rw (k, and_false c.required) refl))
  ]
    where
      and_true : (b : Bool) → (b && true) ≡ b
      and_true b = ground arith

      and_false : (b : Bool) → (b && false) ≡ false
      and_false b = ground arith

      found-same :
          (a b : List String) (v : Option Value)
          → contains a g ≡ contains b g
          → found a g v none ≡ found b g v none
      found-same a b none e = refl
      found-same a b (some v) e = ap (λ t. or_default (try_from_field_def v t) none) e

  after_members :
      (ms : Members)
      → fits c ≡ true
      → accepts_members c field title ms ≡ true
      → distinct_properties (properties (json_object ms)) ≡ true
      → (m : Members) × (on_properties c field title ms (object_or_none (member_of "properties" ms))
          ≡ some (json_object m))
        × ((g : String)
            → config_of g (try_from_schema (json_object m)) ≡ after_write (json_object ms) g)
  unfolding Written
  after_members ms f a d =
      let o = object_or_none (member_of "properties" ms) in
      let w =
        on_properties-Written c field title ms o
          (and_left (accepts_field c field title o) (takes_required c ms) a)
          (and_right (accepts_field c field title o) (takes_required c ms) a) in
      let old = props_of ms w.0 w.1 d in
      (
        w.2.0,
        w.2.2,
        λ g.
            read-written c field title ms w.2.0 w.0 w.2.1 g f old.0 w.2.3
            ∙ after-cases w.2.0 w.0 (json_object ms) g w.2.4 (old.1 g),
      )

-- Writing a file field to a schema whose changed parts have the shapes that are expected, and in
-- which no property stands twice, gives a schema from which `try_from_schema` reads the field's
-- configuration as it was written, required if it was marked or already required, and the
-- configuration of each other field as before; the sizes have the 64 bits of the source.
pub into_schema-read_back :
    (c : SchemaFileFieldConfig) (field title : String) (schema : Value)
    → fits c ≡ true
    → accepts c field title schema ≡ true
    → distinct_properties (properties schema) ≡ true
    → (s : Value) × (into_schema c field title schema ≡ some s)
      × ((g : String)
          → config_of g (try_from_schema s) ≡ (
              if str_eq field g
              then some (record c { required = c.required || is_required field schema })
              else config_of g (try_from_schema schema)))
unfolding into_schema
into_schema-read_back c field title schema f a d =
    let w = after_members c field title (members_or_fresh schema) f a (distinct-fresh schema d) in
    (
      json_object w.0,
      w.1,
      λ g. w.2 g ∙ rw (is_required-fresh schema field, config_of-fresh schema g) refl,
    )
