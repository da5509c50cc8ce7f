-- ===== src/Schema/Required.antt =====
-- The `required` array of a schema, to which the name of a field is added.
use cqwu_achievement_system.Prelude.{
  String, Bool, true, false, Option, none, some, str_eq, eq_iff, if◌then◌else◌, ◌≡◌, refl, sym, ap,
  subst, Bool-cases, inl, inr, arith, ◌∙◌, ◌&&◌, ◌||◌,
}
use cqwu_achievement_system.Json.{
  Value, Values, Members, no_values, add_value, member_of, set_member, json_null, json_bool,
  json_number, json_string, json_array, json_object, strings, append_value, member_of-set_member,
}
use cqwu_achievement_system.Schema.{
  SchemaFileFieldConfig, any_is_text, contains, required_fields, mark_required, add_required,
  array_or_none,
}

any_is_text-contains :
    (field : String) (vs : Values) → any_is_text field vs ≡ contains (strings vs) field
any_is_text-contains field no_values = refl
any_is_text-contains field (add_value (json_string s) vs) =
    ap (λ b. str_eq s field || b) (any_is_text-contains field vs)
any_is_text-contains field (add_value json_null vs) = any_is_text-contains field vs
any_is_text-contains field (add_value (json_bool b) vs) = any_is_text-contains field vs
any_is_text-contains field (add_value (json_number n) vs) = any_is_text-contains field vs
any_is_text-contains field (add_value (json_array ws) vs) = any_is_text-contains field vs
any_is_text-contains field (add_value (json_object ms) vs) = any_is_text-contains field vs

strings-append_value :
    (g field : String) (vs : Values)
    → contains (strings (append_value (json_string field) vs)) g
      ≡ (str_eq field g || contains (strings vs) g)
strings-append_value g field no_values = refl
strings-append_value g field (add_value (json_string s) vs) =
    ground (arith, strings-append_value g field vs)
strings-append_value g field (add_value json_null vs) = strings-append_value g field vs
strings-append_value g field (add_value (json_bool b) vs) = strings-append_value g field vs
strings-append_value g field (add_value (json_number n) vs) = strings-append_value g field vs
strings-append_value g field (add_value (json_array ws) vs) = strings-append_value g field vs
strings-append_value g field (add_value (json_object ms) vs) = strings-append_value g field vs

with_required : (field : String) (vs : Values) → Values
with_required field vs = if any_is_text field vs then vs else append_value (json_string field) vs

contains-with_required :
    (g field : String) (vs : Values)
    → contains (strings (with_required field vs)) g ≡ (str_eq field g || contains (strings vs) g)
unfolding with_required
contains-with_required g field vs = elim (Bool-cases (any_is_text field vs)) [
  | inl e ↦ rw e (elim (Bool-cases (str_eq field g)) [
    | inl k ↦ rw k (
        subst (λ t. contains (strings vs) t ≡ true) ((eq_iff field g).0 k)
          (sym (any_is_text-contains field vs) ∙ e))
    | inr k ↦ rw k refl
  ])
  | inr e ↦ rw e (strings-append_value g field vs)
]

abbrev pub is_some : {A : Type 0} → Option A → Bool
is_some none = false
is_some (some a) = true

-- The schema has no `required` that is not an array, where it is asked for.
abbrev pub takes_required : SchemaFileFieldConfig → Members → Bool
takes_required c ms = if c.required then is_some (array_or_none (member_of "required" ms)) else true

module _ (c : SchemaFileFieldConfig) (field : String) where
  -- What `mark_required` makes of the members of a schema.
  unfoldable pub Marked : Members → Option Value → Type 0
  Marked ms o =
      (m : Members) × (o ≡ some (json_object m))
      × (member_of "properties" m ≡ member_of "properties" ms)
      × ((g : String)
          → contains (required_fields (json_object m)) g
            ≡ ((c.required && str_eq field g) || contains (required_fields (json_object ms)) g))

  Marked-with :
      (ms : Members) (o : Option Value)
      → member_of "required" ms ≡ o
      → c.required ≡ true
      → is_some (array_or_none o) ≡ true
      → Marked ms (add_required field ms (array_or_none o))
  unfolding Marked with_required
  Marked-with ms none e r h = (
    set_member "required" (json_array (with_required field no_values)) ms,
    refl,
    simp (member_of-set_member),
    λ g.
        rw
          (
            member_of-set_member "required" "required" (json_array (with_required field no_values))
                ms,
            e,
            r,
          )
          refl,
  )
  Marked-with ms (some (json_array vs)) e r h = (
    set_member "required" (json_array (with_required field vs)) ms,
    refl,
    simp (member_of-set_member),
    λ g.
        rw
          (
            member_of-set_member "required" "required" (json_array (with_required field vs)) ms,
            e,
            r,
          )
          (contains-with_required g field vs),
  )
  Marked-with ms (some json_null) e r h = absurd (cc h)
  Marked-with ms (some (json_bool b)) e r h = absurd (cc h)
  Marked-with ms (some (json_number n)) e r h = absurd (cc h)
  Marked-with ms (some (json_string s)) e r h = absurd (cc h)
  Marked-with ms (some (json_object os)) e r h = absurd (cc h)

  unmarked : (ms : Members) → c.required ≡ false → Marked ms (some (json_object ms))
  unfolding Marked
  unmarked ms e = (ms, refl, refl, λ g. rw e refl)

  pub mark_required-Marked :
      (ms : Members) → takes_required c ms ≡ true → Marked ms (mark_required c field ms)
  unfolding mark_required
  mark_required-Marked ms h = by_required (c.required) refl
    where
      takes :
          c.required ≡ true
          → takes_required c ms ≡ true
          → is_some (array_or_none (member_of "required" ms)) ≡ true
      takes e h =
          subst
            (λ b. (if b then is_some (array_or_none (member_of "required" ms)) else true) ≡ true) e
            h

      by_required :
          (b : Bool)
          → c.required ≡ b
          → Marked ms (
              if b
              then add_required field ms (array_or_none (member_of "required" ms))
              else some (json_object ms))
      by_required true e = Marked-with ms (member_of "required" ms) refl e (takes e h)
      by_required false e = unmarked ms e
