-- ===== src/Schema/FieldDef.antt =====
-- The definition that is written for a file field: `try_from_field_def` reads it back.
use cqwu_achievement_system.Prelude.{
  String, Bool, true, false, some, List, [], ◌∷◌, if◌then◌else◌, ◌≡◌, refl, sym, ap, Bool-cases,
  inl, inr, ltb, ◌^◌, ◌==◌, ==→eq,
}
use cqwu_achievement_system.Json.{
  pos, whole, Members, member_of, in_i64, json_number, json_string, json_object, texts, strings,
  member_of-set_member,
}
use cqwu_achievement_system.Schema.{SchemaFileFieldConfig, file_field, try_from_field_def, x_config}

strings-texts : (ts : List String) → strings (texts ts) ≡ ts
strings-texts [] = refl
strings-texts (t ∷ ts) = ap (◌∷◌ t) (strings-texts ts)

module _ (c : SchemaFileFieldConfig) (title : String) (def : Members) where
  member_of-file_field :
      (member_of "x-file-config" (file_field c title def) ≡ some (x_config c))
      × (member_of "type" (file_field c title def)
          ≡ some (json_string (if c.quota == 1 then "string" else "array")))
      × ((c.quota == 1) ≡ true
          → member_of "format" (file_field c title def) ≡ some (json_string "file-id"))
      × ((c.quota == 1) ≡ false
          → member_of "maxItems" (file_field c title def)
            ≡ some (json_number (whole (pos c.quota))))
  unfolding file_field
  member_of-file_field = elim (Bool-cases (c.quota == 1)) [
    | inl e ↦ rw e (
      simp (member_of-set_member),
      simp (member_of-set_member),
      λ h. simp (member_of-set_member),
      λ h. absurd (cc h),
    )
    | inr e ↦ rw e (
      simp (member_of-set_member),
      simp (member_of-set_member),
      λ h. absurd (cc h),
      λ h. simp (member_of-set_member),
    )
  ]

-- The configuration is read back from the definition that was written for it.
pub try_from-file_field :
    (c : SchemaFileFieldConfig) (title : String) (def : Members) (required : Bool)
    → in_i64 c.max_size ≡ true
    → ltb c.quota (2 ^ 64) ≡ true
    → try_from_field_def (json_object (file_field c title def)) required
      ≡ some (record c { required = required })
unfolding try_from_field_def member_of
try_from-file_field c title def required size quota = elim (Bool-cases (c.quota == 1)) [
  | inl e ↦
      rw
        (
          (member_of-file_field c title def).0,
          (member_of-file_field c title def).1,
          (member_of-file_field c title def).2 e,
          e,
          size,
          strings-texts c.allowed_types,
          sym (==→eq c.quota 1 e),
        )
        refl
  | inr e ↦
      rw
        (
          (member_of-file_field c title def).0,
          (member_of-file_field c title def).1,
          (member_of-file_field c title def).3 e,
          e,
          size,
          strings-texts c.allowed_types,
          quota,
        )
        refl
]
