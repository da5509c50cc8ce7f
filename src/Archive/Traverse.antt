-- ===== src/Archive/Traverse.antt =====
-- What `create_files_record` keeps: the files that it processes are those that the data names.
use cqwu_achievement_system.Prelude.{
  String, Bool, true, Option, none, some, List, [], ◌∷◌, str_eq, ◌==◌, ◌||◌, ◌≡◌, refl, sym,
  or_left, or_right, or-cases, inl, inr, Bool-cases, arith, subst,
}
use cqwu_achievement_system.Effect.{Result, ok, err, lift, ◌>>◌, Preserves, >>=-Preserves}
use cqwu_achievement_system.Errors.{AppError}
use cqwu_achievement_system.Json.{
  Value, Values, json_null, json_bool, json_number, json_string, json_array, json_object, no_values,
  add_value, get_field, str_eq_refl,
}
use cqwu_achievement_system.Schema.{SchemaFileFieldConfig, SchemaFileFieldConfigs}
use cqwu_achievement_system.Server.{Server}
use cqwu_achievement_system.Archive.{try_parse_file_id, member_id}
use cqwu_achievement_system.Archive.Keys.{is_id, item_named, named_by, field_named}
use cqwu_achievement_system.Archive.Files.{
  Objects, process_single_file, process_files, process_one, process_many, process_array,
  process_field, create_files_record, parse_ids, id_of_value, check_unique, check_not_empty,
  cons_id, invalid_item,
}

module _ (parse_str : String → Option String) (debug : Value → String) where
  -- The ids of an array are named by its items.
  parse_ids-named :
      (field : String) (vs : Values) (ids : List String)
      → parse_ids parse_str debug field vs ≡ ok ids
      → (id : String) → member_id id ids ≡ true
      → item_named parse_str id vs ≡ true
  unfolding parse_ids
  parse_ids-named field no_values ids e id m = absurd (empty ids e m)
    where
      empty :
          (ids : List String)
          → ◌≡◌ {A = Result AppError (List String)} (ok []) (ok ids)
          → member_id id ids ≡ true
          → ⊥
      empty [] e m = cc m
      empty (i ∷ is) e m = cc e
  parse_ids-named field (add_value v vs) ids e id m =
      by_item (try_parse_file_id parse_str v) (parse_ids parse_str debug field vs) e
        (parse_ids-named field vs)
    where
      same :
          (xs ys : List String) → ◌≡◌ {A = Result AppError (List String)} (ok xs) (ok ys) → xs ≡ ys
      same xs ys e = ground arith

      by_item :
          (o : Option String) (r : Result AppError (List String))
          → cons_id (invalid_item field (debug v)) o r ≡ ok ids
          → ((js : List String)
              → r ≡ ok js
              → (i : String) → member_id i js ≡ true
              → item_named parse_str i vs ≡ true)
          → (is_id id o || item_named parse_str id vs) ≡ true
      by_item none r e h = absurd (cc e)
      by_item (some i) (err x) e h = absurd (cc e)
      by_item (some i) (ok js) e h =
          elim (or-cases (str_eq id i) (member_id id js)
            (subst (λ t. member_id id t ≡ true) (sym (same (i ∷ js) ids e)) m)) [
              | inl k ↦ or_left (str_eq id i) (item_named parse_str id vs) k
              | inr k ↦ or_right (str_eq id i) (item_named parse_str id vs) (h js refl id k)
            ]

module _ {S P V : Type 0} (I : Server S P V → Type 0) (objects : Objects S)
    (record_id session_id user_id : String) where
  abbrev pub Step : String → Type 0
  Step id =
      Preserves I
        (process_single_file {S = S} {P = P} {V = V} objects record_id session_id user_id id)

  process_files-Preserves :
      (ids : List String)
      → ((id : String) → member_id id ids ≡ true → Step id)
      → Preserves I (process_files objects record_id session_id user_id ids)
  unfolding process_files
  process_files-Preserves [] h = λ w k. k
  process_files-Preserves (i ∷ is) h =
      >>=-Preserves I (process_single_file objects record_id session_id user_id i) _
        (h i (or_left (str_eq i i) (member_id i is) (str_eq_refl i)))
        (λ u. process_files-Preserves is λ id m. h id (or_right (str_eq id i) (member_id id is) m))

  module _ (parse_str : String → Option String) (debug : Value → String) where
    process_many-Preserves :
        (field : String) (required : Bool) (vs : Values) (r : Result AppError (List String))
        → parse_ids parse_str debug field vs ≡ r
        → ((id : String) → item_named parse_str id vs ≡ true → Step id)
        → Preserves I (process_many objects record_id session_id user_id field required r)
    process_many-Preserves field required vs (err e) p h = λ w k. k
    process_many-Preserves field required vs (ok ids) p h =
        >>=-Preserves I
          (lift (check_not_empty field required ids) >> lift (check_unique field [] ids)) _
          (>>=-Preserves I (lift (check_not_empty field required ids))
            (λ u. lift (check_unique field [] ids)) (λ w k. k) (λ u w k. k))
          (λ u.
            process_files-Preserves ids
              λ id m. h id (parse_ids-named parse_str debug field vs ids p id m))

    process_array-Preserves :
        (field : String) (required : Bool) (o : Option Value)
        → ((id : String) → named_by parse_str id o ≡ true → Step id)
        → Preserves I
            (process_array objects record_id session_id user_id parse_str debug field required o)
    process_array-Preserves field required none h = λ w k. k
    process_array-Preserves field required (some json_null) h = λ w k. k
    process_array-Preserves field required (some (json_bool b)) h = λ w k. k
    process_array-Preserves field required (some (json_number n)) h = λ w k. k
    process_array-Preserves field required (some (json_string s)) h = λ w k. k
    process_array-Preserves field required (some (json_object ms)) h = λ w k. k
    process_array-Preserves field required (some (json_array vs)) h =
        process_many-Preserves field required vs (parse_ids parse_str debug field vs) refl h

    -- The ids that a field's value names are enough.
    process_field-Preserves :
        (c : SchemaFileFieldConfig) (field : String) (o : Option Value)
        → ((id : String) → named_by parse_str id o ≡ true → Step id)
        → Preserves I (process_field objects record_id session_id user_id parse_str debug c field o)
    process_field-Preserves c field o h = elim (Bool-cases (c.quota == 1)) [
      | inl e ↦ rw e (single o h)
      | inr e ↦ rw e (process_array-Preserves field c.required o h)
    ]
      where
        of_id :
            (i : Option String)
            → ((id : String) → is_id id i ≡ true → Step id)
            → Preserves I (process_one objects record_id session_id user_id field c.required i)
        of_id none h = λ w k. k
        of_id (some i) h = h i (str_eq_refl i)

        single :
            (o : Option Value)
            → ((id : String) → named_by parse_str id o ≡ true → Step id)
            → Preserves I (
                process_one objects record_id session_id user_id field c.required
                  (id_of_value parse_str o))
        single none h = λ w k. k
        single (some json_null) h = λ w k. k
        single (some (json_bool b)) h = λ w k. k
        single (some (json_number n)) h = λ w k. k
        single (some (json_string s)) h = of_id (parse_str s) h
        single (some (json_array vs)) h = λ w k. k
        single (some (json_object ms)) h = λ w k. k

    -- A property that each processing of a file that the data names keeps.
    pub create_files_record-Preserves :
        (cs : SchemaFileFieldConfigs) (json : Value)
        → ((id : String) → field_named parse_str id json cs ≡ true → Step id)
        → Preserves I
            (create_files_record objects record_id session_id user_id parse_str debug cs json)
    unfolding create_files_record
    create_files_record-Preserves [] json h = λ w k. k
    create_files_record-Preserves (p ∷ ps) json h =
        >>=-Preserves I
          (process_field objects record_id session_id user_id parse_str debug p.1 p.0
            (get_field p.0 json))
          _
          (process_field-Preserves p.1 p.0 (get_field p.0 json) λ id m. h id (
            or_left (named_by parse_str id (get_field p.0 json)) (field_named parse_str id json ps)
              m))
          (λ u. create_files_record-Preserves ps json λ id m. h id (
            or_right (named_by parse_str id (get_field p.0 json)) (field_named parse_str id json ps)
              m))
