-- ===== src/Archive/Keys.antt =====
-- The keys of a record's files.
use cqwu_achievement_system.Prelude.{
  String, Bool, true, false, not, Option, none, some, List, [], ◌∷◌, ◌++◌, str_eq, eq_iff, ◌&&◌,
  ◌≡◌, refl, sym, arith, map, ap, Bool-cases, inl, inr, ◌||◌, subst,
}
use cqwu_achievement_system.Json.{
  Value, json_null, json_bool, json_number, json_string, json_array, json_object, Values, no_values,
  add_value, get_field, str_neq_sym,
}
use cqwu_achievement_system.Schema.{SchemaFileFieldConfig}
use cqwu_achievement_system.Archive.{
  member_id, try_parse_file_id, insert_id, insert_items, insert_value, collect_ids, keys_of_ids,
  build_archive_dest_key, collect_archive_object_keys_from_data,
}

-- No id stands in the list twice.
abbrev pub no_repeats : List String → Bool
no_repeats [] = true
no_repeats (x ∷ xs) = not (member_id x xs) && no_repeats xs

member_id-append :
    (x i : String) (xs : List String)
    → member_id x xs ≡ false
    → str_eq x i ≡ false
    → member_id x (xs ++ i ∷ []) ≡ false
member_id-append x i [] h k = ground arith
member_id-append x i (y ∷ ys) h k = ground (arith, member_id-append x i ys)

no_repeats-append :
    (i : String) (xs : List String)
    → member_id i xs ≡ false
    → no_repeats xs ≡ true
    → no_repeats (xs ++ i ∷ []) ≡ true
no_repeats-append i [] h k = refl
no_repeats-append i (x ∷ xs) h k =
    ground (arith, no_repeats-append i xs, member_id-append x i xs, str_neq_sym i x)

module _ (parse_str : String → Option String) where
  insert_id-no_repeats :
      (o : Option String) (ids : List String)
      → no_repeats ids ≡ true
      → no_repeats (insert_id parse_str o ids) ≡ true
  unfolding insert_id
  insert_id-no_repeats none ids h = h
  insert_id-no_repeats (some i) ids h = elim (Bool-cases (member_id i ids)) [
    | inl e ↦ rw e h
    | inr e ↦ rw e (no_repeats-append i ids e h)
  ]

  insert_items-no_repeats :
      (vs : Values) (ids : List String)
      → no_repeats ids ≡ true
      → no_repeats (insert_items parse_str vs ids) ≡ true
  unfolding insert_items
  insert_items-no_repeats no_values ids h = h
  insert_items-no_repeats (add_value v vs) ids h =
      insert_items-no_repeats vs _ (insert_id-no_repeats (try_parse_file_id parse_str v) ids h)

  insert_value-no_repeats :
      (o : Option Value) (ids : List String)
      → no_repeats ids ≡ true
      → no_repeats (insert_value parse_str o ids) ≡ true
  unfolding insert_value
  insert_value-no_repeats none ids h = h
  insert_value-no_repeats (some json_null) ids h = h
  insert_value-no_repeats (some (json_bool b)) ids h = h
  insert_value-no_repeats (some (json_number n)) ids h = h
  insert_value-no_repeats (some (json_string s)) ids h = insert_id-no_repeats (parse_str s) ids h
  insert_value-no_repeats (some (json_array vs)) ids h = insert_items-no_repeats vs ids h
  insert_value-no_repeats (some (json_object ms)) ids h = h

  collect_ids-no_repeats :
      (cs : List (String × SchemaFileFieldConfig)) (json : Value) (ids : List String)
      → no_repeats ids ≡ true
      → no_repeats (collect_ids parse_str cs json ids) ≡ true
  unfolding collect_ids
  collect_ids-no_repeats [] json ids h = h
  collect_ids-no_repeats (c ∷ cs) json ids h =
      collect_ids-no_repeats cs json _ (insert_value-no_repeats (get_field c.0 json) ids h)

-- An id that a value names, by itself or in an array.
abbrev pub is_id : String → Option String → Bool
is_id id none = false
is_id id (some i) = str_eq id i

module _ (parse_str : String → Option String) where
  abbrev pub item_named : String → Values → Bool
  item_named id no_values = false
  item_named id (add_value v vs) = is_id id (try_parse_file_id parse_str v) || item_named id vs

  abbrev pub named_by : String → Option Value → Bool
  named_by id (some (json_string s)) = is_id id (parse_str s)
  named_by id (some (json_array vs)) = item_named id vs
  named_by id _ = false

  abbrev pub field_named : String → Value → List (String × SchemaFileFieldConfig) → Bool
  field_named id json [] = false
  field_named id json (c ∷ cs) = named_by id (get_field c.0 json) || field_named id json cs

member_id-snoc :
    (x i : String) (xs : List String) → member_id x (xs ++ i ∷ []) ≡ (str_eq x i || member_id x xs)
member_id-snoc x i [] = refl
member_id-snoc x i (y ∷ ys) = ground (arith, member_id-snoc x i ys)

module _ (parse_str : String → Option String) where
  member_id-insert_id :
      (x : String) (o : Option String) (ids : List String)
      → member_id x (insert_id parse_str o ids) ≡ (is_id x o || member_id x ids)
  unfolding insert_id
  member_id-insert_id x none ids = refl
  member_id-insert_id x (some i) ids = elim (Bool-cases (member_id i ids)) [
    | inr e ↦ rw e (member_id-snoc x i ids)
    | inl e ↦ rw e (known (str_eq x i) refl e)
  ]
    where
      known :
          (b : Bool)
          → str_eq x i ≡ b
          → member_id i ids ≡ true
          → member_id x ids ≡ (b || member_id x ids)
      known false q e = refl
      known true q e = subst (λ t. member_id t ids ≡ true) (sym ((eq_iff x i).0 q)) e

  member_id-insert_items :
      (x : String) (vs : Values) (ids : List String)
      → member_id x (insert_items parse_str vs ids) ≡ (item_named parse_str x vs || member_id x ids)
  unfolding insert_items
  member_id-insert_items x no_values ids = refl
  member_id-insert_items x (add_value v vs) ids = ground (
    arith,
    member_id-insert_items x vs (insert_id parse_str (try_parse_file_id parse_str v) ids),
    member_id-insert_id x (try_parse_file_id parse_str v) ids,
  )

  member_id-insert_value :
      (x : String) (o : Option Value) (ids : List String)
      → member_id x (insert_value parse_str o ids) ≡ (named_by parse_str x o || member_id x ids)
  unfolding insert_value
  member_id-insert_value x none ids = refl
  member_id-insert_value x (some json_null) ids = refl
  member_id-insert_value x (some (json_bool b)) ids = refl
  member_id-insert_value x (some (json_number n)) ids = refl
  member_id-insert_value x (some (json_string s)) ids = member_id-insert_id x (parse_str s) ids
  member_id-insert_value x (some (json_array vs)) ids = member_id-insert_items x vs ids
  member_id-insert_value x (some (json_object ms)) ids = refl

  member_id-collect_ids :
      (x : String) (cs : List (String × SchemaFileFieldConfig)) (json : Value) (ids : List String)
      → member_id x (collect_ids parse_str cs json ids)
        ≡ (field_named parse_str x json cs || member_id x ids)
  unfolding collect_ids
  member_id-collect_ids x [] json ids = refl
  member_id-collect_ids x (c ∷ cs) json ids = ground (
    arith,
    member_id-collect_ids x cs json (insert_value parse_str (get_field c.0 json) ids),
    member_id-insert_value x (get_field c.0 json) ids,
  )

ids_named :
    (record_id : String) (ids : List String)
    → map (build_archive_dest_key record_id) ids ≡ keys_of_ids record_id ids
unfolding keys_of_ids
ids_named record_id [] = refl
ids_named record_id (i ∷ ids) =
    ap (◌∷◌ (build_archive_dest_key record_id i)) (ids_named record_id ids)

-- The keys that are collected from a record's data are the keys of a list of ids in which no id stands
-- twice, and in which an id stands exactly if a file field of the data names it, by itself or in an
-- array.
pub collected-no_repeats :
    (parse_str : String → Option String) (record_id : String)
    (configs : List (String × SchemaFileFieldConfig)) (json : Value)
    → (ids : List String) × (collect_archive_object_keys_from_data parse_str record_id configs json
        ≡ map (build_archive_dest_key record_id) ids)
      × (no_repeats ids ≡ true)
      × ((id : String) → member_id id ids ≡ field_named parse_str id json configs)
unfolding collect_archive_object_keys_from_data
collected-no_repeats parse_str record_id configs json = (
  collect_ids parse_str configs json [],
  sym (ids_named record_id (collect_ids parse_str configs json [])),
  collect_ids-no_repeats parse_str configs json [] refl,
  λ id. ground (arith, member_id-collect_ids parse_str id configs json []),
)
