-- ===== src/Archive/Complete.antt =====
-- What a creation of file records that succeeds has put into the tables: a row for each file that the
-- data names in the form that the field's quota asks for.
use cqwu_achievement_system.Prelude.{
  String, Bool, true, false, Option, none, some, List, [], ◌∷◌, str_eq, ◌==◌, ◌||◌, ◌&&◌, any, ◌≡◌,
  refl, subst, or_left, or_right, or-cases, and_both, inl, inr, Bool-cases, arith, if◌then◌else◌,
  eq_iff,
}
use cqwu_achievement_system.Effect.{
  Result, ok, err, Fault, works, refused, reply_lost, next_fault, later_faults, under, Preserves,
  >>=-Preserves, >>=-eq-ok, ok-pair, lift, ◌>>=◌, ◌>>◌,
}
use cqwu_achievement_system.Errors.{AppError}
use cqwu_achievement_system.Json.{
  Value, Values, json_null, json_bool, json_number, json_string, json_array, json_object, no_values,
  add_value, get_field, str_eq_refl,
}
use cqwu_achievement_system.Schema.{SchemaFileFieldConfig, SchemaFileFieldConfigs}
use cqwu_achievement_system.Server.{
  FileRow, Database, Server, Handled, on_transaction, run_on_transaction, db_error,
}
use cqwu_achievement_system.Archive.{build_archive_dest_key, try_parse_file_id, member_id}
use cqwu_achievement_system.Archive.Keys.{is_id, item_named}
use cqwu_achievement_system.Archive.Files.{
  Objects, process_single_file, process_files, process_one, process_many, process_array,
  process_field, create_files_record, parse_ids, id_of_value, check_unique, check_not_empty,
  cons_id, invalid_item, get_file_metadata, move_temp_file_to_save, save_file_metadata, insert_file,
  has_file, has_record, build_temp_object_key,
}
use cqwu_achievement_system.Archive.Traverse.{create_files_record-Preserves}
use cqwu_achievement_system.Archive.Unchanged.{Tables, on_transaction-Tables}

-- The row of a file of a record, under the key of the record.
abbrev pub is_row : String → String → FileRow → Bool
is_row record_id id f =
    str_eq f.file_id id
    && str_eq f.record_id record_id
    && str_eq f.object_key (build_archive_dest_key record_id id)

abbrev pub has_row : String → String → Database → Bool
has_row record_id id d = any (is_row record_id id) d.files

module _ (parse_str : String → Option String) where
  abbrev pub array_named : String → Option Value → Bool
  array_named id (some (json_array vs)) = item_named parse_str id vs
  array_named id _ = false

  -- The field's value names the file, by itself where the quota is 1, and in an array otherwise.
  abbrev pub named_for : SchemaFileFieldConfig → String → Option Value → Bool
  named_for c id o = if c.quota == 1 then is_id id (id_of_value parse_str o) else array_named id o

  abbrev pub file_named : String → Value → SchemaFileFieldConfigs → Bool
  file_named id json [] = false
  file_named id json (p ∷ ps) = named_for p.1 id (get_field p.0 json) || file_named id json ps

  parse_ids-member :
      (debug : Value → String) (field : String) (vs : Values) (ids : List String)
      → parse_ids parse_str debug field vs ≡ ok ids
      → (id : String) → item_named parse_str id vs ≡ true
      → member_id id ids ≡ true
  unfolding parse_ids
  parse_ids-member debug field no_values ids e id m = absurd (cc m)
  parse_ids-member debug field (add_value v vs) ids e id m =
      by_item (try_parse_file_id parse_str v) (parse_ids parse_str debug field vs) e m
        (parse_ids-member debug field vs)
    where
      same :
          (xs ys : List String) → ◌≡◌ {A = Result AppError (List String)} (ok xs) (ok ys) → xs ≡ ys
      same xs ys e = ground arith

      by_item :
          (o : Option String) (r : Result AppError (List String))
          → cons_id (invalid_item field (debug v)) o r ≡ ok ids
          → (is_id id o || item_named parse_str id vs) ≡ true
          → ((js : List String)
              → r ≡ ok js
              → (i : String) → item_named parse_str i vs ≡ true
              → member_id i js ≡ true)
          → member_id id ids ≡ true
      by_item none r e m h = absurd (cc e)
      by_item (some i) (err x) e m h = absurd (cc e)
      by_item (some i) (ok js) e m h =
          subst (λ t. member_id id t ≡ true) (same (i ∷ js) ids e)
            (elim (or-cases (str_eq id i) (item_named parse_str id vs) m) [
              | inl k ↦ or_left (str_eq id i) (member_id id js) k
              | inr k ↦ or_right (str_eq id i) (member_id id js) (h js refl id k)
            ])

module _ {S P V : Type 0} (Q : Server S P V → Type 0) where
  -- An action that succeeds ends in such a state.
  abbrev pub Establishes : {A : Type 0} → Handled S P V A → Type 0
  Establishes {A} m = (w u : Server S P V) (a : A) → m w ≡ (ok a, u) → Q u

  pub >>=-Establishes :
      {A B : Type 0} (m : Handled S P V A) (f : A → Handled S P V B)
      → ((a : A) → Establishes (f a))
      → Establishes (m >>= f)
  >>=-Establishes m f h w u b e = let (a, v, p, q) = >>=-eq-ok m f e in h a v u b q

  first-Establishes :
      {A B : Type 0} (m : Handled S P V A) (f : A → Handled S P V B)
      → Establishes m
      → ((a : A) → Preserves Q (f a))
      → Establishes (m >>= f)
  first-Establishes {A} {B} m f h k w u b e =
      let (a, v, p, q) = >>=-eq-ok m f e in
      subst (λ (x : Result AppError B × Server S P V). Q x.1) q (k a v (h w v a p))

insert_file-HasRow :
    (record_id id : String) (f : FileRow) (t : Database)
    → has_row record_id id t ≡ true
    → has_row record_id id (insert_file f t).1 ≡ true
unfolding insert_file
insert_file-HasRow record_id id f t h = elim (Bool-cases (has_file f.file_id t.files)) [
  | inl k ↦ rw k h
  | inr k ↦ rw k (elim (Bool-cases (has_record f.record_id t.records)) [
    | inl l ↦ rw l (or_right (is_row record_id id f) (any (is_row record_id id) t.files) h)
    | inr l ↦ rw l h
  ])
]

module _ {S P V : Type 0} (objects : Objects S) (record_id session_id user_id id : String) where
  abbrev pub HasRow : Server S P V → Type 0
  HasRow = Tables (λ e t. has_row record_id id t ≡ true)

  process-HasRow :
      (i : String) → Preserves HasRow (process_single_file objects record_id session_id user_id i)
  unfolding process_single_file get_file_metadata move_temp_file_to_save save_file_metadata
  process-HasRow i =
      >>=-Preserves HasRow (get_file_metadata objects (build_temp_object_key session_id i)) _
        (λ w h. h)
        λ metadata.
          >>=-Preserves HasRow
            (move_temp_file_to_save objects (build_temp_object_key session_id i)
              (build_archive_dest_key record_id i))
            _ (λ w h. h)
            (λ u.
              on_transaction-Tables (λ e t. has_row record_id id t ≡ true) _
                (λ e t h. insert_file-HasRow record_id id _ t h))

  save-Establishes :
      (f : FileRow)
      → is_row record_id id f ≡ true
      → Establishes {S = S} {P = P} {V = V} HasRow (on_transaction (insert_file f))
  unfolding on_transaction insert_file
  save-Establishes f own w u a e = by_fault (next_fault w.faults) e
    where
      start : Server S P V
      start = record w { faults = later_faults w.faults }

      by_tests :
          (b c : Bool)
          → (let p : Result AppError Unit × Database =
                if b
                then (err db_error, start.transaction)
                else if c
                then (ok tt, record start.transaction { files = f ∷ start.transaction.files })
                else (err db_error, start.transaction) in
              ◌≡◌ {A = Result AppError Unit × Server S P V}
                (p.0, record start { transaction = p.1 })
                (ok a, u))
          → HasRow u
      by_tests true c e = absurd (cc e)
      by_tests false false e = absurd (cc e)
      by_tests false true e =
          subst HasRow (ok-pair e).1
            (or_left (is_row record_id id f) (any (is_row record_id id) w.transaction.files) own)

      by_fault :
          (x : Fault)
          → under db_error (run_on_transaction (insert_file f)) x start ≡ (ok a, u)
          → HasRow u
      by_fault works e =
          by_tests (has_file f.file_id w.transaction.files)
            (has_record f.record_id w.transaction.records) e
      by_fault refused e = absurd (cc e)
      by_fault reply_lost e = absurd (cc e)

  process-Establishes :
      Establishes {S = S} {P = P} {V = V} HasRow
        (process_single_file objects record_id session_id user_id id)
  unfolding process_single_file save_file_metadata
  process-Establishes =
      >>=-Establishes HasRow (get_file_metadata objects (build_temp_object_key session_id id)) _
        λ metadata.
          >>=-Establishes HasRow
            (move_temp_file_to_save objects (build_temp_object_key session_id id)
              (build_archive_dest_key record_id id))
            _
            λ u. save-Establishes _ (
              and_both _ _ (and_both _ _ (str_eq_refl id) (str_eq_refl record_id))
                (str_eq_refl (build_archive_dest_key record_id id)))

  files-HasRow :
      (ids : List String)
      → Preserves {S = Server S P V} HasRow (process_files objects record_id session_id user_id ids)
  unfolding process_files
  files-HasRow [] = λ w h. h
  files-HasRow (i ∷ is) =
      >>=-Preserves HasRow (process_single_file objects record_id session_id user_id i) _
        (process-HasRow i) (λ u. files-HasRow is)

  files-Establishes :
      (ids : List String)
      → member_id id ids ≡ true
      → Establishes {S = S} {P = P} {V = V} HasRow
          (process_files objects record_id session_id user_id ids)
  unfolding process_files
  files-Establishes [] m = absurd (cc m)
  files-Establishes (i ∷ is) m = elim (or-cases (str_eq id i) (member_id id is) m) [
    | inl k ↦
        first-Establishes HasRow (process_single_file objects record_id session_id user_id i) _
          (subst
            (λ j.
              Establishes {S = S} {P = P} {V = V} HasRow
                (process_single_file objects record_id session_id user_id j))
            ((eq_iff id i).0 k) process-Establishes)
          (λ u. files-HasRow is)
    | inr k ↦
        >>=-Establishes HasRow (process_single_file objects record_id session_id user_id i) _
          (λ u. files-Establishes is k)
  ]

  module _ (parse_str : String → Option String) (debug : Value → String) where
    field-Establishes :
        (c : SchemaFileFieldConfig) (field : String) (o : Option Value)
        → named_for parse_str c id o ≡ true
        → Establishes {S = S} {P = P} {V = V} HasRow
            (process_field objects record_id session_id user_id parse_str debug c field o)
    field-Establishes c field o m = elim (Bool-cases (c.quota == 1)) [
      | inl e ↦ rw e (of_id (id_of_value parse_str o) (rw e at m))
      | inr e ↦ rw e (of_array o (rw e at m))
    ]
      where
        of_id :
            (i : Option String)
            → is_id id i ≡ true
            → Establishes {S = S} {P = P} {V = V} HasRow
                (process_one objects record_id session_id user_id field c.required i)
        of_id none m = absurd (cc m)
        of_id (some i) m =
            subst
              (λ j.
                Establishes {S = S} {P = P} {V = V} HasRow
                  (process_single_file objects record_id session_id user_id j))
              ((eq_iff id i).0 m) process-Establishes

        of_items :
            (vs : Values) (r : Result AppError (List String))
            → parse_ids parse_str debug field vs ≡ r
            → item_named parse_str id vs ≡ true
            → Establishes {S = S} {P = P} {V = V} HasRow
                (process_many objects record_id session_id user_id field c.required r)
        of_items vs (err x) p m = λ w u a e. absurd (cc e)
        of_items vs (ok ids) p m =
            >>=-Establishes HasRow
              (lift (check_not_empty field c.required ids) >> lift (check_unique field [] ids)) _
              (λ u. files-Establishes ids (parse_ids-member parse_str debug field vs ids p id m))

        of_array :
            (o : Option Value)
            → array_named parse_str id o ≡ true
            → Establishes {S = S} {P = P} {V = V} HasRow (
                process_array objects record_id session_id user_id parse_str debug field c.required
                  o)
        of_array none m = absurd (cc m)
        of_array (some json_null) m = absurd (cc m)
        of_array (some (json_bool b)) m = absurd (cc m)
        of_array (some (json_number n)) m = absurd (cc m)
        of_array (some (json_string s)) m = absurd (cc m)
        of_array (some (json_object ms)) m = absurd (cc m)
        of_array (some (json_array vs)) m = of_items vs (parse_ids parse_str debug field vs) refl m

    pub create_files_record-Establishes :
        (cs : SchemaFileFieldConfigs) (json : Value)
        → file_named parse_str id json cs ≡ true
        → Establishes {S = S} {P = P} {V = V} HasRow
            (create_files_record objects record_id session_id user_id parse_str debug cs json)
    unfolding create_files_record
    create_files_record-Establishes [] json m = absurd (cc m)
    create_files_record-Establishes (p ∷ ps) json m =
        elim (or-cases (named_for parse_str p.1 id (get_field p.0 json)) _ m) [
          | inl k ↦
              first-Establishes HasRow
                (process_field objects record_id session_id user_id parse_str debug p.1 p.0
                  (get_field p.0 json))
                _ (field-Establishes p.1 p.0 (get_field p.0 json) k)
                (λ u.
                  create_files_record-Preserves HasRow objects record_id session_id user_id
                    parse_str debug ps json (λ i n. process-HasRow i))
          | inr k ↦
              >>=-Establishes HasRow
                (process_field objects record_id session_id user_id parse_str debug p.1 p.0
                  (get_field p.0 json))
                _ (λ u. create_files_record-Establishes ps json k)
        ]
