-- ===== src/Archive/Urls.antt =====
-- Links in the data of records: `enrich_archive_records_with_urls`, `collect_uuids_from_json_value`,
-- `replace_uuid_with_url_in_json` and `generate_view_url` of src/modules/archive/service.rs, with
-- `generate_view_url` of src/utils/s3_storage.rs.
use Prim.Native.String.{◌++◌ as text_append}
use cqwu_achievement_system.Prelude.{
  String, Option, none, some, List, [], ◌∷◌, str_eq, if◌then◌else◌, keep,
}
use cqwu_achievement_system.Effect.{Result, ok, err, Action, pure, ◌>>=◌}
use cqwu_achievement_system.Json.{
  Value, Values, Members, json_string, json_array, json_object, no_values, add_value, no_members,
  add_member, get_field,
}
use cqwu_achievement_system.Schema.{SchemaFileFieldConfigs}
use cqwu_achievement_system.Server.{ArchiveRecord, FileRow, Server, Handled, on_pool}
use cqwu_achievement_system.Archive.{insert_id, member_id}
use cqwu_achievement_system.Archive.Files.{Objects, at_store}

module _ (parse_str : String → Option String) where
  unfoldable mutual
    pub collect_uuids_from_json_value : Value → List String → List String
    collect_uuids_from_json_value (json_string s) ids = insert_id parse_str (parse_str s) ids
    collect_uuids_from_json_value (json_array vs) ids = collect_uuids_from_items vs ids
    collect_uuids_from_json_value _ ids = ids

    pub collect_uuids_from_items : Values → List String → List String
    collect_uuids_from_items no_values ids = ids
    collect_uuids_from_items (add_value v vs) ids =
        collect_uuids_from_items vs (collect_uuids_from_json_value v ids)

-- `get` of the map from ids to links
unfoldable pub url_of : String → List (String × String) → Option String
url_of id [] = none
url_of id (u ∷ us) = if str_eq u.0 id then some u.1 else url_of id us

abbrev pub url_of_text : (String → Option String) → List (String × String) → String → Option String
url_of_text parse_str urls s = elim (parse_str s) [ none ↦ none | some id ↦ url_of id urls ]

abbrev pub replaced : String → Option String → Value
replaced s none = json_string s
replaced s (some url) = json_string url

module _ (parse_str : String → Option String) (urls : List (String × String)) where
  unfoldable mutual
    pub replace_uuid_with_url_in_json : Value → Value
    replace_uuid_with_url_in_json (json_string s) = replaced s (url_of_text parse_str urls s)
    replace_uuid_with_url_in_json (json_array vs) = json_array (replace_in_items vs)
    replace_uuid_with_url_in_json v = v

    pub replace_in_items : Values → Values
    replace_in_items no_values = no_values
    replace_in_items (add_value v vs) =
        add_value (replace_uuid_with_url_in_json v) (replace_in_items vs)

  -- `get_mut` of a field with the replacement in place
  unfoldable pub replace_member : String → Members → Members
  unfolding replace_uuid_with_url_in_json
  replace_member field no_members = no_members
  replace_member field (add_member name v ms) =
      if str_eq name field
      then add_member name (replace_uuid_with_url_in_json v) ms
      else add_member name v (replace_member field ms)

  abbrev pub replace_field : String → Value → Value
  replace_field field (json_object ms) = json_object (replace_member field ms)
  replace_field field v = v

  -- The loop over the fields of one record.
  unfoldable pub replace_fields : SchemaFileFieldConfigs → Value → Value
  unfolding replace_member
  replace_fields [] json = json
  replace_fields (c ∷ cs) json = replace_fields cs (replace_field c.0 json)

abbrev pub with_data : (Value → Value) → ArchiveRecord → ArchiveRecord
with_data f r = record r { data_of = f r.data_of }

module _ (parse_str : String → Option String) where
  abbrev collect_optional : Option Value → List String → List String
  collect_optional none ids = ids
  collect_optional (some v) ids = collect_uuids_from_json_value parse_str v ids

  unfoldable pub ids_of_fields : SchemaFileFieldConfigs → Value → List String → List String
  unfolding collect_uuids_from_json_value
  ids_of_fields [] json ids = ids
  ids_of_fields (c ∷ cs) json ids =
      ids_of_fields cs json (collect_optional (get_field c.0 json) ids)

  unfoldable pub ids_of_records :
      SchemaFileFieldConfigs → List ArchiveRecord → List String → List String
  unfolding ids_of_fields
  ids_of_records cs [] ids = ids
  ids_of_records cs (r ∷ rs) ids = ids_of_records cs rs (ids_of_fields cs r.data_of ids)

unfoldable pub with_urls :
    (String → Option String)
    → SchemaFileFieldConfigs
    → List (String × String)
    → List ArchiveRecord
    → List ArchiveRecord
unfolding replace_fields
with_urls parse_str cs urls [] = []
with_urls parse_str cs urls (r ∷ rs) =
    with_data (replace_fields parse_str urls cs) r ∷ with_urls parse_str cs urls rs

abbrev insert_url : String → Result String String → List (String × String) → List (String × String)
insert_url id (ok url) urls = (id, url) ∷ urls
insert_url id (err e) urls = urls

module _ {S P V : Type 0} (objects : Objects S) where
  unfoldable pub generate_view_url : String → String → Action (Server S P V) String String
  generate_view_url filename key = at_store objects (
      objects.presign_get key
        (text_append "attachment; filename=\"" (text_append (objects.encode filename) "\"")))

  -- The loop over the rows; a failure is only logged.
  unfoldable pub url_map :
      List FileRow → List (String × String) → Handled S P V (List (String × String))
  unfolding generate_view_url
  url_map [] urls w = (ok urls, w)
  url_map (f ∷ fs) urls w =
      let (r, v) = generate_view_url f.metadata.filename f.object_key w in
      url_map fs (insert_url f.file_id r urls) v

  module _ (parse_str : String → Option String) (cs : SchemaFileFieldConfigs) where
    abbrev pub fetch_urls : List ArchiveRecord → List String → Handled S P V (List ArchiveRecord)
    fetch_urls rs [] = pure rs
    fetch_urls rs (id ∷ ids) = do
      infos ←
          on_pool (λ d. (ok (keep (λ (f : FileRow). member_id f.file_id (id ∷ ids)) d.files), d))
      urls ← url_map infos []
      pure (with_urls parse_str cs urls rs)

    unfoldable pub enrich_archive_records_with_urls :
        List ArchiveRecord → Handled S P V (List ArchiveRecord)
    unfolding ids_of_records with_urls on_pool url_map
    enrich_archive_records_with_urls [] = pure []
    enrich_archive_records_with_urls (r ∷ rs) =
        fetch_urls (r ∷ rs) (ids_of_records parse_str cs (r ∷ rs) [])
