-- ===== src/Archive/Unchanged.antt =====
-- What leaves the committed tables as they are: reading them, and statements of a transaction.
use cqwu_achievement_system.Prelude.{
  String, Bool, true, false, Option, none, some, List, [], ◌∷◌, ◌≡◌, inl, inr, if◌then◌else◌, keep,
  Bool-cases,
}
use cqwu_achievement_system.Effect.{
  ok, Fault, works, refused, reply_lost, next_fault, later_faults, under, Preserves, >>=-Preserves,
  pure, raise, lift, ◌>>=◌,
}
use cqwu_achievement_system.Errors.{data_not_found}
use cqwu_achievement_system.Json.{Value}
use cqwu_achievement_system.Schema.{SchemaFileFieldConfigs}
use cqwu_achievement_system.Schema.Validation.{JsonSchema}
use cqwu_achievement_system.Server.{
  Template, ArchiveRecord, FileRow, Database, TemplateSchemaContext, Server, Query, on_pool,
  run_on_pool, on_transaction, run_on_transaction, db_error, find_template, cached,
}
use cqwu_achievement_system.Templates.{is_some, check_template_is_enabled, on_enabled}
use cqwu_achievement_system.Templates.Context.{
  get_or_load_template_context, from_database_get_template_context, on_cached,
  validate_instance_by_id, context_of,
}
use cqwu_achievement_system.Archive.{member_id}
use cqwu_achievement_system.Archive.Files.{Objects}
use cqwu_achievement_system.Archive.Urls.{
  url_map, generate_view_url, ids_of_records, fetch_urls, enrich_archive_records_with_urls,
  with_urls,
}
use cqwu_achievement_system.Upload.{session_of, unexpired}
use cqwu_achievement_system.Archive.Records.{
  redis_call, check_upload_session_exists, delete_upload_session,
}

module _ {S P V : Type 0} (d : Database) where
  -- The committed tables are `d`.
  abbrev pub Same : Server S P V → Type 0
  Same w = w.database ≡ d

  pub read-Same :
      {A : Type 0} (read : Database → A) → Preserves Same (on_pool (λ e. (ok (read e), e)))
  unfolding on_pool
  read-Same read w h = by_fault (next_fault w.faults)
    where
      by_fault :
          (f : Fault)
          → Same
              (under db_error
                (run_on_pool (λ e. (ok (read e), e)))
                f
                (record w { faults = later_faults w.faults })).1
      by_fault works = h
      by_fault refused = h
      by_fault reply_lost = h

  pub enabled-Same : (id : String) → Preserves Same (check_template_is_enabled id)
  unfolding check_template_is_enabled
  enabled-Same id =
      >>=-Preserves Same (on_pool (λ e. (ok (find_template id e.templates), e))) on_enabled
        (read-Same λ e. find_template id e.templates) by_row
    where
      by_row : (o : Option Template) → Preserves Same (on_enabled o)
      by_row none w h = h
      by_row (some t) w h = elim (Bool-cases t.is_active) [ inl e ↦ rw e h | inr e ↦ rw e h ]

  module _ (library : JsonSchema V) where
    pub load-Same : (id : String) → Preserves Same (get_or_load_template_context library id)
    unfolding get_or_load_template_context from_database_get_template_context
    load-Same id w h = by_cached (cached id w.schema_cache)
      where
        by_cached : (o : Option (TemplateSchemaContext V)) → Same (on_cached library id o w).1
        by_cached (some c) = h
        by_cached none =
            >>=-Preserves Same (from_database_get_template_context library id) _
              (>>=-Preserves Same (on_pool (λ e. (ok (find_template id e.templates), e)))
                (λ row. lift (context_of library id row))
                (read-Same λ e. find_template id e.templates) (λ row v k. k))
              (λ c v k. k) w h

    pub validate-Same :
        (id : String) (json : Value) → Preserves Same (validate_instance_by_id library id json)
    unfolding validate_instance_by_id
    validate-Same id json =
        >>=-Preserves Same (get_or_load_template_context library id) _ (load-Same id) (λ c v k. k)

  module _ (objects : Objects S) where
    url_map-Same :
        (fs : List FileRow) (urls : List (String × String))
        → Preserves Same (url_map objects fs urls)
    unfolding url_map generate_view_url
    url_map-Same [] urls w h = h
    url_map-Same (f ∷ fs) urls w h = url_map-Same fs _ _ h

    pub enrich-Same :
        (parse_str : String → Option String) (cs : SchemaFileFieldConfigs) (rs : List ArchiveRecord)
        → Preserves Same (enrich_archive_records_with_urls objects parse_str cs rs)
    unfolding enrich_archive_records_with_urls
    enrich-Same parse_str cs [] w h = h
    enrich-Same parse_str cs (r ∷ rs) w h = by_ids (ids_of_records parse_str cs (r ∷ rs) [])
      where
        by_ids : (ids : List String) → Same (fetch_urls objects parse_str cs (r ∷ rs) ids w).1
        by_ids [] = h
        by_ids (i ∷ is) =
            >>=-Preserves Same
              (on_pool
                (λ e. (ok (keep (λ (f : FileRow). member_id f.file_id (i ∷ is)) e.files), e)))
              (λ infos.
                url_map objects infos [] >>= λ urls. pure (with_urls parse_str cs urls (r ∷ rs)))
              (read-Same _)
              (λ infos.
                >>=-Preserves Same (url_map objects infos []) _ (url_map-Same infos [])
                  (λ urls v k. k))
              w h

-- A property of the tables, the committed ones and those of the transaction.
module _ {S P V : Type 0} (J : Database → Database → Type 0) where
  abbrev pub Tables : Server S P V → Type 0
  Tables w = J w.database w.transaction

  pub exists-Tables : (id : String) → Preserves Tables (check_upload_session_exists id)
  unfolding check_upload_session_exists
  exists-Tables id =
      >>=-Preserves Tables
        (redis_call (λ c. (ok (is_some (unexpired c.now (session_of id c.entries))), c))) _
        (λ w h. h) by_found
    where
      by_found :
          (b : Bool)
          → Preserves Tables (if b then pure tt else raise (data_not_found "上传会话不存在或已过期"))
      by_found true w h = h
      by_found false w h = h

  pub drop-Tables : (id : String) → Preserves Tables (delete_upload_session id)
  unfolding delete_upload_session
  drop-Tables id w h = h

  pub on_transaction-Tables :
      {A : Type 0} (q : Query A)
      → ((e t : Database) → J e t → J e (q t).1)
      → Preserves Tables (on_transaction q)
  unfolding on_transaction
  on_transaction-Tables q k w h = by_fault (next_fault w.faults)
    where
      by_fault :
          (f : Fault)
          → Tables
              (under db_error
                (run_on_transaction q)
                f
                (record w { faults = later_faults w.faults })).1
      by_fault works = k w.database w.transaction h
      by_fault refused = h
      by_fault reply_lost = k w.database w.transaction h
