-- ===== src/Archive/Copies.antt =====
-- The compensation of a creation whose files cannot be saved: the keys that are collected for it cover
-- the objects that the creation writes, and the command to delete them is submitted.
use cqwu_achievement_system.Prelude.{
  String, Bool, Option, true, false, some, List, All, ℕ, ◌<◌, ◌⊎◌, ◌≡◌, refl, if◌then◌else◌, [],
  ◌∷◌, str_eq, sym, subst, ◌∙◌, map, or_left, or_right, or-cases, inl, inr, eq_iff,
}
use cqwu_achievement_system.Json.{Value, str_eq_refl}
use cqwu_achievement_system.Schema.{SchemaFileFieldConfigs}
use cqwu_achievement_system.Server.{
  ArchiveRecord, Database, Server, Query, on_transaction, run_on_transaction, db_error,
}
use cqwu_achievement_system.Effect.{
  Result, ok, err, Fault, works, refused, reply_lost, next_fault, later_faults, under, continue,
  Preserves, >>=-Preserves, pure, raise,
}
use cqwu_achievement_system.Archive.{
  build_archive_dest_key, member_id, collect_archive_object_keys_from_data,
}
use cqwu_achievement_system.Archive.Keys.{field_named, collected-no_repeats}
use cqwu_achievement_system.Archive.Files.{
  Objects, create_files_record, process_single_file, get_file_metadata, move_temp_file_to_save,
  save_file_metadata, build_temp_object_key,
}
use cqwu_achievement_system.Errors.{AppError, data_not_found}
use cqwu_achievement_system.Schema.Validation.{JsonSchema}
use cqwu_achievement_system.Storage.{Client}
use cqwu_achievement_system.Tasks.{delete_archive_objects}
use cqwu_achievement_system.Tasks.Outbox.Table.{Row, Outbox, Codec}
use cqwu_achievement_system.Tasks.Outbox.Dispatcher.{submit}
use cqwu_achievement_system.Templates.{is_some}
use cqwu_achievement_system.Templates.Frozen.{is_error}
use cqwu_achievement_system.Upload.{session_of, unexpired}
use cqwu_achievement_system.Archive.Records.{redis_call, check_upload_session_exists, rollback}
use cqwu_achievement_system.Archive.Handlers.{save_files, submit_cleanup, on_saved, save_record}
use cqwu_achievement_system.Archive.Deletion.{Submitted, submit-Submitted}
use cqwu_achievement_system.Archive.Traverse.{create_files_record-Preserves}

member_id-map :
    (f : String → String) (id : String) (ids : List String)
    → member_id id ids ≡ true
    → member_id (f id) (map f ids) ≡ true
member_id-map f id [] h = h
member_id-map f id (i ∷ is) h = elim (or-cases (str_eq id i) (member_id id is) h) [
  | inl k ↦
      or_left (str_eq (f id) (f i)) (member_id (f id) (map f is))
        (subst (λ t. str_eq (f id) (f t) ≡ true) ((eq_iff id i).0 k) (str_eq_refl (f id)))
  | inr k ↦ or_right (str_eq (f id) (f i)) (member_id (f id) (map f is)) (member_id-map f id is k)
]

expected-key :
    (parse_str : String → Option String) (record_id : String) (cs : SchemaFileFieldConfigs)
    (json : Value) (id : String)
    → field_named parse_str id json cs ≡ true
    → member_id
        (build_archive_dest_key record_id id)
        (collect_archive_object_keys_from_data parse_str record_id cs json)
      ≡ true
expected-key parse_str record_id cs json id h =
    let (ids, e, once, named) = collected-no_repeats parse_str record_id cs json in
    subst (λ ks. member_id (build_archive_dest_key record_id id) ks ≡ true) (sym e)
      (member_id-map (build_archive_dest_key record_id) id ids (named id ∙ h))

module _ {S P V : Type 0} (I : S → Type 0) where
  -- The outbox and the committed tables are as they were, and the store has a property.
  abbrev AtStore : Outbox P → Database → Server S P V → Type 0
  AtStore o d w = (w.outbox ≡ o) × (w.database ≡ d) × I w.store

  on_transaction-AtStore :
      {A : Type 0} (o : Outbox P) (d : Database) (q : Query A)
      → Preserves (AtStore o d) (on_transaction q)
  unfolding on_transaction
  on_transaction-AtStore o d q w h = by_fault (next_fault w.faults)
    where
      by_fault :
          (f : Fault)
          → AtStore o d
              (under db_error
                (run_on_transaction q)
                f
                (record w { faults = later_faults w.faults })).1
      by_fault works = h
      by_fault refused = h
      by_fault reply_lost = h

module _ {S P V : Type 0} (I : S → Type 0) (objects : Objects S)
    (heads : (key : String) → Preserves I (objects.head_object key))
    (record_id session_id user_id : String) (o : Outbox P) (d : Database) where
  process-AtStore :
      (id : String)
      → ((source : String)
          → Preserves I (objects.copy_object source (build_archive_dest_key record_id id)))
      → Preserves
          (AtStore {S = S} {P = P} {V = V} I o d)
          (process_single_file objects record_id session_id user_id id)
  unfolding process_single_file get_file_metadata move_temp_file_to_save save_file_metadata
  process-AtStore id copies =
      >>=-Preserves (AtStore I o d)
        (get_file_metadata objects (build_temp_object_key session_id id)) _
        (λ w h. (h.0, h.1, heads _ w.store h.2))
        λ metadata.
          >>=-Preserves (AtStore I o d)
            (move_temp_file_to_save objects (build_temp_object_key session_id id)
              (build_archive_dest_key record_id id))
            _ (λ w h. (h.0, h.1, copies _ w.store h.2)) (λ u. on_transaction-AtStore I o d _)

  create-AtStore :
      (parse_str : String → Option String) (debug : Value → String) (cs : SchemaFileFieldConfigs)
      (json : Value)
      → ((source key : String)
          → member_id key (collect_archive_object_keys_from_data parse_str record_id cs json) ≡ true
          → Preserves I (objects.copy_object source key))
      → Preserves
          (AtStore {S = S} {P = P} {V = V} I o d)
          (create_files_record objects record_id session_id user_id parse_str debug cs json)
  create-AtStore parse_str debug cs json copies =
      create_files_record-Preserves (AtStore {S = S} {P = P} {V = V} I o d) objects record_id
        session_id user_id parse_str debug cs json
        λ id named. process-AtStore id λ source.
          copies source (build_archive_dest_key record_id id)
            (expected-key parse_str record_id cs json id named)

  exists-AtStore :
      (id : String)
      → Preserves (AtStore {S = S} {P = P} {V = V} I o d) (check_upload_session_exists id)
  unfolding check_upload_session_exists
  exists-AtStore id =
      >>=-Preserves (AtStore I o d)
        (redis_call (λ c. (ok (is_some (unexpired c.now (session_of id c.entries))), c))) _
        (λ w h. h) by_found
    where
      by_found :
          (b : Bool)
          → Preserves
              (AtStore {S = S} {P = P} {V = V} I o d)
              (if b then pure tt else raise (data_not_found "上传会话不存在或已过期"))
      by_found true w h = h
      by_found false w h = h

module _ {S P V : Type 0} (I : S → Type 0) (objects : Objects S) (client : Client S)
    (codec : Codec P) (library : JsonSchema V) (parse_str : String → Option String)
    (debug : Value → String) (uuid : ℕ → String) (cs : SchemaFileFieldConfigs)
    (session_id user : String) (r : ArchiveRecord) where
  abbrev keys : List String
  keys = collect_archive_object_keys_from_data parse_str r.record_id cs r.data_of

  -- How a creation ends whose files cannot be saved: with an error, the committed tables as they were
  -- and the property at the store; and there are no keys to delete, or the command to delete them is in
  -- one more row of the outbox, or its submission failed.
  abbrev pub Compensated : Server S P V → Result AppError ArchiveRecord × Server S P V → Type 0
  Compensated w x =
      (is_error x.0 ≡ true)
      × (x.1.database ≡ w.database)
      × I x.1.store
      × ((keys ≡ []) ⊎ Submitted codec keys w.outbox x.1.outbox)

  save-AtStore :
      (o : Outbox P) (d : Database)
      → ((key : String) → Preserves I (objects.head_object key))
      → ((source key : String)
          → member_id key keys ≡ true
          → Preserves I (objects.copy_object source key))
      → Preserves (AtStore {S = S} {P = P} {V = V} I o d) (
          save_files objects client codec library parse_str debug uuid
            (some (cs, session_id))
            r
            user)
  save-AtStore o d heads copies =
      >>=-Preserves (AtStore I o d) (check_upload_session_exists session_id) _
        (exists-AtStore I objects heads r.record_id session_id user o d session_id)
        (λ u.
          create-AtStore I objects heads r.record_id session_id user o d parse_str debug cs
            r.data_of copies)

  -- When the files of a request to create a record cannot be saved, whatever the reason, and the ids
  -- of the outbox are below the next one, the request fails, the committed tables are as they were, and every object that was written is to be deleted: a
  -- property of the store that each look at an object keeps, and each copy to one of the keys that are
  -- collected from the data, still holds, and there are no such keys, or the outbox has one more row,
  -- which holds the command to delete exactly these keys, or the submission of that command failed.
  pub save_record-Compensated :
      ((key : String) → Preserves I (objects.head_object key))
      → ((source key : String)
          → member_id key keys ≡ true
          → Preserves I (objects.copy_object source key))
      → (session : Option String) (w : Server S P V)
      → All (λ (q : Row P). q.id < w.outbox.next_id) w.outbox.rows
      → I w.store
      → is_error
          (save_files objects client codec library parse_str debug uuid
            (some (cs, session_id))
            r
            user
            w).0
        ≡ true
      → Compensated w (
          save_record objects client codec library parse_str debug uuid
            (some (cs, session_id))
            session
            user
            r
            w)
  save_record-Compensated heads copies session w below h failed =
      by_result
        (save_files objects client codec library parse_str debug uuid (some (cs, session_id)) r user
          w)
        failed (save-AtStore w.outbox w.database heads copies w (refl, refl, h))
    where
      undone : Server S P V → Server S P V
      undone u = record u { transaction = u.database; faults = later_faults u.faults }

      by_keys :
          (e : AppError) (u : Server S P V) (ks : List String)
          → AtStore I w.outbox w.database u
          → let x : Result AppError ArchiveRecord × Server S P V =
              continue
                (λ v. raise e)
                (submit_cleanup objects client codec library parse_str debug uuid ks (undone u)) in
            (is_error x.0 ≡ true)
            × (x.1.database ≡ w.database)
            × I x.1.store
            × ((ks ≡ []) ⊎ Submitted codec ks w.outbox x.1.outbox)
      by_keys e u [] a = (refl, a.1, a.2, inl refl)
      by_keys e u (k ∷ ks) a = (
        refl,
        a.1,
        a.2,
        inr (
            subst
              (λ o.
                Submitted codec (k ∷ ks) w.outbox
                  (submit codec (delete_archive_objects (k ∷ ks)) o).1)
              (sym a.0) (submit-Submitted codec (k ∷ ks) w.outbox below)),
      )

      by_result :
          (x : Result AppError Unit × Server S P V)
          → is_error x.0 ≡ true
          → AtStore I w.outbox w.database x.1
          → Compensated w (
              on_saved objects client codec library parse_str debug uuid
                (some (cs, session_id))
                session
                r
                x)
      by_result (ok y, u) f a = absurd (cc f)
      by_result (err e, u) f a = unfold rollback in by_keys e u keys a
