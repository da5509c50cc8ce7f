-- ===== src/Templates/Frozen.antt =====
-- A template that has records is neither updated nor deleted; what is left is its status.
use cqwu_achievement_system.Prelude.{
  ℕ, String, Bool, true, false, Option, none, some, List, [], ◌∷◌, str_eq, ◌≡◌, refl, if◌then◌else◌,
}
use cqwu_achievement_system.Effect.{
  Result, ok, err, Action, Fault, works, refused, reply_lost, next_fault, later_faults, continue,
  under, map_err, ◌>>=◌, ◌>>◌, lift, pure,
}
use cqwu_achievement_system.Errors.{AppError}
use cqwu_achievement_system.Schema.Validation.{JsonSchema}
use cqwu_achievement_system.Server.{
  Template, Database, find_template, Server, Handled, any_record_of, on_pool, run_on_pool, db_error,
}
use cqwu_achievement_system.Templates.{
  UpdateTemplateRequest, rejected, orderly, check_any_record_exists, update_template,
  delete_template, update_where, with_status, set_status, is_some, on_affected,
  modify_template_status,
}
use cqwu_achievement_system.Templates.Handlers.{
  refuse_if, validate_update, update_template_handler, delete_template_handler,
  modify_template_status_handler,
}

abbrev pub is_error : {E A : Type 0} → Result E A → Bool
is_error (ok a) = false
is_error (err e) = true

-- A template without its status and the time of its last change.
abbrev pub definition : Option Template → Option Template
definition none = none
definition (some t) = some (record t { is_active = false; updated_at = 0 })

abbrev pub definition_of : String → Database → Option Template
definition_of id d = definition (find_template id d.templates)

with_status-definition :
    (id other : String) (b : Bool) (now : ℕ) (ts : List Template)
    → definition (find_template id (update_where other (with_status b now) ts))
      ≡ definition (find_template id ts)
unfolding find_template update_where
with_status-definition id other b now [] = refl
with_status-definition id other b now (t ∷ ts) =
    by_tests (str_eq t.template_id other) (str_eq t.template_id id) refl
      (with_status-definition id other b now ts)
  where
    by_tests :
        (a k : Bool)
        → str_eq t.template_id id ≡ k
        → definition (find_template id (update_where other (with_status b now) ts))
          ≡ definition (find_template id ts)
        → definition (
            find_template id
              ((if a then with_status b now t else t) ∷ update_where other (with_status b now) ts))
          ≡ definition (find_template id (t ∷ ts))
    by_tests true true e h = rw e refl
    by_tests true false e h = rw e h
    by_tests false true e h = rw e refl
    by_tests false false e h = rw e h

module _ {S P V : Type 0} where
  status-definition :
      (id other : String) (b : Bool) (w : Server S P V)
      → definition_of id (modify_template_status_handler other b w).1.database
        ≡ definition_of id w.database
  unfolding modify_template_status_handler modify_template_status on_pool set_status
  status-definition id other b w = by_fault (next_fault w.faults)
    where
      start : Server S P V
      start = record w { faults = later_faults w.faults }

      changed : Server S P V
      changed = record start {
        database = record w.database {
          templates = update_where other (with_status b w.database.now) w.database.templates;
        };
      }

      by_found :
          (found : Bool)
          → definition_of id (on_affected (pure tt) found changed).1.database
            ≡ definition_of id w.database
      by_found true = with_status-definition id other b w.database.now w.database.templates
      by_found false = with_status-definition id other b w.database.now w.database.templates

      by_fault :
          (f : Fault)
          → definition_of id
              (continue
                (on_affected (pure tt))
                (under db_error (run_on_pool (set_status other b)) f start)).1.database
            ≡ definition_of id w.database
      by_fault works = by_found (is_some (find_template other w.database.templates))
      by_fault refused = refl
      by_fault reply_lost = with_status-definition id other b w.database.now w.database.templates

module _ {S P V : Type 0} where
  -- The request fails, and the tables stay as they were.
  abbrev pub Refused : {E A : Type 0} → Server S P V → Result E A × Server S P V → Type 0
  Refused w x = (is_error x.0 ≡ true) × (x.1.database ≡ w.database)

  Refused-check :
      (id message : String) (w : Server S P V)
      → any_record_of id w.database.records ≡ true
      → Refused w ((check_any_record_exists id >>= refuse_if message) w)
  unfolding check_any_record_exists on_pool
  Refused-check id message w h = by_fault (next_fault w.faults)
    where
      by_fault :
          (f : Fault)
          → Refused w (
              continue (refuse_if message) (
                under db_error
                  (run_on_pool (λ d. (ok (any_record_of id d.records), d)))
                  f
                  (record w { faults = later_faults w.faults })))
      by_fault works = rw h (refl, refl)
      by_fault refused = (refl, refl)
      by_fault reply_lost = (refl, refl)

  Refused-then :
      {E A B : Type 0} (w : Server S P V) (x : Result E A × Server S P V)
      (f : A → Action (Server S P V) E B)
      → Refused w x
      → Refused w (continue f x)
  Refused-then w (ok a, u) f h = absurd (cc h.0)
  Refused-then w (err e, u) f h = h

  orderly-Refused :
      {A : Type 0} (m : Handled S P V A) (w : Server S P V)
      → Refused w (m w)
      → Refused w (orderly m w)
  orderly-Refused {A} m w h = by_result (m w) h
    where
      by_result :
          (x : Result AppError A × Server S P V)
          → Refused w x
          → Refused w (map_err rejected x.0, x.1)
      by_result (ok a, u) h = h
      by_result (err e, u) h = h

  -- While a template has records, a request to update it and a request to delete it fail and leave the
  -- tables as they were, whatever statements fail; and a request to change the status of a template
  -- leaves of every template all but its status and the time of its last change.
  pub with_records-Refused :
      (library : JsonSchema V) (req : UpdateTemplateRequest) (w : Server S P V)
      → any_record_of req.template_id w.database.records ≡ true
      → Refused w (update_template_handler library req w)
        × Refused w (delete_template_handler req.template_id w)
        × ((id other : String) (b : Bool)
            → definition_of id (modify_template_status_handler other b w).1.database
              ≡ definition_of id w.database)
  unfolding update_template_handler delete_template_handler
  with_records-Refused library req w h = (
    by_validation (validate_update library req),
    Refused-then w _ (λ u. delete_template req.template_id)
        (Refused-check req.template_id "存在关联的归档记录，无法删除该模板" w h),
    λ id other b. status-definition id other b w,
  )
    where
      checked : Handled S P V Unit
      checked = check_any_record_exists req.template_id >>= refuse_if "该模板已有归档记录，无法修改"

      by_validation :
          (r : Result AppError Unit)
          → Refused w ((orderly (lift r) >> (orderly checked >> update_template req)) w)
      by_validation (err e) = (refl, refl)
      by_validation (ok u) =
          Refused-then w (orderly checked w) (λ u. update_template req)
            (orderly-Refused checked w (Refused-check req.template_id "该模板已有归档记录，无法修改" w h))
