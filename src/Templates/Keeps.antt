-- ===== src/Templates/Keeps.antt =====
-- The operations on templates keep the cache of contexts in agreement with the table.
use cqwu_achievement_system.Prelude.{
  ℕ, suc, String, Bool, true, false, Option, none, some, List, [], ◌∷◌, str_eq, if◌then◌else◌, ◌≡◌,
  refl, ◌∙◌,
}
use cqwu_achievement_system.Effect.{Result, ok, err, continue, ◌>>=◌, pure, lift}
use cqwu_achievement_system.Errors.{AppError}
use cqwu_achievement_system.Json.{Value}
use cqwu_achievement_system.Schema.Validation.{JsonSchema}
use cqwu_achievement_system.Server.{
  Template, TemplateSchemaContext, Server, Handled, find_template, cached, remove_cached,
  insert_cached, on_pool, run_on_pool, any_record_of,
}
use cqwu_achievement_system.Templates.{
  CreateTemplateRequest, UpdateTemplateRequest, update_where, orderly, is_some, or_panic, put_files,
  put_update_files, files_or_none, with_id, insert_template, inserted, new_template,
  create_template, update_returning, updated_by, on_updated, clear_template_cache, update_template,
  delete_where, deleted, on_affected, delete_template, set_status, with_status,
  modify_template_status,
}
use cqwu_achievement_system.Templates.Context.{
  context_of, get_or_load_template_context, from_database_get_template_context, on_cached,
}
use cqwu_achievement_system.Templates.Handlers.{modify_template_status_handler}
use cqwu_achievement_system.Templates.Lookup.{
  find_template-update_where, find_template-update_where-none, find_template-keep,
}
use cqwu_achievement_system.Templates.Coherent.{
  Coherent, Keeps, Agrees-off, Agrees-absent, Agrees-insert, on_pool-by,
}

module _ {V : Type 0} (library : JsonSchema V) where
  with_status-context :
      (g id : String) (b : Bool) (now : ℕ) (ts : List Template)
      → context_of library g (find_template g (update_where id (with_status b now) ts))
        ≡ context_of library g (find_template g ts)
  unfolding find_template update_where
  with_status-context g id b now [] = refl
  with_status-context g id b now (t ∷ ts) =
      by_tests (str_eq t.template_id id) (str_eq t.template_id g) refl
        (with_status-context g id b now ts)
    where
      by_tests :
          (a k : Bool)
          → str_eq t.template_id g ≡ k
          → context_of library g (find_template g (update_where id (with_status b now) ts))
            ≡ context_of library g (find_template g ts)
          → context_of library g (
              find_template g
                ((if a then with_status b now t else t) ∷ update_where id (with_status b now) ts))
            ≡ context_of library g (find_template g (t ∷ ts))
      by_tests true true e h = rw e refl
      by_tests true false e h = rw e h
      by_tests false true e h = rw e refl
      by_tests false false e h = rw e h

module _ {S P V : Type 0} (library : JsonSchema V) where
  lift-Keeps : {E A : Type 0} (r : Result E A) → Keeps {S = S} {P = P} library (lift r)
  lift-Keeps r w c = c

  clear-Coherent :
      (id : String) (w : Server S P V) (us : List Template)
      → ((g : String)
          → str_eq id g ≡ false
          → find_template g us ≡ find_template g w.database.templates)
      → Coherent library w
      → Coherent library (record w {
        database = record w.database { templates = us };
        schema_cache = remove_cached id w.schema_cache;
      })
  clear-Coherent id w us h c = record {
    agrees = Agrees-off library id w.schema_cache w.database.templates us h c.agrees;
    replies = c.replies;
  }

  absent-Coherent :
      (id : String) (w : Server S P V) (us : List Template)
      → ((g : String)
          → str_eq id g ≡ false
          → find_template g us ≡ find_template g w.database.templates)
      → find_template id w.database.templates ≡ none
      → Coherent library w
      → Coherent library (record w { database = record w.database { templates = us } })
  absent-Coherent id w us h n c = record {
    agrees = Agrees-absent library id w.schema_cache w.database.templates us h n c.agrees;
    replies = c.replies;
  }

  pub get_or_load-Keeps :
      (id : String) → Keeps {S = S} {P = P} library (get_or_load_template_context library id)
  unfolding get_or_load_template_context from_database_get_template_context
  get_or_load-Keeps id w c = by_cached (cached id w.schema_cache)
    where
      put : TemplateSchemaContext V → Handled S P V (TemplateSchemaContext V)
      put d v = (ok d, record v { schema_cache = insert_cached id d v.schema_cache })

      loaded :
          (u : Server S P V) (r : Result AppError (TemplateSchemaContext V))
          → context_of library id (find_template id u.database.templates) ≡ r
          → Coherent library u
          → Coherent library (continue put (lift r u)).1
      loaded u (ok d) e k = record {
        agrees = Agrees-insert library id d u.schema_cache u.database.templates e k.agrees;
        replies = k.replies;
      }
      loaded u (err x) e k = k

      by_cached :
          (o : Option (TemplateSchemaContext V)) → Coherent library (on_cached library id o w).1
      by_cached (some d) = c
      by_cached none =
          on_pool-by library (λ d. (ok (find_template id d.templates), d))
            (λ x.
              Coherent library
                (continue put (continue (λ row. lift (context_of library id row)) x)).1)
            (λ u k. loaded u (context_of library id (find_template id u.database.templates)) refl k)
            (λ u k. k) w c

  affected-Keeps :
      (rest : Handled S P V Unit) (b : Bool)
      → Keeps library rest
      → Keeps library (on_affected rest b)
  affected-Keeps rest true h = h
  affected-Keeps rest false h = λ w c. c

  pub modify-Keeps :
      (id : String) (b : Bool) → Keeps {S = S} {P = P} library (modify_template_status_handler id b)
  unfolding modify_template_status_handler modify_template_status set_status
  modify-Keeps id b =
      on_pool-by library (set_status id b)
        (λ x. Coherent library (continue (on_affected (pure tt)) x).1)
        (λ u k.
          affected-Keeps (pure tt) (is_some (find_template id u.database.templates)) (λ w c. c)
            (record u {
              database = record u.database {
                templates = update_where id (with_status b u.database.now) u.database.templates;
              };
            })
            (record {
              agrees = λ g c e.
                  with_status-context library g id b u.database.now u.database.templates
                  ∙ k.agrees g c e;
              replies = k.replies;
            }))
        λ u k. k

  pub delete-Keeps : (id : String) → Keeps {S = S} {P = P} library (delete_template id)
  unfolding delete_template delete_where clear_template_cache
  delete-Keeps id =
      on_pool-by library (delete_where id)
        (λ x. Coherent library (continue (on_affected (clear_template_cache id)) x).1)
        (λ u k.
          by_records u k (any_record_of id u.database.records)
            (find_template id u.database.templates) refl)
        λ u k. k
    where
      by_records :
          (u : Server S P V)
          → Coherent library u
          → (b : Bool) (o : Option Template) → find_template id u.database.templates ≡ o
          → Coherent library
              (continue
                (on_affected (clear_template_cache id))
                (run_on_pool (λ d. deleted b (is_some o) id d) u)).1
      by_records u k true o e = k
      by_records u k false (some t) e =
          clear-Coherent id u _ (λ g h. find_template-keep g id u.database.templates h) k
      by_records u k false none e =
          absent-Coherent id u _ (λ g h. find_template-keep g id u.database.templates h) e k

  pub update-Keeps :
      (req : UpdateTemplateRequest) → Keeps {S = S} {P = P} library (update_template req)
  unfolding update_template update_returning clear_template_cache
  update-Keeps req w c = by_schema (put_update_files (files_or_none req.schema_files) req.schema)
    where
      id : String
      id = req.template_id

      changed : Option Value → ℕ → List Template → List Template
      changed s now ts = update_where id (updated_by req s now) ts

      by_row :
          (u : Server S P V) (s : Option Value) (o : Option Template)
          → find_template id (changed s u.database.now u.database.templates) ≡ o
          → Coherent library u
          → Coherent library
              (on_updated id o (record u {
                database = record u.database {
                  templates = changed s u.database.now u.database.templates;
                };
              })).1
      by_row u s none e k =
          absent-Coherent id u (changed s u.database.now u.database.templates)
            (λ g h. find_template-update_where g id _ u.database.templates (λ t. refl) h)
            (find_template-update_where-none id id _ u.database.templates (λ t. refl) e) k
      by_row u s (some t) e k =
          clear-Coherent id u (changed s u.database.now u.database.templates)
            (λ g h. find_template-update_where g id _ u.database.templates (λ t. refl) h) k

      by_schema :
          (o : Option (Option Value))
          → Coherent library
              ((or_panic o >>= λ s. orderly (on_pool (update_returning req s) >>= on_updated id))
                w).1
      by_schema none = c
      by_schema (some s) =
          on_pool-by library (update_returning req s)
            (λ x. Coherent library (continue (on_updated id) x).1)
            (λ u k.
              by_row u s (find_template id (changed s u.database.now u.database.templates)) refl k)
            (λ u k. k) w c

  pub create-Keeps :
      (uuid : ℕ → String) (req : CreateTemplateRequest) (user : String)
      → Keeps {S = S} {P = P} library (create_template uuid req user)
  unfolding create_template insert_template find_template
  create-Keeps uuid req user w c =
      by_schema (put_files (files_or_none req.schema_files) req.schema.schema_def)
    where
      id : String
      id = uuid w.drawn

      by_row :
          (u : Server S P V) (s : Value) (o : Option Template)
          → find_template id u.database.templates ≡ o
          → Coherent library u
          → Coherent library (run_on_pool (λ d. inserted o id req s user d) u).1
      by_row u s (some t) e k = k
      by_row u s none e k =
          absent-Coherent id u (new_template id req s user u.database.now ∷ u.database.templates)
            (λ g h. rw h refl) e k

      by_schema :
          (o : Option Value)
          → Coherent library
              ((or_panic o >>= λ s.
                  orderly (with_id uuid (λ i. on_pool (insert_template i req s user))))
                w).1
      by_schema none = c
      by_schema (some s) =
          on_pool-by library (insert_template id req s user) (λ x. Coherent library x.1)
            (λ u k. by_row u s (find_template id u.database.templates) refl k) (λ u k. k)
            (record w { drawn = suc w.drawn }) (record { agrees = c.agrees; replies = c.replies })
