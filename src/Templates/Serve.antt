-- ===== src/Templates/Serve.antt =====
-- Requests about templates, one after the other: the cache of contexts agrees with the table.
use cqwu_achievement_system.Prelude.{ℕ, String, Bool, true, false, List, [], ◌∷◌}
use cqwu_achievement_system.Effect.{lift}
use cqwu_achievement_system.Schema.Validation.{JsonSchema}
use cqwu_achievement_system.Server.{Server, any_record_of}
use cqwu_achievement_system.Templates.{
  CreateTemplateRequest, UpdateTemplateRequest, orderly, create_template, update_template,
  delete_template, check_any_record_exists,
}
use cqwu_achievement_system.Templates.Context.{get_or_load_template_context}
use cqwu_achievement_system.Templates.Handlers.{
  validate_create, validate_update, refuse_if, create_template_handler, update_template_handler,
  delete_template_handler, modify_template_status_handler,
}
use cqwu_achievement_system.Templates.Coherent.{Coherent, Keeps, >>=-Keeps, on_pool-Keeps}
use cqwu_achievement_system.Templates.Keeps.{
  get_or_load-Keeps, modify-Keeps, delete-Keeps, update-Keeps, create-Keeps,
}

module _ {S P V : Type 0} (library : JsonSchema V) where
  create_handler-Keeps :
      (uuid : ℕ → String) (req : CreateTemplateRequest) (user : String)
      → Keeps {S = S} {P = P} library (create_template_handler library uuid req user)
  unfolding create_template_handler
  create_handler-Keeps uuid req user =
      >>=-Keeps library (orderly (lift (validate_create library req)))
        (λ u. create_template uuid req user) (λ w c. c) (λ u. create-Keeps library uuid req user)

  refuse_if-Keeps :
      (message : String) (b : Bool) → Keeps {S = S} {P = P} library (refuse_if message b)
  refuse_if-Keeps message true = λ w c. c
  refuse_if-Keeps message false = λ w c. c

  update_handler-Keeps :
      (req : UpdateTemplateRequest)
      → Keeps {S = S} {P = P} library (update_template_handler library req)
  unfolding update_template_handler check_any_record_exists
  update_handler-Keeps req =
      >>=-Keeps library (orderly (lift (validate_update library req))) _ (λ w c. c)
        λ u.
          >>=-Keeps library _ (λ u. update_template req)
            (on_pool-Keeps library (λ d. any_record_of req.template_id d.records) _
              (refuse_if-Keeps "该模板已有归档记录，无法修改"))
            (λ u. update-Keeps library req)

  delete_handler-Keeps : (id : String) → Keeps {S = S} {P = P} library (delete_template_handler id)
  unfolding delete_template_handler check_any_record_exists
  delete_handler-Keeps id =
      >>=-Keeps library _ (λ u. delete_template id)
        (on_pool-Keeps library (λ d. any_record_of id d.records) _
          (refuse_if-Keeps "存在关联的归档记录，无法删除该模板"))
        (λ u. delete-Keeps library id)

-- The requests that change templates or load their contexts.
pub data Request : Type 0 where
  create_request : CreateTemplateRequest → String → Request
  update_request : UpdateTemplateRequest → Request
  delete_request load_request : String → Request
  status_request : String → Bool → Request

module _ {S P V : Type 0} (library : JsonSchema V) (uuid : ℕ → String) where
  abbrev pub serve : Request → Server S P V → Server S P V
  serve (create_request req user) w = (create_template_handler library uuid req user w).1
  serve (update_request req) w = (update_template_handler library req w).1
  serve (delete_request id) w = (delete_template_handler id w).1
  serve (load_request id) w = (get_or_load_template_context library id w).1
  serve (status_request id b) w = (modify_template_status_handler id b w).1

  unfoldable pub serve_all : List Request → Server S P V → Server S P V
  serve_all [] w = w
  serve_all (r ∷ rs) w = serve_all rs (serve r w)

  serve-Coherent :
      (r : Request) (w : Server S P V) → Coherent library w → Coherent library (serve r w)
  serve-Coherent (create_request req user) w c = create_handler-Keeps library uuid req user w c
  serve-Coherent (update_request req) w c = update_handler-Keeps library req w c
  serve-Coherent (delete_request id) w c = delete_handler-Keeps library id w c
  serve-Coherent (load_request id) w c = get_or_load-Keeps library id w c
  serve-Coherent (status_request id b) w c = modify-Keeps library id b w c

  -- Whatever requests about templates are served, one after the other, with any of their statements
  -- refused, each cached context is the one that the template's row gives, if that holds at the start
  -- and no statement takes effect and loses its reply.
  pub serve_all-Coherent :
      (rs : List Request) (w : Server S P V)
      → Coherent library w
      → Coherent library (serve_all rs w)
  unfolding serve_all
  serve_all-Coherent [] w c = c
  serve_all-Coherent (r ∷ rs) w c = serve_all-Coherent rs (serve r w) (serve-Coherent r w c)
