-- ===== src/Tests/Templates.antt =====
-- The theorems on templates, at concrete inputs.
use cqwu_achievement_system.Prelude.{
  String, Bool, Option, none, some, true, List, [], ◌∷◌, ◌≡◌, refl,
}
use cqwu_achievement_system.Server.{TemplateSchemaContext}
use cqwu_achievement_system.Templates.Coherent.{Coherent}
use cqwu_achievement_system.Templates.Serve.{
  Request, create_request, update_request, delete_request, load_request, status_request, serve_all,
  serve_all-Coherent,
}
use cqwu_achievement_system.Templates.Handlers.{
  update_template_handler, delete_template_handler, modify_template_status_handler,
}
use cqwu_achievement_system.Templates.Frozen.{definition_of, Refused, with_records-Refused}
use cqwu_achievement_system.Tests.Server.{library, server, uuid, update_t, create_t}

server-Coherent : Coherent library server
unfolding cqwu_achievement_system.Server.cached
server-Coherent = record { agrees = λ g c e. absurd (empty c e); replies = refl }
  where
    empty :
        (c : TemplateSchemaContext (Unit {0}))
        → ◌≡◌ {A = Option (TemplateSchemaContext (Unit {0}))} none (some c)
        → ⊥
    empty c e = cc e

abbrev requests : List Request
requests =
    load_request "t"
    ∷ create_request create_t "u"
    ∷ update_request update_t
    ∷ load_request "r1"
    ∷ status_request "t" true
    ∷ delete_request "r1"
    ∷ []

serve_all-Coherent_example : Coherent library (serve_all library uuid requests server)
serve_all-Coherent_example = serve_all-Coherent library uuid requests server server-Coherent

with_records-Refused_example :
    Refused server (update_template_handler library update_t server)
    × Refused server (delete_template_handler "t" server)
    × ((id other : String) (b : Bool)
        → definition_of id (modify_template_status_handler other b server).1.database
          ≡ definition_of id server.database)
unfolding cqwu_achievement_system.Server.any_record_of
with_records-Refused_example = with_records-Refused library update_t server refl
