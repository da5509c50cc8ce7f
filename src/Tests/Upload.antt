-- ===== src/Tests/Upload.antt =====
-- The theorems on the upload sessions, at concrete inputs.
use cqwu_achievement_system.Prelude.{◌≤◌, true, [], ◌∷◌}
use cqwu_achievement_system.Effect.{reply_lost, works}
use cqwu_achievement_system.Json.{pos}
use cqwu_achievement_system.Schema.{SchemaFileFieldConfig}
use cqwu_achievement_system.Upload.{Cache}
use cqwu_achievement_system.Upload.Quota.{Request, granted, remaining, granted-le-remaining}

abbrev photo : SchemaFileFieldConfig
photo = record { allowed_types = ".png" ∷ []; quota = 2; max_size = pos 1_048_576; required = true }

abbrev cache : Cache
cache = record {
  entries =
      record {
        session_id = "s";
        session = record { user_id = "u"; schema_file_configs = ("photo", photo) ∷ [] };
        expires_at = 1800;
      }
      ∷ [];
  now = 0;
  faults = works ∷ reply_lost ∷ [];
}

abbrev ask : Request
ask = record { session_id = "s"; field = "photo"; user = "u"; elapsed = 5 }

granted-le-remaining_example :
    granted "s" "photo" (ask ∷ ask ∷ ask ∷ []) cache ≤ remaining "s" "photo" cache
granted-le-remaining_example = granted-le-remaining "s" "photo" (ask ∷ ask ∷ ask ∷ []) cache
