-- ===== src/Archive/Presigned.antt =====
-- The requests for links to upload files under: `PreSignedRequests` of src/modules/archive/models.rs
-- and `presigned_upload_url_handler` of src/modules/archive/routes.rs. `trim`, the guess of a content
-- type, the extension of a file name and `to_lowercase` are parameters.
use Prim.Native.Char.{code}
use Prim.Native.String.{[] as empty_text, ◌∷◌ as text_cons}
use cqwu_achievement_system.Prelude.{
  ℕ, String, Bool, false, not, Option, none, some, ◌++◌, ◌&&◌, ◌||◌, ◌==◌, leb, str_eq,
  if◌then◌else◌,
}
use cqwu_achievement_system.Effect.{Result, lift, ◌>>=◌, ◌>>◌}
use cqwu_achievement_system.Errors.{AppError}
use cqwu_achievement_system.Json.{ℤ}
use cqwu_achievement_system.Schema.Validation.{some_alnum}
use cqwu_achievement_system.Upload.{Cached, try_to_get_field_quota, check_file_validity}
use cqwu_achievement_system.Server.{Handled}
use cqwu_achievement_system.Templates.Handlers.{text_length, field_errors, or_validation_error}
use cqwu_achievement_system.Archive.Files.{Objects}
use cqwu_achievement_system.Archive.Handlers.{PresignedResponse, presigned_upload_url}

pub record PreSignedRequests : Type 0 where
  pub session_id : String
  pub field : String
  pub filename : String
  pub content_length : ℤ
  pub content_type : Option String

-- Some dot is followed by letters and digits only, and no line ends before it.
unfoldable pub dot_follows : String → Bool
dot_follows empty_text = false
dot_follows (text_cons c text) =
    ((code c == b'.') && some_alnum text) || (not (code c == 10) && dot_follows text)

-- VALIDATE_FILE_NAME
abbrev pub is_file_name : String → Bool
is_file_name empty_text = false
is_file_name (text_cons c text) = not (code c == 10) && dot_follows text

unfoldable pub validate_presigned : PreSignedRequests → Result AppError Unit
unfolding text_length dot_follows
validate_presigned req = or_validation_error (
    field_errors "field" "字段名称不能为空" (leb 1 (text_length req.field))
    ++ field_errors "filename" "无效的文件名格式" (is_file_name req.filename))

module _ {S P V : Type 0} where
  -- An action on Redis
  abbrev pub at_redis : {A : Type 0} → Cached A → Handled S P V A
  at_redis run w = let (r, c) = run w.redis in (r, record w { redis = c })

module _ (trim guess : String → String) where
  abbrev given_or_guessed : String → Option String → String
  given_or_guessed filename none = guess filename
  given_or_guessed filename (some t) = if str_eq (trim t) "" then guess filename else trim t

  unfoldable pub content_type_of : PreSignedRequests → String
  content_type_of req = given_or_guessed req.filename req.content_type

module _ {S P V : Type 0} (objects : Objects S) (uuid : ℕ → String)
    (trim guess to_lowercase : String → String) (extension : String → Option String) where
  unfoldable pub presigned_upload_url_handler :
      PreSignedRequests → String → Handled S P V PresignedResponse
  unfolding validate_presigned try_to_get_field_quota check_file_validity content_type_of
      presigned_upload_url
  presigned_upload_url_handler req user = do
    lift (validate_presigned req)
    config ← at_redis (try_to_get_field_quota req.session_id req.field user)
    lift (check_file_validity extension to_lowercase config req.filename req.content_length)
    presigned_upload_url objects uuid req.session_id (content_type_of trim guess req)
        req.content_length req.filename
