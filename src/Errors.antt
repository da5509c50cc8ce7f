-- ===== src/Errors.antt =====
-- The error of the handlers and its HTTP status: src/common/error.rs.
use cqwu_achievement_system.Prelude.{ℕ, String, List}

-- `ValidationErrors` of the validator: the messages of each field.
pub record FieldErrors : Type 0 where
  pub field : String
  pub messages : List String

pub data AppError : Type 0 where
  validation_error : List FieldErrors → AppError
  validation_message : String → AppError
  user_already_exists login_failed jwt_expired unauthorized : AppError
  database_conflict_error : String → AppError
  password_wrong user_disabled : AppError
  forbidden : String → AppError
  data_not_changed : AppError
  data_not_found : String → AppError
  api_rule_conflict : String → AppError
  build_schema_query_failed : AppError
  unexpected_error : String → AppError

unfoldable pub status_code : AppError → ℕ
status_code (validation_error _) = 400
status_code build_schema_query_failed = 400
status_code (validation_message _) = 400
status_code user_already_exists = 409
status_code (api_rule_conflict _) = 409
status_code (database_conflict_error _) = 409
status_code (unexpected_error _) = 500
status_code data_not_changed = 304
status_code (data_not_found _) = 404
status_code password_wrong = 403
status_code (forbidden _) = 403
status_code user_disabled = 403
status_code login_failed = 401
status_code unauthorized = 401
status_code jwt_expired = 401
