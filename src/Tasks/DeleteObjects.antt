-- ===== src/Tasks/DeleteObjects.antt =====
-- src/tasks/handler/command/delete_archive_objects_command.rs
pub mod Coverage
pub mod Delivery
use Prim.Native.String.{◌++◌ as text_append}
use text.Mathlib.Text.{find?}
use cqwu_achievement_system.Prelude.{
  String, Bool, true, false, not, ◌||◌, ◌&&◌, Option, none, some, List, [], ◌∷◌, map, keep, str_eq,
  if◌then◌else◌,
}
use cqwu_achievement_system.Effect.{Result, ok, err}
use cqwu_achievement_system.Storage.{
  SdkError, timeout_error, dispatch_failure, response_error, service_error, construction_failure,
  other_sdk_error, StorageError, DeleteObjectFailure, DeleteObjectsReport, Client, unwrap_or,
  delete_objects_with_report,
}
use cqwu_achievement_system.Tasks.{
  ErrorKind, retryable, non_retryable, ErrorCategory, timeout, throttled, network,
  service_unavailable, access_denied, invalid_argument, resource_not_found, internal, unknown,
  CommandExecutionError,
}

abbrev pub is_empty {ℓ} : {A : Type ℓ} → List A → Bool
is_empty [] = true
is_empty (x ∷ xs) = false

abbrev pub one_of : String → List String → Bool
one_of s [] = false
one_of s (t ∷ ts) = str_eq s t || one_of s ts

-- `str::contains`
abbrev contains : String → String → Bool
contains s t = elim (find? s t) [ none ↦ false | some _ ↦ true ]

-- The arms of the match on the code of a failure.
pub retryable_code : Option String → Bool
retryable_code none = true
retryable_code (some code) =
    if one_of code (
      "SlowDown" ∷ "Throttling" ∷ "ThrottlingException" ∷ "RequestTimeout" ∷ "InternalError"
      ∷ "ServiceUnavailable" ∷ [])
    then true
    else if one_of code ("AccessDenied" ∷ "InvalidArgument" ∷ "NoSuchBucket" ∷ [])
    then false
    else false

unfoldable pub is_retryable_delete_object_failure : DeleteObjectFailure → Bool
unfolding retryable_code
is_retryable_delete_object_failure f =
    if str_eq f.key "" || str_eq f.key "<unknown>" then false else retryable_code f.code

join : String → List String → String
join sep [] = ""
join sep (x ∷ []) = x
join sep (x ∷ y ∷ ys) = text_append x (text_append sep (join sep (y ∷ ys)))

format_failure : DeleteObjectFailure → String
format_failure f = text_append "key=" (
    text_append f.key (
      text_append ", code=" (
        text_append (unwrap_or f.code "<none>")
          (text_append ", message=" (unwrap_or f.message "<none>")))))

pub format_failures : List DeleteObjectFailure → String
unfolding join format_failure
format_failures fs = join "; " (map format_failure fs)

-- The match on the code of a service error.
pub classify_service_code : String → ErrorKind × ErrorCategory
classify_service_code code =
    if one_of code ("SlowDown" ∷ "Throttling" ∷ "ThrottlingException" ∷ [])
    then (retryable, throttled)
    else if str_eq code "RequestTimeout"
    then (retryable, timeout)
    else if str_eq code "InternalError"
    then (retryable, internal)
    else if str_eq code "ServiceUnavailable"
    then (retryable, service_unavailable)
    else if str_eq code "AccessDenied"
    then (non_retryable, access_denied)
    else if str_eq code "InvalidArgument"
    then (non_retryable, invalid_argument)
    else if str_eq code "NoSuchBucket"
    then (non_retryable, resource_not_found)
    else (non_retryable, unknown)

pub classify_sdk_error : SdkError → ErrorKind × ErrorCategory
unfolding classify_service_code
classify_sdk_error timeout_error = (retryable, timeout)
classify_sdk_error dispatch_failure = (retryable, network)
classify_sdk_error response_error = (retryable, network)
classify_sdk_error (service_error code) = classify_service_code (unwrap_or code "")
classify_sdk_error construction_failure = (non_retryable, invalid_argument)
classify_sdk_error other_sdk_error = (retryable, unknown)

-- The tests on the text of an error that holds no SDK error.
pub classify_text : String → ErrorKind × ErrorCategory
classify_text message =
    if contains message "构建删除对象失败"
    then (non_retryable, invalid_argument)
    else if contains message "AccessDenied"
    then (non_retryable, access_denied)
    else if contains message "InvalidArgument"
    then (non_retryable, invalid_argument)
    else if contains message "NoSuchBucket"
    then (non_retryable, resource_not_found)
    else (retryable, unknown)

unfoldable pub classify_delete_archive_error : StorageError → ErrorKind × ErrorCategory
unfolding classify_sdk_error classify_text
classify_delete_archive_error e = elim e.source [
  | some sdk ↦ classify_sdk_error sdk
  | none ↦ classify_text e.text
]

-- The command over the storage service's state.
pub record DeleteArchiveObjectsCommand (S : Type 0) : Type 0 where
  pub pending_keys : List String
  pub storage : S

abbrev pub keys_of : List DeleteObjectFailure → List String
keys_of fs = map (λ (f : DeleteObjectFailure). f.key) fs

abbrev failure : ErrorKind → ErrorCategory → String → List String → Option CommandExecutionError
failure k c m keys = some (record { kind = k; category = c; message = m; failed_keys = keys })

module _ {S : Type 0} where
  -- The arms for a report, with its failures split in two.
  pub settle_report :
      DeleteArchiveObjectsCommand S
      → List DeleteObjectFailure
      → List DeleteObjectFailure
      → Option CommandExecutionError × DeleteArchiveObjectsCommand S
  unfolding format_failures
  settle_report self [] [] = (none, self)
  settle_report self [] (n ∷ ns) = (
    failure non_retryable invalid_argument
        (text_append "delete_archive_objects failed with non-retryable errors: "
          (format_failures (n ∷ ns)))
        (keys_of (n ∷ ns)),
    self,
  )
  settle_report self (r ∷ rs) (n ∷ ns) = (
    failure retryable service_unavailable
        "delete_archive_objects mixed partial failure, retrying retryable failed keys only"
        (keys_of (r ∷ rs)),
    record self { pending_keys = keys_of (r ∷ rs) },
  )
  settle_report self (r ∷ rs) [] = (
    failure retryable service_unavailable
        "delete_archive_objects partial failure, retrying failed keys only" (keys_of (r ∷ rs)),
    record self { pending_keys = keys_of (r ∷ rs) },
  )

  pub request_failed : StorageError → DeleteArchiveObjectsCommand S → CommandExecutionError
  unfolding classify_delete_archive_error
  request_failed e self =
      let (k, c) = classify_delete_archive_error e in
      record {
        kind = k;
        category = c;
        message = text_append "delete_archive_objects request failed: " e.text;
        failed_keys = self.pending_keys;
      }

  pub on_report :
      DeleteArchiveObjectsCommand S
      → Result StorageError DeleteObjectsReport
      → Option CommandExecutionError × DeleteArchiveObjectsCommand S
  unfolding settle_report request_failed is_retryable_delete_object_failure
  on_report self (ok report) =
      if is_empty report.failed
      then (none, self)
      else settle_report self (keep is_retryable_delete_object_failure report.failed)
          (keep (λ f. not (is_retryable_delete_object_failure f)) report.failed)
  on_report self (err e) = (some (request_failed e self), self)

  unfoldable pub execute :
      Client S
      → DeleteArchiveObjectsCommand S
      → Option CommandExecutionError × DeleteArchiveObjectsCommand S
  unfolding on_report delete_objects_with_report
  execute client self =
      if is_empty self.pending_keys
      then (none, self)
      else let (result, s') = delete_objects_with_report client self.pending_keys self.storage in
        on_report (record self { storage = s' }) result

unfoldable pub new : {S : Type 0} → List String → S → DeleteArchiveObjectsCommand S
new keys s = record { pending_keys = keys; storage = s }
