-- ===== src/Storage.antt =====
-- Object storage: src/utils/s3_storage.rs. The S3 client is a parameter.
pub mod Chunks
pub mod Report
pub mod Persistence
pub mod Untouched
use Prim.Native.String.{◌++◌ as text_append}
use cqwu_achievement_system.Prelude.{
  ℕ, zero, suc, String, Option, none, some, List, [], ◌∷◌, ◌++◌, map, take, drop, length,
}
use cqwu_achievement_system.Effect.{
  Result, ok, err, Action, pure, raise, lift, map_err, ◌>>=◌, ◌>>◌,
}

-- `SdkError` of the client, with the arms that the program tells apart.
pub data SdkError : Type 0 where
  timeout_error dispatch_failure response_error : SdkError
  service_error : Option String → SdkError
  construction_failure other_sdk_error : SdkError

-- An `anyhow::Error`: the SDK error inside it, if there is one, and its text.
pub record StorageError : Type 0 where
  pub source : Option SdkError
  pub text : String

pub record DeleteObjectFailure : Type 0 where
  pub key : String
  pub code : Option String
  pub message : Option String

pub record DeleteObjectsReport : Type 0 where
  pub deleted_keys : List String
  pub failed : List DeleteObjectFailure

-- One entry of the `errors` of a response.
pub record ErrorEntry : Type 0 where
  pub key : Option String
  pub code : Option String
  pub message : Option String

pub record DeleteOutput : Type 0 where
  pub deleted : List (Option String)
  pub errors : List ErrorEntry

-- The S3 client over the state `S` of the service: the builder of an object identifier, which may
-- refuse a key with a text, and the request to delete some objects.
pub record Client (S : Type 0) : Type 0 where
  pub refused : String → Option String
  pub delete_objects : List String → Action S SdkError DeleteOutput

abbrev pub unwrap_or : Option String → String → String
unwrap_or none d = d
unwrap_or (some a) d = a

abbrev pub report_default : DeleteObjectsReport
report_default = record { deleted_keys = []; failed = [] }

abbrev pub max_delete_per_request : ℕ
max_delete_per_request = 1000

-- `slice.chunks(n)` for `n` not 0; the fuel is the number of elements.
pub chunks_on : {A : Type 0} → ℕ → ℕ → List A → List (List A)
chunks_on zero n xs = []
chunks_on (suc fuel) n [] = []
chunks_on (suc fuel) n (x ∷ xs) = take n (x ∷ xs) ∷ chunks_on fuel n (drop n (x ∷ xs))

unfoldable pub chunks : {A : Type 0} → ℕ → List A → List (List A)
unfolding chunks_on
chunks n xs = chunks_on (length xs) n xs

-- The keys that a response names; an entry without a key is left out.
pub named_keys : List (Option String) → List String
named_keys [] = []
named_keys (none ∷ ks) = named_keys ks
named_keys (some k ∷ ks) = k ∷ named_keys ks

unfoldable pub failure_of : ErrorEntry → DeleteObjectFailure
failure_of e = record { key = unwrap_or e.key "<unknown>"; code = e.code; message = e.message }

abbrev build_failure : String → String → StorageError
build_failure key e = record {
  source = none;
  text = text_append "构建删除对象失败, key=" (text_append key (text_append ", error=" e));
}

-- The loop that builds the identifiers of a chunk.
pub identifiers : (String → Option String) → List String → Result StorageError (List String)
identifiers refused [] = ok []
identifiers refused (key ∷ keys) = elim (refused key) [
  | some e ↦ err (build_failure key e)
  | none ↦ elim (identifiers refused keys) [ err e ↦ err e | ok ks ↦ ok (key ∷ ks) ]
]

abbrev pub request_failure : SdkError → StorageError
request_failure e = record { source = some e; text = "批量删除远程文件失败" }

abbrev detail_of : DeleteObjectFailure → String
detail_of f = text_append "key=" (
    text_append f.key (
      text_append ", code=" (
        text_append (unwrap_or f.code "<none>")
          (text_append ", message=" (unwrap_or f.message "<none>")))))

-- `join("; ")` of the details
abbrev pub details_of : List DeleteObjectFailure → String
details_of [] = ""
details_of (f ∷ []) = detail_of f
details_of (f ∷ g ∷ fs) = text_append (detail_of f) (text_append "; " (details_of (g ∷ fs)))

module _ {S : Type 0} (client : Client S) where
  abbrev pub send : List String → Action S StorageError DeleteOutput
  send keys s = let (r, s') = client.delete_objects keys s in (map_err request_failure r, s')

  pub delete_chunk : DeleteObjectsReport → List String → Action S StorageError DeleteObjectsReport
  delete_chunk report chunk = do
    objects ← lift (identifiers client.refused chunk)
    output ← send objects
    pure (record {
      deleted_keys = report.deleted_keys ++ named_keys output.deleted;
      failed = report.failed ++ map failure_of output.errors;
    })

  -- The loop over the chunks.
  pub delete_chunks :
      DeleteObjectsReport → List (List String) → Action S StorageError DeleteObjectsReport
  delete_chunks report [] = pure report
  delete_chunks report (chunk ∷ rest) = delete_chunk report chunk >>= λ r. delete_chunks r rest

  unfoldable pub delete_objects_with_report :
      List String → Action S StorageError DeleteObjectsReport
  unfolding delete_chunks delete_chunk identifiers named_keys failure_of chunks
  delete_objects_with_report [] = pure report_default
  delete_objects_with_report (k ∷ ks) =
      delete_chunks report_default (chunks max_delete_per_request (k ∷ ks))

  abbrev pub on_failures : DeleteObjectsReport → Action S StorageError Unit
  on_failures report = elim report.failed [
    | [] ↦ pure tt
    | f ∷ fs ↦
        raise
          (record { source = none; text = text_append "批量删除远程文件出现部分失败: " (details_of (f ∷ fs)) })
  ]

  unfoldable pub delete_objects : List String → Action S StorageError Unit
  unfolding delete_objects_with_report
  delete_objects keys = delete_objects_with_report keys >>= λ report. on_failures report
