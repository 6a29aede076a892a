-- ===== src/Observability.antt =====
-- observability.go: previews and events, and the error that carries a preview's metadata.
pub mod Observers
pub mod Redaction
use batchflow.Prelude.{ℕ, String, List, Option, none, some, Map, join}
use batchflow.Prelude.Int.{ℤ}
use batchflow.Model.{Value, clone_record}
use batchflow.Errors.{Error}
use batchflow.Classify.{find_batch}

abbrev pub backend_sql : String
backend_sql = "sql"

abbrev pub backend_redis : String
backend_redis = "redis"

abbrev pub backend_custom : String
backend_custom = "custom"

abbrev pub operation_insert : String
operation_insert = "insert"

abbrev pub operation_upsert : String
operation_upsert = "upsert"

abbrev pub operation_command : String
operation_command = "command"

abbrev pub operation_custom : String
operation_custom = "custom"

abbrev pub stage_validate : String
stage_validate = "validate"

abbrev pub stage_generate : String
stage_generate = "generate"

abbrev pub stage_execute : String
stage_execute = "execute"

abbrev pub stage_retry : String
stage_retry = "retry"

abbrev pub stage_final : String
stage_final = "final"

pub record OperationPreview : Type 0 where
  pub backend : String
  pub operation : String
  pub schema : String
  pub input_items : ℕ
  pub output_items : ℕ
  pub arg_count : ℕ
  pub fingerprint : String
  pub attributes : Map Value

-- Durations are in nanoseconds.
pub record BatchEvent : Type 0 where
  pub stage : String
  pub backend : String
  pub operation : String
  pub schema : String
  pub status : String
  pub attempt : ℕ
  pub batch_size : ℕ
  pub input_items : ℕ
  pub output_items : ℕ
  pub arg_count : ℕ
  pub duration : ℕ
  pub fingerprint : String
  pub reason : String
  pub attributes : Map Value
  pub err : Option Error

-- What the code calls of the standard library: strings.Fields, FNV-1a of 64 bits, "%016x", "%v" of a
-- value, and the conversion of a float64 to an int.
pub record Library : Type 0 where
  pub fields : String → List String
  pub fnv64a : String → ℕ
  pub hex16 : ℕ → String
  pub sprint : Value → String
  pub float_to_int : ℕ → ℤ

unfoldable pub fingerprint_text : Library → String → String
unfolding join
fingerprint_text lib text = lib.hex16 (lib.fnv64a (join (lib.fields text) " "))

unfoldable pub operation_fingerprint : Library → List String → String
unfolding fingerprint_text join
operation_fingerprint lib parts = fingerprint_text lib (join parts "|")

-- cloneAttributes: a nil map and an empty one are both `[]`.
unfoldable pub clone_attributes : Map Value → Map Value
unfolding clone_record
clone_attributes attrs = clone_record attrs

-- batchErrorFromError, on an error that is not nil
unfoldable pub batch_error_from_error : String → OperationPreview → ℕ → Error → Error
unfolding clone_attributes find_batch
batch_error_from_error stage preview batch_size e = elim (find_batch e) [
  | some found ↦ e
  | none ↦
      Error.batch
        (record {
          stage = stage;
          backend = preview.backend;
          schema = preview.schema;
          batch_size = batch_size;
          fingerprint = preview.fingerprint;
          attributes = clone_attributes preview.attributes;
        })
        e
]

-- newBatchEvent of executor.go
unfoldable pub new_batch_event :
    String → String → ℕ → ℕ → ℕ → String → OperationPreview → Option Error → String → BatchEvent
unfolding clone_attributes
new_batch_event stage status attempt batch_size duration schema preview err reason = record {
  stage = stage;
  backend = preview.backend;
  operation = preview.operation;
  schema = schema;
  status = status;
  attempt = attempt;
  batch_size = batch_size;
  input_items = preview.input_items;
  output_items = preview.output_items;
  arg_count = preview.arg_count;
  duration = duration;
  fingerprint = preview.fingerprint;
  reason = reason;
  attributes = clone_attributes preview.attributes;
  err = err;
}
