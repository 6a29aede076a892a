-- ===== src/Processor/Sql.antt =====
-- SQLBatchProcessor of processor.go.
use batchflow.Prelude.{ℕ, String, Bool, [], ◌∷◌, Option, none, some, length, map, if◌then◌else◌}
use batchflow.Prelude.Int.{ℤ}
use batchflow.Model.{Value, Batch}
use batchflow.Schema.{SchemaInterface, SqlSchema, ConflictStrategy, name}
use batchflow.Context.{deadline_exceeded}
use batchflow.Errors.{Error, SqlInfo}
use batchflow.Classify.{is_context}
use batchflow.Coalescer.{Formatter}
use batchflow.Driver.Statements.{SqlDriver}
use batchflow.Observability.{
  Library, OperationPreview, fingerprint_text, backend_sql, stage_validate, stage_execute,
}
use batchflow.SqlObservability.{SqlPreview, generate_sql_preview, operation_preview}
use batchflow.Executor.Actions.{History, Operation, Operations, Processor}
use batchflow.Processor.{Backend, is_timed}

pub record SqlBatchProcessor : Type 0 where
  pub driver : Option SqlDriver
  pub timeout : ℤ

-- NewSQLBatchProcessor
unfoldable pub new_sql_batch_processor : Option SqlDriver → SqlBatchProcessor
new_sql_batch_processor driver = record { driver = driver; timeout = ℤ.pos 0 }

-- WithTimeout
unfoldable pub sql_with_timeout : SqlBatchProcessor → ℤ → SqlBatchProcessor
sql_with_timeout p timeout = record p { timeout = timeout }

-- The metadata of a SQLError that has only a stage.
abbrev pub bare_info : String → SqlInfo
bare_info stage = record {
  stage = stage;
  table = "";
  batch_size = 0;
  conflict_strategy = ConflictStrategy.ignore;
  conflict_columns = [];
  update_columns = [];
  sql_fingerprint = "";
  args_count = 0;
}

abbrev pub is_deadline : Error → Bool
is_deadline e = is_context deadline_exceeded e

abbrev pub or_error : Option Error → Error → Error
or_error none e = e
or_error (some cause) e = cause

-- if errors.Is(err, context.DeadlineExceeded) { if cause := context.Cause(ctx); ... }
unfoldable pub with_cause : Option Error → Error → Error
with_cause cause e = if is_deadline e then or_error cause e else e

-- The operations of a preview: the text of the statement, then its arguments.
unfoldable pub operations_of : SqlPreview → Operations
operations_of p = Operation.value (Value.string p.sql) ∷ map Operation.value p.args

-- The cause of the two errors for a schema of another kind.
abbrev pub not_sql_schema : Error
not_sql_schema = Error.text "schema is not a SQLSchema"

module _ (lib : Library) (fmt : Formatter) (b : Backend) (p : SqlBatchProcessor) where
  -- GenerateSQLPreview, a method that hands on
  unfoldable pub processor_sql_preview : History → SqlSchema → Batch → SqlPreview × Option Error
  unfolding generate_sql_preview
  processor_sql_preview h schema batch =
      (generate_sql_preview lib fmt (b.caller h) p.driver (some schema) batch (b.cache h)).0

  unfoldable pub preview_for :
      String → ℕ → Option (SqlPreview × Option Error) → Operations × OperationPreview × Option Error
  unfolding operations_of operation_preview
  preview_for table size none = (
    [],
    record {
      backend = backend_sql;
      operation = "";
      schema = table;
      input_items = size;
      output_items = 0;
      arg_count = 0;
      fingerprint = "";
      attributes = [];
    },
    some (
        Error.batch
          (record {
            stage = stage_validate;
            backend = backend_sql;
            schema = table;
            batch_size = size;
            fingerprint = "";
            attributes = [];
          })
          not_sql_schema),
  )
  preview_for table size (some (preview, some e)) = ([], operation_preview preview, some e)
  preview_for table size (some (preview, none)) =
      (operations_of preview, operation_preview preview, none)

  -- schema.(*SQLSchema), and the preview of the schema if it is one
  unfoldable pub preview_as_sql :
      History → SchemaInterface → Batch → Option (SqlPreview × Option Error)
  unfolding processor_sql_preview
  preview_as_sql h (SchemaInterface.sql s) batch = some (processor_sql_preview h s batch)
  preview_as_sql h (SchemaInterface.plain s) batch = none
  preview_as_sql h (SchemaInterface.custom s) batch = none

  -- GenerateOperationPreview
  unfoldable pub sql_generate_operation_preview :
      History → SchemaInterface → Batch → Operations × OperationPreview × Option Error
  unfolding preview_for preview_as_sql name
  sql_generate_operation_preview h schema batch =
      preview_for (name schema) (length batch) (preview_as_sql h schema batch)

  unfoldable pub operations_for :
      String → ℕ → Option (SqlPreview × Option Error) → Operations × Option Error
  unfolding operations_of
  operations_for table size none = (
    [],
    some (
        Error.sql (record (bare_info stage_validate) { table = table; batch_size = size })
          not_sql_schema),
  )
  operations_for table size (some (preview, some e)) = ([], some e)
  operations_for table size (some (preview, none)) = (operations_of preview, none)

  -- GenerateOperations
  unfoldable pub sql_generate_operations :
      History → SchemaInterface → Batch → Operations × Option Error
  unfolding operations_for preview_as_sql name
  sql_generate_operations h schema batch =
      operations_for (name schema) (length batch) (preview_as_sql h schema batch)

  -- What ExecuteOperations makes of the answer to a preview that it was handed.
  unfoldable pub preview_result : Option Error → SqlPreview → Option Error → Option Error
  unfolding with_cause
  preview_result cause preview none = none
  preview_result cause preview (some e) = some (
      Error.sql
        (record {
          stage = stage_execute;
          table = preview.table;
          batch_size = preview.dedup_stats.input_rows;
          conflict_strategy = preview.conflict_strategy;
          conflict_columns = preview.conflict_columns;
          update_columns = preview.update_columns;
          sql_fingerprint = preview.fingerprint;
          args_count = preview.args_count;
        })
        (with_cause cause e))

  -- The SQLError round an error of a statement.
  unfoldable pub statement_error : String → ℕ → Error → Error
  unfolding fingerprint_text
  statement_error sql args e =
      Error.sql
        (record (bare_info stage_execute) {
          sql_fingerprint = fingerprint_text lib sql;
          args_count = args;
        })
        e

  -- What it makes of the answer to a statement; a cause is returned as it is.
  unfoldable pub statement_result : Option Error → String → ℕ → Option Error → Option Error
  unfolding statement_error
  statement_result cause sql args none = none
  statement_result cause sql args (some e) =
      if is_deadline e
      then some (elim cause [ some c ↦ c | none ↦ statement_error sql args e ])
      else some (statement_error sql args e)

  abbrev invalid_operations : String → Option Error
  invalid_operations text = some (Error.sql (bare_info stage_validate) (Error.text text))

  -- ExecuteOperations
  unfoldable pub sql_execute_operations : History → Operations → Option Error
  unfolding preview_result statement_result
  sql_execute_operations h [] = invalid_operations "empty operations"
  sql_execute_operations h (Operation.preview q ∷ rest) =
      preview_result (b.cause h (is_timed p.timeout)) q
        (b.exec_context h (is_timed p.timeout) q.sql (map Operation.value q.args))
  sql_execute_operations h (Operation.value (Value.string sql) ∷ args) =
      statement_result (b.cause h (is_timed p.timeout)) sql (length args)
        (b.exec_context h (is_timed p.timeout) sql args)
  sql_execute_operations h (Operation.value _ ∷ args) = invalid_operations "invalid operation type"
  sql_execute_operations h (Operation.cmd c ∷ args) = invalid_operations "invalid operation type"

  -- The processor as the executor sees it.
  unfoldable pub sql_processor : Processor
  sql_processor = record {
    preview = some sql_generate_operation_preview;
    generate_operations = sql_generate_operations;
    execute_operations = sql_execute_operations;
  }
