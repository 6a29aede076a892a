-- ===== src/Processor/Writes.antt =====
-- What the success of ExecuteBatch means for a database: executor.go and SQLBatchProcessor of
-- processor.go together.
use batchflow.Prelude.{
  ◌≡◌, refl, sym, ap, ◌∙◌, ℕ, String, false, ◌∷◌, Option, none, some, map, is_empty, length, arith,
  inl, inr,
}
use batchflow.Model.{Value, Batch}
use batchflow.Schema.{SchemaInterface, SqlSchema}
use batchflow.Errors.{Error, ok, Result-cases}
use batchflow.Coalescer.{Formatter}
use batchflow.Driver.Statements.{Statement, SqlDriver}
use batchflow.Observability.{Library}
use batchflow.SqlObservability.{generate_sql_preview, preview_outcome, preview_of}
use batchflow.Executor.Actions.{History, Operation, Operations, Processor, Surroundings}
use batchflow.Executor.Settings.{Executor}
use batchflow.Executor.Attempt.{generate_operations}
use batchflow.Executor.{execute_batch}
use batchflow.Executor.Delivery.{IsDelivered, last_execution, execute_batch-IsDelivered}
use batchflow.Processor.{Backend, is_timed}
use batchflow.Processor.Sql.{
  SqlBatchProcessor, sql_processor, sql_generate_operation_preview, sql_execute_operations,
  statement_result, operations_of, preview_for, preview_as_sql, processor_sql_preview,
}

abbrev statement_operations : Statement → Operations
statement_operations st = Operation.value (Value.string st.sql) ∷ map Operation.value st.args

-- The driver has made a statement of the schema and the rows, and this statement with its arguments
-- is the last thing that the database was handed; it has answered without an error.
pub record IsWritten (b : Backend) (p : SqlBatchProcessor) (driver : SqlDriver) (schema : SqlSchema)
    (batch : Batch) (h : History) : Type 0 where
  pub statement : Statement
  pub before : History
  pub start : History
  pub made : (driver (b.caller start) schema batch (b.cache start)).0 ≡ ok statement
  pub last : last_execution h ≡ some (statement_operations statement, before)
  pub wrote :
      b.exec_context before (is_timed p.timeout) statement.sql (map Operation.value statement.args)
      ≡ none

module _ (lib : Library) (fmt : Formatter) (b : Backend) (p : SqlBatchProcessor)
    (driver : SqlDriver) (has_driver : p.driver ≡ some driver) where
  statement_result-none :
      (cause : Option Error) (sql : String) (n : ℕ) (answer : Option Error)
      → statement_result lib fmt b p cause sql n answer ≡ none
      → answer ≡ none
  unfolding statement_result
  statement_result-none cause sql n none h = refl
  statement_result-none cause sql n (some e) h = absurd (ground arith)

  preview_as_sql-driver :
      (schema : SqlSchema) (batch : Batch) (h : History)
      → preview_as_sql lib fmt b p h (SchemaInterface.sql schema) batch
        ≡ some
            (preview_outcome lib fmt schema batch (driver (b.caller h) schema batch (b.cache h)).0)
  unfolding preview_as_sql processor_sql_preview generate_sql_preview
  preview_as_sql-driver schema batch h = rw has_driver refl

  operations-made :
      (schema : SqlSchema) (batch : Batch) (h : History)
      → (sql_generate_operation_preview lib fmt b p h (SchemaInterface.sql schema) batch).2 ≡ none
      → (st : Statement) × ((driver (b.caller h) schema batch (b.cache h)).0 ≡ ok st)
        × ((sql_generate_operation_preview lib fmt b p h (SchemaInterface.sql schema) batch).0
            ≡ statement_operations st)
  unfolding sql_generate_operation_preview preview_for preview_outcome preview_of operations_of
  operations-made schema batch h good =
      elim (Result-cases (driver (b.caller h) schema batch (b.cache h)).0) [
        | inl (st, made) ↦ (st, made, rw (preview_as_sql-driver schema batch h, made) refl)
        | inr (e, failed) ↦ cc (rw (preview_as_sql-driver schema batch h, failed) at good)
      ]

  statement_operations-executed :
      (h : History) (st : Statement)
      → sql_execute_operations lib fmt b p h (statement_operations st) ≡ none
      → b.exec_context h (is_timed p.timeout) st.sql (map Operation.value st.args) ≡ none
  unfolding sql_execute_operations
  statement_operations-executed h st good =
      statement_result-none (b.cause h (is_timed p.timeout)) st.sql
        (length (map Operation.value st.args)) _ good

  IsDelivered-IsWritten :
      (s : Surroundings) (e : Executor) (schema : SqlSchema) (batch : Batch) (h : History)
      → e.processor ≡ sql_processor lib fmt b p
      → IsDelivered s e (SchemaInterface.sql schema) batch h
      → IsWritten b p driver schema batch h
  unfolding generate_operations sql_processor
  IsDelivered-IsWritten s e schema batch h same d =
      let (st, made, text) =
        operations-made schema batch d.start (rw (same, generate_operations) at d.without_error) in
      let handed : d.operations ≡ statement_operations st =
        sym d.generated ∙ rw (same, generate_operations) text in
      record {
        statement = st;
        before = d.before;
        start = d.start;
        made = made;
        last = d.last ∙ ap (λ (ops : Operations). some (ops, d.before)) handed;
        wrote = statement_operations-executed d.before st (
            ap (λ (ops : Operations). sql_execute_operations lib fmt b p d.before ops) (sym handed)
            ∙ (ap (λ (q : Processor). q.execute_operations d.before d.operations) (sym same)
                ∙ d.accepted));
      }

-- When the executor's processor is a SQL one with a driver, and there is no coalescer, ExecuteBatch
-- returns nil on a batch with rows and a SQL schema only if the driver has made a statement of them
-- without an error, and the database was handed this text with these arguments last and has answered
-- without an error.
pub execute_batch-IsWritten :
    (lib : Library) (fmt : Formatter) (b : Backend) (p : SqlBatchProcessor) (driver : SqlDriver)
    (s : Surroundings) (e : Executor) (schema : SqlSchema) (batch : Batch) (h : History)
    → p.driver ≡ some driver
    → e.processor ≡ sql_processor lib fmt b p
    → e.coalescer ≡ none
    → is_empty batch ≡ false
    → (execute_batch s e (SchemaInterface.sql schema) batch h).0 ≡ none
    → IsWritten b p driver schema batch (execute_batch s e (SchemaInterface.sql schema) batch h).1
execute_batch-IsWritten lib fmt b p driver s e schema batch h has_driver same plain rows good =
    IsDelivered-IsWritten lib fmt b p driver has_driver s e schema batch _ same
      (execute_batch-IsDelivered s e (SchemaInterface.sql schema) batch h rows plain good)
