-- ===== src/Processor/Timeouts.antt =====
-- How the time limit of SQLBatchProcessor differs from the deadline of its caller: processor.go, and
-- what the classifier of error_classification.go makes of it.
use batchflow.Prelude.{ℕ, String, ◌≡◌, refl, Bool, true, false, [], ◌∷◌, none, some}
use batchflow.Model.{Value}
use batchflow.Context.{deadline_exceeded}
use batchflow.Errors.{Error}
use batchflow.Classify.{
  classify_error, classify_cause, find_batch, find_sql, unwrap_batch_cause, timeout,
  context_deadline, classify_mysql, classify_postgres, classify_redis, classify_custom,
}
use batchflow.Classify.Decisions.{classify_error-unwrap}
use batchflow.Coalescer.{Formatter}
use batchflow.Observability.{Library, OperationPreview, batch_error_from_error}
use batchflow.Executor.Actions.{History, Operation, Operations}
use batchflow.Processor.{Backend, is_timed, execute_timeout}
use batchflow.Processor.Sql.{
  SqlBatchProcessor, sql_execute_operations, statement_result, is_deadline, bare_info,
}

-- What the executor makes of the error of an execution, and what the classifier then says.
abbrev pub decision : String → OperationPreview → ℕ → Error → Bool × String
decision stage preview size e =
    classify_error [] (some (batch_error_from_error stage preview size e))

decision-plain :
    (stage : String) (preview : OperationPreview) (size : ℕ) (e : Error)
    → find_batch e ≡ none
    → find_sql e ≡ none
    → decision stage preview size e ≡ classify_error [] (some e)
unfolding batch_error_from_error
decision-plain stage preview size e nb ns =
    rw (nb, batch_error_from_error) ((classify_error-unwrap [] _ (bare_info stage) e nb ns).0)

-- Who has set the time limit that ran out.
pub data Limit : Type 0 where
  processor caller : Limit

-- context.Cause then
abbrev pub limit_error : Limit → Error
limit_error Limit.processor = execute_timeout
limit_error Limit.caller = Error.context deadline_exceeded

abbrev pub limit_decision : Limit → Bool × String
limit_decision Limit.processor = (true, timeout)
limit_decision Limit.caller = (false, context_deadline)

decision-limit_error :
    (limit : Limit) (stage : String) (preview : OperationPreview) (size : ℕ)
    → decision stage preview size (limit_error limit) ≡ limit_decision limit
unfolding classify_error classify_cause find_batch find_sql unwrap_batch_cause classify_mysql
    classify_postgres classify_redis classify_custom
decision-limit_error Limit.processor stage preview size =
    rw (decision-plain stage preview size execute_timeout refl refl) refl
decision-limit_error Limit.caller stage preview size =
    rw (decision-plain stage preview size (Error.context deadline_exceeded) refl refl) refl

-- When a statement ends because the context has run out of time, SQLBatchProcessor returns what
-- context.Cause gives; without custom classifiers this is retried as a timeout if the limit is the
-- processor's own, and it is not retried if the limit is the caller's.
pub sql_execute_operations-limit :
    (lib : Library) (fmt : Formatter) (b : Backend) (p : SqlBatchProcessor) (h : History)
    (sql : String) (args : Operations) (limit : Limit) (e : Error) (stage : String)
    (preview : OperationPreview) (size : ℕ)
    → is_deadline e ≡ true
    → b.exec_context h (is_timed p.timeout) sql args ≡ some e
    → b.cause h (is_timed p.timeout) ≡ some (limit_error limit)
    → (sql_execute_operations lib fmt b p h (Operation.value (Value.string sql) ∷ args)
        ≡ some (limit_error limit))
      × (decision stage preview size (limit_error limit) ≡ limit_decision limit)
unfolding sql_execute_operations statement_result
sql_execute_operations-limit lib fmt b p h sql args limit e stage preview size late answer cause = (
  rw (answer, sql_execute_operations, cause, statement_result, late) refl,
  decision-limit_error limit stage preview size,
)
