-- ===== src/Executor/Actions.antt =====
-- What an executor does to its surroundings, as a history, and how the surroundings answer.
use batchflow.Prelude.{ℕ, String, List, Option}
use batchflow.Prelude.Int.{ℤ}
use batchflow.Model.{Value, Batch}
use batchflow.Schema.{SchemaInterface, ConflictStrategy}
use batchflow.Context.{Context, ContextErr}
use batchflow.Errors.{Error}
use batchflow.Classify.{Classifier}
use batchflow.Driver.Redis.{RedisCmd}
use batchflow.SqlObservability.{SqlPreview}
use batchflow.Observability.{OperationPreview, BatchEvent, Library}

-- An element of Operations, which is []any: a value of a row or the text of a statement, a Redis
-- command, or a whole preview.
pub data Operation : Type 0 where
  value : Value → Operation
  cmd : RedisCmd → Operation
  preview : SqlPreview → Operation

abbrev pub Operations : Type 0
Operations = List Operation

-- Calls of the processor, of the metrics reporter and of the observer, and what goes through the
-- semaphore and the retry timer.
pub data Action : Type 0 where
  generate : Action
  execute : Operations → Action
  acquire release : Action
  wait : ℕ → Action
  inc_inflight dec_inflight : Action
  observe_execute_duration : String → ℕ → ℕ → String → Action
  inc_error : String → String → Action
  set_concurrency : ℕ → Action
  observe_operation_generated : OperationPreview → Action
  inc_operation_error : String → String → String → String → Action
  observe_sql_generated : String → ℕ → ℕ → ℕ → Action
  observe_sql_deduplicated : String → ConflictStrategy → ℤ → ℤ → Action
  inc_sql_error : String → String → String → Action
  on_batch_event : BatchEvent → Action

-- The newest action stands first.
abbrev pub History : Type 0
History = List Action

-- BatchProcessor, with the method of OperationPreviewer if it has that. What it returns may depend
-- on all that has happened.
pub record Processor : Type 0 where
  pub preview :
      Option (History → SchemaInterface → Batch → Operations × OperationPreview × Option Error)
  pub generate_operations : History → SchemaInterface → Batch → Operations × Option Error
  pub execute_operations : History → Operations → Option Error

-- The rest of the surroundings. A select returns the context's error if it takes ctx.Done().
pub record Surroundings : Type 0 where
  pub ctx : Context
  pub select_token : History → Option ContextErr
  pub select_timer : History → ℕ → Option ContextErr
  pub now : History → ℕ
  pub fifth : ℕ → ℕ
  pub custom : List Classifier
  pub library : Library
