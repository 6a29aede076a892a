-- ===== src/Tests/Processing.antt =====
-- The processors over a database and a Redis server that take everything, and two that run out of time.
use batchflow.Prelude.{◌≡◌, refl, true, false, [], ◌∷◌, none, some, map}
use batchflow.Prelude.Int.{pos}
use batchflow.Model.{Value}
use batchflow.Schema.{Schema, SchemaInterface}
use batchflow.Context.{background, deadline_exceeded}
use batchflow.Errors.{Error}
use batchflow.Classify.{is_context}
use batchflow.Driver.Redis.{generate_cmds}
use batchflow.Driver.Statements.{mysql_driver}
use batchflow.Executor.Actions.{Operation}
use batchflow.Executor.Reports.{custom_preview}
use batchflow.Executor.Settings.{Executor, new_throttled_batch_executor}
use batchflow.Executor.{execute_batch}
use batchflow.Processor.{Backend, execute_timeout}
use batchflow.Processor.Sql.{SqlBatchProcessor, sql_execute_operations, is_deadline}
use batchflow.Processor.Redis.{
  RedisBatchProcessor, redis_processor, redis_generate_operation_preview, redis_execute_operations,
}
use batchflow.Processor.Commands.{IsPiped, execute_batch-IsPiped}
use batchflow.Processor.Timeouts.{
  Limit, decision, limit_error, limit_decision, sql_execute_operations-limit,
}
use batchflow.BatchFlow.Setup.{Options, new_batch_flow_with_config}
use batchflow.BatchFlow.Setting.{Outcome, new_batch_flow_with_config-Outcome}
use batchflow.Tests.Data.{formatter, users}
use batchflow.Tests.Executing.{library, surroundings}
use batchflow.Tests.Entering.{config}

abbrev pub backend : Backend
backend = record {
  caller = λ h. background;
  polls = λ h own. background;
  cause = λ h own. none;
  cache = λ h. [];
  exec_context = λ h own sql args. none;
  exec_pipeline = λ h own cmds. (map (λ c. none) cmds, none);
}

abbrev pub options : Options
options = record {
  config = record config { concurrency_limit = pos 2; timeout = pos 5000000000 };
  metrics_reporter = none;
  observability = record {
    observer = none;
    has_logger = false;
    sampler = none;
    redactor = none;
    slow_batch_threshold = pos 0;
  };
  coalescer = none;
}

abbrev keys : Schema
keys = record { name = "keys"; columns = "id" ∷ "active" ∷ [] }

abbrev redis : RedisBatchProcessor
redis = record { driver = generate_cmds; timeout = pos 0 }

abbrev redis_executor : Executor
redis_executor = new_throttled_batch_executor (redis_processor library backend redis)

pipes : (execute_batch surroundings redis_executor (SchemaInterface.plain keys) users []).0 ≡ none
unfolding execute_batch new_throttled_batch_executor redis_processor generate_cmds
    redis_generate_operation_preview redis_execute_operations
pipes = refl

processes : redis_executor.processor ≡ redis_processor library backend redis
unfolding new_throttled_batch_executor
processes = refl

plain : redis_executor.coalescer ≡ none
unfolding new_throttled_batch_executor
plain = refl

execute_batch-IsPiped_example :
    IsPiped backend redis keys users
      (execute_batch surroundings redis_executor (SchemaInterface.plain keys) users []).1
execute_batch-IsPiped_example =
    execute_batch-IsPiped library backend redis surroundings redis_executor keys users [] processes
      plain refl pipes

abbrev late : Error
late = Error.wrap "driver: context deadline exceeded" (Error.context deadline_exceeded)

abbrev slow_backend : Backend
slow_backend = record backend {
  polls = λ h own t. some deadline_exceeded;
  cause = λ h own. some execute_timeout;
  exec_context = λ h own sql args. some late;
}

abbrev sql : SqlBatchProcessor
sql = record { driver = some (mysql_driver formatter); timeout = pos 5000000000 }

is_late : is_deadline late ≡ true
unfolding is_context
is_late = refl

sql_execute_operations-limit_example :
    (sql_execute_operations library formatter slow_backend sql []
        (Operation.value (Value.string "SELECT 1") ∷ [])
      ≡ some (limit_error Limit.processor))
    × (decision "execute" (custom_preview library "users" 1 1) 1 (limit_error Limit.processor)
        ≡ limit_decision Limit.processor)
sql_execute_operations-limit_example =
    sql_execute_operations-limit library formatter slow_backend sql [] "SELECT 1" [] Limit.processor
      late "execute" (custom_preview library "users" 1 1) 1 is_late refl refl

new_batch_flow_with_config-Outcome_example :
    Outcome config (some true) (new_batch_flow_with_config config (some true))
new_batch_flow_with_config-Outcome_example = new_batch_flow_with_config-Outcome config (some true)
