-- ===== src/Processor/Redis.antt =====
-- RedisBatchProcessor of processor.go.
use batchflow.Prelude.{
  ℕ, ◌+◌, String, List, [], ◌∷◌, Option, none, some, length, map, if◌then◌else◌,
}
use batchflow.Prelude.Int.{ℤ, pos}
use batchflow.Model.{Value, Batch}
use batchflow.Schema.{SchemaInterface, name, columns}
use batchflow.Context.{Context, later}
use batchflow.Errors.{Error, Result, ok, err, error_text}
use batchflow.Driver.Redis.{RedisCmd}
use batchflow.Observability.{
  Library, OperationPreview, operation_fingerprint, clone_attributes, backend_redis,
  operation_command, stage_generate,
}
use batchflow.Executor.Actions.{History, Operation, Operations, Processor}
use batchflow.Processor.{Backend, is_timed}
use batchflow.Processor.Sql.{is_deadline}

-- RedisDriver: its method GenerateCmds
abbrev pub RedisDriver : Type 0
RedisDriver = Context → SchemaInterface → Batch → Result (List RedisCmd)

pub record RedisBatchProcessor : Type 0 where
  pub driver : RedisDriver
  pub timeout : ℤ

-- NewRedisBatchProcessor
unfoldable pub new_redis_batch_processor : RedisDriver → RedisBatchProcessor
new_redis_batch_processor driver = record { driver = driver; timeout = pos 0 }

-- WithTimeout
unfoldable pub redis_with_timeout : RedisBatchProcessor → ℤ → RedisBatchProcessor
redis_with_timeout p timeout = record p { timeout = timeout }

unfoldable pub redis_operation_arg_count : Operations → ℕ
redis_operation_arg_count [] = 0
redis_operation_arg_count (Operation.cmd c ∷ ops) = length c + redis_operation_arg_count ops
redis_operation_arg_count (Operation.value v ∷ ops) = redis_operation_arg_count ops
redis_operation_arg_count (Operation.preview p ∷ ops) = redis_operation_arg_count ops

-- The first word of each command that has one.
unfoldable pub command_names : Library → Operations → List String
command_names lib [] = []
command_names lib (Operation.cmd [] ∷ ops) = command_names lib ops
command_names lib (Operation.cmd (v ∷ vs) ∷ ops) = lib.sprint v ∷ command_names lib ops
command_names lib (Operation.value v ∷ ops) = command_names lib ops
command_names lib (Operation.preview p ∷ ops) = command_names lib ops

unfoldable pub redis_operations_fingerprint : Library → SchemaInterface → Operations → String
unfolding operation_fingerprint command_names name
redis_operations_fingerprint lib schema ops =
    operation_fingerprint lib (backend_redis ∷ name schema ∷ command_names lib ops)

-- The commands among the operations, and the loop that hands them to the pipeline.
unfoldable pub commands_of : Operations → List RedisCmd
commands_of [] = []
commands_of (Operation.cmd c ∷ ops) = c ∷ commands_of ops
commands_of (Operation.value v ∷ ops) = commands_of ops
commands_of (Operation.preview p ∷ ops) = commands_of ops

-- The polls of the loop: the error of the first that says that the context is done.
unfoldable pub poll_each : Context → Operations → Option Error
poll_each ctx [] = none
poll_each ctx (o ∷ ops) = elim (ctx 0) [
  | some e ↦ some (Error.context e)
  | none ↦ poll_each (later 1 ctx) ops
]

-- errors.Join(err, e), where `err` may be nil
abbrev pub join_errors : Option Error → Error → Error
join_errors none e = Error.wrap (error_text e) e
join_errors (some d) e = Error.joined d e

-- The loop over the results of the commands.
unfoldable pub join_all : Option Error → List (Option Error) → Option Error
unfolding error_text
join_all sofar [] = sofar
join_all sofar (none ∷ results) = join_all sofar results
join_all sofar (some e ∷ results) = join_all (some (join_errors sofar e)) results

-- What ExecuteOperations makes of the answer of the pipeline.
unfoldable pub pipeline_result : Option Error → List (Option Error) × Option Error → Option Error
unfolding join_all
pipeline_result cause (results, none) = join_all none results
pipeline_result cause (results, some e) =
    if is_deadline e then some (elim cause [ some c ↦ c | none ↦ e ]) else some e

module _ (lib : Library) (b : Backend) (p : RedisBatchProcessor) where
  unfoldable pub commands_as : Result (List RedisCmd) → Operations × Option Error
  commands_as (err e) = ([], some e)
  commands_as (ok cmds) = (map Operation.cmd cmds, none)

  -- GenerateOperations
  unfoldable pub redis_generate_operations :
      History → SchemaInterface → Batch → Operations × Option Error
  unfolding commands_as
  redis_generate_operations h (SchemaInterface.plain s) batch =
      commands_as (p.driver (b.caller h) (SchemaInterface.plain s) batch)
  redis_generate_operations h (SchemaInterface.custom s) batch =
      ([], some (Error.text "schema is not a Schema"))
  redis_generate_operations h (SchemaInterface.sql s) batch =
      ([], some (Error.text "schema is not a Schema"))

  unfoldable pub redis_preview : SchemaInterface → ℕ → Operations → OperationPreview
  unfolding redis_operation_arg_count redis_operations_fingerprint name columns
  redis_preview schema size ops = record {
    backend = backend_redis;
    operation = operation_command;
    schema = name schema;
    input_items = size;
    output_items = length ops;
    arg_count = redis_operation_arg_count ops;
    fingerprint = redis_operations_fingerprint lib schema ops;
    attributes =
        ("commands", Value.int (pos (length ops)))
        ∷ ("columns", Value.int (pos (length (columns schema))))
        ∷ [];
  }

  -- GenerateOperationPreview, from what GenerateOperations has returned
  unfoldable pub redis_previewed :
      SchemaInterface → ℕ → Operations × Option Error → Operations × OperationPreview × Option Error
  unfolding redis_preview clone_attributes
  redis_previewed schema size (ops, none) = (ops, redis_preview schema size ops, none)
  redis_previewed schema size (ops, some e) =
      let preview = redis_preview schema size ops in
      (
        [],
        preview,
        some (
            Error.batch
              (record {
                stage = stage_generate;
                backend = backend_redis;
                schema = name schema;
                batch_size = size;
                fingerprint = preview.fingerprint;
                attributes = clone_attributes preview.attributes;
              })
              e),
      )

  unfoldable pub redis_generate_operation_preview :
      History → SchemaInterface → Batch → Operations × OperationPreview × Option Error
  unfolding redis_previewed redis_generate_operations
  redis_generate_operation_preview h schema batch =
      redis_previewed schema (length batch) (redis_generate_operations h schema batch)

  -- ExecuteOperations
  unfoldable pub redis_execute_operations : History → Operations → Option Error
  unfolding poll_each commands_of pipeline_result
  redis_execute_operations h ops = elim (poll_each (b.polls h (is_timed p.timeout)) ops) [
    | some e ↦ some e
    | none ↦
        pipeline_result (b.cause h (is_timed p.timeout))
          (b.exec_pipeline h (is_timed p.timeout) (commands_of ops))
  ]

  -- The processor as the executor sees it.
  unfoldable pub redis_processor : Processor
  redis_processor = record {
    preview = some redis_generate_operation_preview;
    generate_operations = redis_generate_operations;
    execute_operations = redis_execute_operations;
  }
