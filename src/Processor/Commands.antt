-- ===== src/Processor/Commands.antt =====
-- What the success of ExecuteBatch means for Redis: executor.go and RedisBatchProcessor of
-- processor.go together.
use batchflow.Prelude.{
  ◌≡◌, ◌≢◌, refl, sym, ap, ◌∙◌, false, List, [], ◌∷◌, Option, none, some, map, is_empty, All, arith,
  Option-cases, inl, inr,
}
use batchflow.Model.{Batch}
use batchflow.Schema.{Schema, SchemaInterface}
use batchflow.Errors.{Error, ok, Result-cases}
use batchflow.Driver.Redis.{RedisCmd}
use batchflow.Observability.{Library}
use batchflow.Executor.Actions.{History, Operation, Operations, Processor, Surroundings}
use batchflow.Executor.Settings.{Executor}
use batchflow.Executor.Attempt.{generate_operations}
use batchflow.Executor.{execute_batch}
use batchflow.Executor.Delivery.{IsDelivered, last_execution, execute_batch-IsDelivered}
use batchflow.Processor.{Backend, is_timed}
use batchflow.Processor.Redis.{
  RedisBatchProcessor, redis_processor, redis_generate_operation_preview, redis_generate_operations,
  redis_previewed, redis_execute_operations, commands_as, commands_of, poll_each, pipeline_result,
  join_all,
}

-- The driver has made the commands of the rows, they are what the processor was handed last, and the
-- pipeline was given exactly them: Exec and every one of its results came back without an error.
pub record IsPiped (b : Backend) (p : RedisBatchProcessor) (schema : Schema) (batch : Batch)
    (h : History) : Type 0 where
  pub commands : List RedisCmd
  pub before : History
  pub start : History
  pub made : p.driver (b.caller start) (SchemaInterface.plain schema) batch ≡ ok commands
  pub last : last_execution h ≡ some (map Operation.cmd commands, before)
  pub without_error : (b.exec_pipeline before (is_timed p.timeout) commands).1 ≡ none
  pub accepted :
      All (λ (r : Option Error). r ≡ none) (b.exec_pipeline before (is_timed p.timeout) commands).0

commands_of-map : (cmds : List RedisCmd) → commands_of (map Operation.cmd cmds) ≡ cmds
unfolding commands_of
commands_of-map [] = refl
commands_of-map (c ∷ cmds) = ap (λ (cs : List RedisCmd). c ∷ cs) (commands_of-map cmds)

join_all-some : (e : Error) (results : List (Option Error)) → join_all (some e) results ≢ none
unfolding join_all
join_all-some e [] h = absurd (ground arith)
join_all-some e (none ∷ results) h = join_all-some e results h
join_all-some e (some d ∷ results) h = join_all-some (Error.joined e d) results h

join_all-none :
    (results : List (Option Error))
    → join_all none results ≡ none
    → All (λ (r : Option Error). r ≡ none) results
unfolding join_all
join_all-none [] h = tt
join_all-none (none ∷ results) h = (refl, join_all-none results h)
join_all-none (some e ∷ results) h = absurd (join_all-some _ results h)

pipeline_result-none :
    (cause : Option Error) (answer : List (Option Error) × Option Error)
    → pipeline_result cause answer ≡ none
    → (answer.1 ≡ none) × All (λ (r : Option Error). r ≡ none) answer.0
unfolding pipeline_result
pipeline_result-none cause (results, none) h = (refl, join_all-none results h)
pipeline_result-none none (results, some e) h = absurd (ground arith)
pipeline_result-none (some c) (results, some e) h = absurd (ground arith)

module _ (lib : Library) (b : Backend) (p : RedisBatchProcessor) where
  commands-executed :
      (h : History) (cmds : List RedisCmd)
      → redis_execute_operations lib b p h (map Operation.cmd cmds) ≡ none
      → ((b.exec_pipeline h (is_timed p.timeout) cmds).1 ≡ none)
        × All (λ (r : Option Error). r ≡ none) (b.exec_pipeline h (is_timed p.timeout) cmds).0
  unfolding redis_execute_operations
  commands-executed h cmds good =
      elim (Option-cases (poll_each (b.polls h (is_timed p.timeout)) (map Operation.cmd cmds))) [
        | inr (e, stopped) ↦ cc (rw (stopped, redis_execute_operations) at good)
        | inl polled ↦
            pipeline_result-none (b.cause h (is_timed p.timeout)) _
              (rw (polled, redis_execute_operations, commands_of-map cmds) at good)
      ]

  commands-made :
      (schema : Schema) (batch : Batch) (h : History)
      → (redis_generate_operation_preview lib b p h (SchemaInterface.plain schema) batch).2 ≡ none
      → (cmds : List RedisCmd) × (p.driver (b.caller h) (SchemaInterface.plain schema) batch
          ≡ ok cmds)
        × ((redis_generate_operation_preview lib b p h (SchemaInterface.plain schema) batch).0
            ≡ map Operation.cmd cmds)
  unfolding redis_generate_operation_preview redis_generate_operations redis_previewed commands_as
  commands-made schema batch h good =
      elim (Result-cases (p.driver (b.caller h) (SchemaInterface.plain schema) batch)) [
        | inl (cmds, made) ↦ (cmds, made, rw made refl)
        | inr (e, failed) ↦ cc (rw failed at good)
      ]

  IsDelivered-IsPiped :
      (s : Surroundings) (e : Executor) (schema : Schema) (batch : Batch) (h : History)
      → e.processor ≡ redis_processor lib b p
      → IsDelivered s e (SchemaInterface.plain schema) batch h
      → IsPiped b p schema batch h
  unfolding generate_operations redis_processor
  IsDelivered-IsPiped s e schema batch h same d =
      let (cmds, made, text) =
        commands-made schema batch d.start (rw (same, generate_operations) at d.without_error) in
      let handed : d.operations ≡ map Operation.cmd cmds =
        sym d.generated ∙ rw (same, generate_operations) text in
      let executed = commands-executed d.before cmds (
        ap (λ (ops : Operations). redis_execute_operations lib b p d.before ops) (sym handed)
        ∙ (ap (λ (q : Processor). q.execute_operations d.before d.operations) (sym same)
            ∙ d.accepted)) in
      record {
        commands = cmds;
        before = d.before;
        start = d.start;
        made = made;
        last = d.last ∙ ap (λ (ops : Operations). some (ops, d.before)) handed;
        without_error = executed.0;
        accepted = executed.1;
      }

-- When the executor's processor is a Redis one and there is no coalescer, ExecuteBatch returns nil on
-- a batch with rows and a plain schema only if the driver has made commands of the rows without an
-- error, and a pipeline with exactly these commands was executed without an error of Exec and without
-- an error of any command.
pub execute_batch-IsPiped :
    (lib : Library) (b : Backend) (p : RedisBatchProcessor) (s : Surroundings) (e : Executor)
    (schema : Schema) (batch : Batch) (h : History)
    → e.processor ≡ redis_processor lib b p
    → e.coalescer ≡ none
    → is_empty batch ≡ false
    → (execute_batch s e (SchemaInterface.plain schema) batch h).0 ≡ none
    → IsPiped b p schema batch (execute_batch s e (SchemaInterface.plain schema) batch h).1
execute_batch-IsPiped lib b p s e schema batch h same plain rows good =
    IsDelivered-IsPiped lib b p s e schema batch _ same
      (execute_batch-IsDelivered s e (SchemaInterface.plain schema) batch h rows plain good)
