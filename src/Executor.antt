-- ===== src/Executor.antt =====
-- executor.go: ThrottledBatchExecutor, which coalesces a batch, waits for a token, and hands the batch
-- to its processor until that succeeds or the retries end. The proofs are in the modules below.
pub mod Actions
pub mod Backoff
pub mod Reports
pub mod Settings
pub mod Attempt
pub mod Quiet
pub mod Rounds
pub mod Lifecycle
pub mod Attempts
pub mod Delivery
pub mod Waits
pub mod Mock
pub mod Limit
pub mod Fuel
use batchflow.Prelude.{
  ℕ, zero, suc, ◌+◌, ◌-◌, ◌==◌, String, ◌^^◌, Bool, true, false, not, ◌||◌, ltb, List, [], ◌∷◌,
  Option, none, some, length, is_empty, itoa, if◌then◌else◌,
}
use batchflow.Prelude.Int.{ℤ, pos, negsuc}
use batchflow.Model.{Batch}
use batchflow.Schema.{SchemaInterface, name}
use batchflow.Context.{ContextErr}
use batchflow.Errors.{Error}
use batchflow.Classify.{classify_error}
use batchflow.Coalescer.{Coalescer}
use batchflow.Observability.{
  OperationPreview, batch_error_from_error, new_batch_event, operation_fingerprint, backend_custom,
  operation_custom, stage_validate, stage_generate, stage_execute, stage_retry, stage_final,
}
use batchflow.Executor.Actions.{Action, History, Operations, Processor, Surroundings}
use batchflow.Executor.Backoff.{retry_backoff}
use batchflow.Executor.Reports.{
  Capabilities, report_metric, report_operation_generated, report_operation_error,
  default_operation_error_reason, custom_preview,
}
use batchflow.Executor.Settings.{Executor}
use batchflow.Executor.Attempt.{elapsed, execute_attempt, handle_retry}

module _ (s : Surroundings) (e : Executor) (schema : SchemaInterface) (batch : Batch) where
  unfoldable pub attempts_of : ℕ
  attempts_of =
      if e.retry_enabled
      then (if ltb 1 e.retry_max_attempts then e.retry_max_attempts else 1)
      else 1

  -- The loop of ExecuteBatch, with the rounds that are left, the number of the next one, and the
  -- variables `status` and `err`.
  unfoldable pub run_attempts :
      ℕ → ℕ → ℕ → History → String → Option Error → History → (String × Option Error) × History
  unfolding execute_attempt handle_retry
  run_attempts zero attempt attempts start status err h = ((status, err), h)
  run_attempts (suc rounds) attempt attempts start status err h =
      let tried = execute_attempt s e schema batch attempt h in
      elim tried.0.err [
        | none ↦ (("success", none), tried.1)
        | some failure ↦
            let decided =
              handle_retry s e schema batch tried.0 failure attempt attempts start tried.1 in
            elim decided.0.1 [
              | some stop ↦ (("fail", some stop), decided.1)
              | none ↦ elim decided.0.0 [
                | false ↦ (("fail", some failure), decided.1)
                | true ↦
                    run_attempts rounds (attempt + 1) attempts start status (some failure) decided.1
              ]
            ]
      ]

  -- ExecuteBatch once the batch is let in
  unfoldable pub execute_admitted : History → Option Error × History
  unfolding report_metric run_attempts attempts_of name
  execute_admitted start =
      let h = report_metric e.reporter Action.inc_inflight start in
      let ended = run_attempts attempts_of 1 attempts_of start "success" none h in
      let h =
        report_metric e.reporter
          (Action.observe_execute_duration (name schema) (length batch)
            (elapsed s e schema batch start ended.1) ended.0.0)
          ended.1 in
      (ended.0.1, report_metric e.reporter Action.dec_inflight h)

  -- ExecuteBatch once the batch is coalesced
  unfoldable pub execute_coalesced : History → Option Error × History
  unfolding execute_admitted
  execute_coalesced h = elim e.semaphore [
    | none ↦ execute_admitted h
    | some limit ↦ elim (s.select_token h) [
      | some c ↦ (some (Error.context c), h)
      | none ↦
          let ended = execute_admitted (Action.acquire ∷ h) in (ended.0, Action.release ∷ ended.1)
    ]
  ]

-- The error of ExecuteBatch when the coalescer fails.
unfoldable pub coalesce_failure : SchemaInterface → Batch → Error → Error
unfolding batch_error_from_error name
coalesce_failure schema batch e =
    batch_error_from_error stage_validate
      (record {
        backend = backend_custom;
        operation = operation_custom;
        schema = name schema;
        input_items = length batch;
        output_items = 0;
        arg_count = 0;
        fingerprint = "";
        attributes = [];
      })
      (length batch) e

-- ExecuteBatch
unfoldable pub execute_batch :
    Surroundings → Executor → SchemaInterface → Batch → History → Option Error × History
unfolding execute_coalesced coalesce_failure
execute_batch s e schema batch h = if is_empty batch then (none, h) else elim e.coalescer [
  | none ↦ execute_coalesced s e schema batch h
  | some coalescer ↦
      let (result, err) = coalescer s.ctx schema batch in
      elim err [
        | some cause ↦ (some (coalesce_failure schema batch cause), h)
        | none ↦
            if is_empty result.batch then (none, h) else execute_coalesced s e schema result.batch h
      ]
]
