-- ===== src/Executor/Attempt.antt =====
-- executor.go: one attempt at a batch, and what is decided after it fails.
use batchflow.Prelude.{
  ℕ, ◌-◌, ◌==◌, String, ◌^^◌, Bool, true, false, not, ◌||◌, ◌∷◌, Option, none, some, length,
  if◌then◌else◌,
}
use batchflow.Model.{Batch}
use batchflow.Schema.{SchemaInterface, name}
use batchflow.Errors.{Error}
use batchflow.Observability.{
  OperationPreview, batch_error_from_error, new_batch_event, stage_generate, stage_execute,
  stage_retry, stage_final,
}
use batchflow.Executor.Actions.{Action, History, Operations, Surroundings}
use batchflow.Executor.Backoff.{retry_backoff}
use batchflow.Executor.Reports.{
  report_metric, report_operation_generated, report_operation_error, default_operation_error_reason,
  custom_preview,
}
use batchflow.Executor.Settings.{Executor}

pub record AttemptResult : Type 0 where
  pub preview : OperationPreview
  pub err : Option Error
  pub duration : ℕ

module _ (s : Surroundings) (e : Executor) (schema : SchemaInterface) (batch : Batch) where
  abbrev pub elapsed : History → History → ℕ
  elapsed start h = s.now h - s.now start

  -- observeBatchEvent, on the event of newBatchEvent
  unfoldable pub observe :
      String → String → ℕ → ℕ → OperationPreview → Option Error → String → History → History
  unfolding new_batch_event name
  observe stage status attempt duration preview err reason h =
      if e.has_observer
      then Action.on_batch_event (
          new_batch_event stage status attempt (length batch) duration (name schema) preview err
            reason)
        ∷ h
      else h

  -- generateOperations; the Boolean tells whether the processor made the preview.
  unfoldable pub generate_operations : History → Operations × OperationPreview × Bool × Option Error
  unfolding name custom_preview
  generate_operations h = elim e.processor.preview [
    | some f ↦
        let (ops, p, err) = f h schema batch in
        let p = if is_empty_text p.schema then record p { schema = name schema } else p in
        let p = if p.input_items == 0 then record p { input_items = length batch } else p in
        (ops, p, true, err)
    | none ↦
        let (ops, err) = e.processor.generate_operations h schema batch in
        (ops, custom_preview s.library (name schema) (length batch) (length ops), false, err)
  ]
    where
      is_empty_text : String → Bool
      is_empty_text String.[] = true
      is_empty_text (String.◌∷◌ c t) = false

  -- The two error branches of executeAttempt, which differ in the stage.
  unfoldable pub failed_attempt :
      String → History → OperationPreview → ℕ → Error → History → AttemptResult × History
  unfolding batch_error_from_error report_operation_error observe default_operation_error_reason
  failed_attempt stage start preview attempt cause h =
      let err = batch_error_from_error stage preview (length batch) cause in
      let h = report_operation_error s.custom e.reporter (name schema) stage err h in
      let duration = elapsed start h in
      (
        record { preview = preview; err = some err; duration = duration },
        observe stage "fail" attempt duration preview (some err)
            (default_operation_error_reason s.custom (some err)) h,
      )

  -- executeAttempt, after the operations are made
  unfoldable pub execute_generated :
      History
      → ℕ
      → Operations × OperationPreview × Bool × Option Error
      → History
      → AttemptResult × History
  unfolding failed_attempt report_operation_generated observe
  execute_generated start attempt (ops, preview, has_preview, some cause) h =
      failed_attempt stage_generate start preview attempt cause h
  execute_generated start attempt (ops, preview, has_preview, none) h =
      let h =
        report_operation_generated s.library e.reporter (name schema) ops (length batch) preview
          has_preview h in
      let result = e.processor.execute_operations h ops in
      let h = Action.execute ops ∷ h in
      elim result [
        | some cause ↦ failed_attempt stage_execute start preview attempt cause h
        | none ↦
            let duration = elapsed start h in
            (
              record { preview = preview; err = none; duration = duration },
              observe stage_execute "success" attempt duration preview none "" h,
            )
      ]

  unfoldable pub execute_attempt : ℕ → History → AttemptResult × History
  unfolding generate_operations execute_generated
  execute_attempt attempt h =
      execute_generated h attempt (generate_operations h) (Action.generate ∷ h)

  -- The classifier's answer in handleRetry.
  abbrev pub verdict : Error → Bool × String
  verdict err = elim e.retry_classifier [ none ↦ (false, "unknown") | some f ↦ f err ]

  -- The end of handleRetry: the timer runs out, or the context is done first.
  unfoldable pub pause : ℕ → History → (Bool × Option Error) × History
  unfolding retry_backoff
  pause attempt h =
      let backoff =
        retry_backoff s.fifth e.retry_backoff_base e.retry_max_backoff (s.now h) attempt in
      elim (s.select_timer h backoff) [
        | some c ↦ ((false, some (Error.context c)), Action.wait backoff ∷ h)
        | none ↦ ((true, none), Action.wait backoff ∷ h)
      ]

  -- handleRetry, for the error of a failed attempt: whether to go on, or the context's error.
  unfoldable pub handle_retry :
      AttemptResult → Error → ℕ → ℕ → History → History → (Bool × Option Error) × History
  unfolding report_metric observe pause
  handle_retry result err attempt attempts start h =
      let (retryable, reason) = verdict err in
      if not e.retry_enabled || (attempt == attempts || not retryable)
      then (let h =
            report_metric e.reporter (Action.inc_error (name schema) ("final:" ^^ reason)) h in
          (
            (false, none),
            observe stage_final "fail" attempt (elapsed start h) result.preview (some err) reason h,
          ))
      else (let h =
            report_metric e.reporter (Action.inc_error (name schema) ("retry:" ^^ reason)) h in
          pause attempt (
            observe stage_retry "retry" attempt result.duration result.preview (some err) reason h))
