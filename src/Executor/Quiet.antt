-- ===== src/Executor/Quiet.antt =====
-- Reports of errors, previews and events, in executor.go, are all that lies between the calls of the
-- processor: a view of the history that passes over them does not see the reporting functions.
use batchflow.Prelude.{
  ℕ, String, ◌≡◌, refl, ◌∙◌, Bool, true, false, not, ◌||◌, ◌==◌, List, ◌∷◌, Option, none, some,
  arith, Bool-cases, Option-cases, inl, inr, length,
}
use batchflow.Model.{Batch}
use batchflow.Schema.{SchemaInterface, name}
use batchflow.Errors.{Error}
use batchflow.Classify.{Classifier}
use batchflow.Observability.{OperationPreview, Library, batch_error_from_error}
use batchflow.Executor.Actions.{Action, History, Operations, Surroundings}
use batchflow.Executor.Backoff.{retry_backoff}
use batchflow.Executor.Settings.{Executor}
use batchflow.Executor.Reports.{
  Capabilities, report_metric, report_operation_metric, report_sql_metric,
  report_operation_generated, report_operation_error, sql_preview_from_operation, is_sql_error,
}
use batchflow.Executor.Attempt.{
  AttemptResult, observe, verdict, failed_attempt, execute_generated, execute_attempt,
  generate_operations, pause, handle_retry,
}

abbrev pub is_quiet : Action → Bool
is_quiet (Action.inc_error t r) = true
is_quiet (Action.observe_operation_generated p) = true
is_quiet (Action.inc_operation_error t b s r) = true
is_quiet (Action.observe_sql_generated t i o a) = true
is_quiet (Action.observe_sql_deduplicated t s d m) = true
is_quiet (Action.inc_sql_error t s r) = true
is_quiet (Action.on_batch_event e) = true
is_quiet _ = false

-- A view that passes over reports.
abbrev pub PassesOver : {A : Type 0} → (History → A) → Type 0
PassesOver view = (a : Action) (h : History) → is_quiet a ≡ true → view (a ∷ h) ≡ view h

module _ {A : Type 0} (view : History → A) (over : PassesOver view) where
  pub view-report_metric :
      (r : Option Capabilities) (a : Action) (h : History)
      → is_quiet a ≡ true
      → view (report_metric r a h) ≡ view h
  unfolding report_metric
  view-report_metric none a h q = refl
  view-report_metric (some c) a h q = over a h q

  view-report_operation_metric :
      (r : Option Capabilities) (a : Action) (h : History)
      → is_quiet a ≡ true
      → view (report_operation_metric r a h) ≡ view h
  unfolding report_operation_metric
  view-report_operation_metric none a h q = refl
  view-report_operation_metric (some c) a h q = ground (arith, over a h q)

  view-report_sql_metric :
      (r : Option Capabilities) (a : Action) (h : History)
      → is_quiet a ≡ true
      → view (report_sql_metric r a h) ≡ view h
  unfolding report_sql_metric
  view-report_sql_metric none a h q = refl
  view-report_sql_metric (some c) a h q = ground (arith, over a h q)

  pub view-report_operation_generated :
      (lib : Library) (r : Option Capabilities) (table : String) (ops : Operations) (n : ℕ)
      (p : OperationPreview) (made : Bool) (h : History)
      → view (report_operation_generated lib r table ops n p made h) ≡ view h
  unfolding report_operation_generated
  view-report_operation_generated lib r table ops n p made h =
      elim (Option-cases (sql_preview_from_operation lib p)) [
        | inl e ↦ rw (e, report_operation_generated) (view-report_operation_metric r _ h refl)
        | inr (q, e) ↦
            rw (e, report_operation_generated)
              (view-report_sql_metric r _ _ refl
                ∙ view-report_sql_metric r _ _ refl
                ∙ view-report_operation_metric r _ h refl)
      ]

  view-report_operation_error :
      (custom : List Classifier) (r : Option Capabilities) (table stage : String) (e : Error)
      (h : History)
      → view (report_operation_error custom r table stage e h) ≡ view h
  unfolding report_operation_error
  view-report_operation_error custom r table stage e h = elim (Bool-cases (is_sql_error e)) [
    | inl sql ↦
        rw (sql, report_operation_error)
          (view-report_sql_metric r _ _ refl ∙ view-report_operation_metric r _ h refl)
    | inr other ↦ rw (other, report_operation_error) (view-report_operation_metric r _ h refl)
  ]

  pub view-observe :
      (s : Surroundings) (e : Executor) (schema : SchemaInterface) (batch : Batch)
      (stage status : String) (attempt duration : ℕ) (p : OperationPreview) (err : Option Error)
      (reason : String) (h : History)
      → view (observe s e schema batch stage status attempt duration p err reason h) ≡ view h
  unfolding observe
  view-observe s e schema batch stage status attempt duration p err reason h =
      elim (Bool-cases e.has_observer) [
        | inl on ↦ rw (on, observe) (over _ h refl)
        | inr off ↦ rw (off, observe) refl
      ]

  -- What one attempt and its aftermath add, to a view that also passes over executions and waits.
  module _ (s : Surroundings) (e : Executor) (schema : SchemaInterface) (batch : Batch)
      (over_execute : (ops : Operations) (h : History) → view (Action.execute ops ∷ h) ≡ view h)
      (over_wait : (d : ℕ) (h : History) → view (Action.wait d ∷ h) ≡ view h) where
    view-failed_attempt :
        (stage : String) (start : History) (p : OperationPreview) (attempt : ℕ) (cause : Error)
        (h : History)
        → view (failed_attempt s e schema batch stage start p attempt cause h).1 ≡ view h
    unfolding failed_attempt
    view-failed_attempt stage start p attempt cause h =
        view-observe s e schema batch stage "fail" attempt _ p _ _ _
        ∙ view-report_operation_error s.custom e.reporter (name schema) stage
            (batch_error_from_error stage p (length batch) cause) h

    view-execute_generated :
        (start : History) (attempt : ℕ) (g : Operations × OperationPreview × Bool × Option Error)
        (h : History)
        → view (execute_generated s e schema batch start attempt g h).1 ≡ view h
    unfolding execute_generated
    view-execute_generated start attempt (ops, p, made, some cause) h =
        view-failed_attempt _ start p attempt cause h
    view-execute_generated start attempt (ops, p, made, none) h =
        let reported =
          report_operation_generated s.library e.reporter (name schema) ops (length batch) p made
            h in
        let before =
          over_execute ops reported
          ∙ view-report_operation_generated s.library e.reporter (name schema) ops (length batch) p
              made h in
        elim (Option-cases (e.processor.execute_operations reported ops)) [
          | inl done ↦
              rw (done, execute_generated)
                (view-observe s e schema batch _ _ attempt _ p _ _ _ ∙ before)
          | inr (cause, failed) ↦
              rw (failed, execute_generated)
                (view-failed_attempt _ start p attempt cause _ ∙ before)
        ]

    pub view-execute_attempt :
        (attempt : ℕ) (h : History)
        → view (execute_attempt s e schema batch attempt h).1 ≡ view (Action.generate ∷ h)
    unfolding execute_attempt
    view-execute_attempt attempt h =
        view-execute_generated h attempt (generate_operations s e schema batch h) _

    view-pause : (attempt : ℕ) (h : History) → view (pause s e schema batch attempt h).1 ≡ view h
    unfolding pause
    view-pause attempt h =
        let backoff =
          retry_backoff s.fifth e.retry_backoff_base e.retry_max_backoff (s.now h) attempt in
        elim (Option-cases (s.select_timer h backoff)) [
          | inl on ↦ rw (on, pause) (over_wait backoff h)
          | inr (c, done) ↦ rw (done, pause) (over_wait backoff h)
        ]

    pub view-handle_retry :
        (result : AttemptResult) (err : Error) (attempt attempts : ℕ) (start h : History)
        → view (handle_retry s e schema batch result err attempt attempts start h).1 ≡ view h
    unfolding handle_retry
    view-handle_retry result err attempt attempts start h =
        elim (Bool-cases
          (not e.retry_enabled || (attempt == attempts || not (verdict s e schema batch err).0))) [
            | inl final ↦
                rw (final, handle_retry)
                  (view-observe s e schema batch _ _ attempt _ result.preview _ _ _
                    ∙ view-report_metric e.reporter _ h refl)
            | inr again ↦
                rw (again, handle_retry)
                  (view-pause attempt _
                    ∙ view-observe s e schema batch _ _ attempt _ result.preview _ _ _
                    ∙ view-report_metric e.reporter _ h refl)
          ]
