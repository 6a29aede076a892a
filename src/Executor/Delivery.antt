-- ===== src/Executor/Delivery.antt =====
-- What the success of ExecuteBatch of executor.go means.
use batchflow.Prelude.{
  ℕ, zero, suc, ◌+◌, String, ◌≤◌, ◌≡◌, refl, ap, ◌∙◌, Bool, false, [], ◌∷◌, Option, none, some,
  arith, length, is_empty, Bool-cases, Option-cases, inl, inr,
}
use batchflow.Model.{Batch}
use batchflow.Schema.{SchemaInterface, name}
use batchflow.Errors.{Error}
use batchflow.Observability.{OperationPreview}
use batchflow.Executor.Actions.{Action, History, Operations, Surroundings}
use batchflow.Executor.Settings.{Executor}
use batchflow.Executor.Reports.{Capabilities, report_metric, report_operation_generated}
use batchflow.Executor.Attempt.{
  failed_attempt, execute_generated, execute_attempt, generate_operations, handle_retry,
}
use batchflow.Executor.{
  run_attempts, attempts_of, execute_admitted, execute_coalesced, execute_batch,
}
use batchflow.Executor.Quiet.{PassesOver, view-observe}
use batchflow.Executor.Rounds.{attempts_of-positive, execute_coalesced-cases}

-- The newest operations that were handed to the processor, with the history before that.
unfoldable pub last_execution : History → Option (Operations × History)
last_execution [] = none
last_execution (Action.execute ops ∷ h) = some (ops, h)
last_execution (_ ∷ h) = last_execution h

last_execution-over : PassesOver last_execution
unfolding last_execution
last_execution-over (Action.inc_error t r) h q = refl
last_execution-over (Action.observe_operation_generated p) h q = refl
last_execution-over (Action.inc_operation_error t b s r) h q = refl
last_execution-over (Action.observe_sql_generated t i o a) h q = refl
last_execution-over (Action.observe_sql_deduplicated t s d m) h q = refl
last_execution-over (Action.inc_sql_error t s r) h q = refl
last_execution-over (Action.on_batch_event e) h q = refl
last_execution-over Action.generate h q = refl
last_execution-over (Action.execute ops) h q = cc
last_execution-over (Action.wait d) h q = refl
last_execution-over (Action.set_concurrency n) h q = refl
last_execution-over Action.acquire h q = refl
last_execution-over Action.release h q = refl
last_execution-over Action.inc_inflight h q = refl
last_execution-over Action.dec_inflight h q = refl
last_execution-over (Action.observe_execute_duration t n d s) h q = refl

last-report_metric :
    (r : Option Capabilities) (a : Action) (h : History)
    → last_execution (a ∷ h) ≡ last_execution h
    → last_execution (report_metric r a h) ≡ last_execution h
unfolding report_metric
last-report_metric none a h q = refl
last-report_metric (some c) a h q = q

abbrev Generated : Type 0
Generated = Operations × OperationPreview × Bool × Option Error

-- The operations that the processor made of the batch at some time were the last ones that it was
-- handed, and it accepted them.
pub record IsDelivered (s : Surroundings) (e : Executor) (schema : SchemaInterface) (batch : Batch)
    (h : History) : Type 0 where
  pub operations : Operations
  pub before : History
  pub start : History
  pub generated : (generate_operations s e schema batch start).0 ≡ operations
  pub without_error : (generate_operations s e schema batch start).3 ≡ none
  pub last : last_execution h ≡ some (operations, before)
  pub accepted : e.processor.execute_operations before operations ≡ none

module _ (s : Surroundings) (e : Executor) (schema : SchemaInterface) (batch : Batch) where
  IsDelivered-moved :
      (h h' : History)
      → last_execution h' ≡ last_execution h
      → IsDelivered s e schema batch h
      → IsDelivered s e schema batch h'
  IsDelivered-moved h h' same d = record {
    operations = d.operations;
    before = d.before;
    start = d.start;
    generated = d.generated;
    without_error = d.without_error;
    last = same ∙ d.last;
    accepted = d.accepted;
  }

  execute_generated-IsDelivered :
      (start : History) (attempt : ℕ) (g : Operations × OperationPreview × Bool × Option Error)
      (h : History)
      → generate_operations s e schema batch start ≡ g
      → (execute_generated s e schema batch start attempt g h).0.err ≡ none
      → IsDelivered s e schema batch (execute_generated s e schema batch start attempt g h).1
  unfolding execute_generated last_execution failed_attempt
  execute_generated-IsDelivered start attempt (ops, p, made, some cause) h from good = cc
  execute_generated-IsDelivered start attempt (ops, p, made, none) h from good =
      let reported =
        report_operation_generated s.library e.reporter (name schema) ops (length batch) p made h in
      elim (Option-cases (e.processor.execute_operations reported ops)) [
        | inl done ↦
            rw (done, execute_generated)
              (record {
                operations = ops;
                before = reported;
                start = start;
                generated = ap (λ (g : Generated). g.0) from;
                without_error = ap (λ (g : Generated). g.3) from;
                last =
                    view-observe last_execution last_execution-over s e schema batch _ _ attempt _ p
                      _ _ _;
                accepted = done;
              })
        | inr (cause, failed) ↦ cc (rw (failed, execute_generated) at good)
      ]

  run_attempts-IsDelivered :
      (rounds attempt attempts : ℕ) (start : History) (status : String) (err : Option Error)
      (h : History)
      → (err ≡ none → 1 ≤ rounds)
      → (run_attempts s e schema batch rounds attempt attempts start status err h).0.1 ≡ none
      → IsDelivered s e schema batch
          (run_attempts s e schema batch rounds attempt attempts start status err h).1
  unfolding run_attempts execute_attempt
  run_attempts-IsDelivered zero attempt attempts start status err h some_round good =
      absurd (omega (arith, some_round good))
  run_attempts-IsDelivered (suc rounds) attempt attempts start status err h some_round good =
      let tried = execute_attempt s e schema batch attempt h in
      elim (Option-cases tried.0.err) [
        | inl done ↦
            rw (done, run_attempts)
              (execute_generated-IsDelivered h attempt (generate_operations s e schema batch h)
                (Action.generate ∷ h) refl done)
        | inr (failure, failed) ↦
            let decided =
              handle_retry s e schema batch tried.0 failure attempt attempts start tried.1 in
            elim (Option-cases decided.0.1) [
              | inr (stop, stopped) ↦ cc (rw (failed, run_attempts, stopped) at good)
              | inl going ↦ elim (Bool-cases decided.0.0) [
                | inr ends ↦ cc (rw (failed, run_attempts, going, ends) at good)
                | inl again ↦
                    rw (failed, run_attempts, going, again)
                      (run_attempts-IsDelivered rounds (attempt + 1) attempts start status
                        (some failure) decided.1 (λ h. cc)
                        (rw (failed, run_attempts, going, again) at good))
              ]
            ]
      ]

  execute_admitted-IsDelivered :
      (start : History)
      → (execute_admitted s e schema batch start).0 ≡ none
      → IsDelivered s e schema batch (execute_admitted s e schema batch start).1
  unfolding execute_admitted last_execution
  execute_admitted-IsDelivered start good =
      let begun = report_metric e.reporter Action.inc_inflight start in
      let rounds = attempts_of s e schema batch in
      let delivered =
        run_attempts-IsDelivered rounds 1 rounds start "success" none begun
          (λ n. attempts_of-positive s e schema batch) good in
      IsDelivered-moved _ _
        (last-report_metric e.reporter Action.dec_inflight _ refl
          ∙ last-report_metric e.reporter (Action.observe_execute_duration _ _ _ _) _ refl)
        delivered

  execute_coalesced-IsDelivered :
      (h : History)
      → (execute_coalesced s e schema batch h).0 ≡ none
      → IsDelivered s e schema batch (execute_coalesced s e schema batch h).1
  unfolding last_execution
  execute_coalesced-IsDelivered h good = elim (execute_coalesced-cases s e schema batch h) [
    | inl (c, same) ↦ cc (rw same at good)
    | inr (inl (free, same)) ↦ rw same (execute_admitted-IsDelivered h (rw same at good))
    | inr (inr (limit, bounded, same)) ↦ rw same (
        IsDelivered-moved _ _ refl
          (execute_admitted-IsDelivered (Action.acquire ∷ h) (rw same at good)))
  ]

-- For an executor without a coalescer, ExecuteBatch returns nil on a batch with rows only if the last
-- operations that its processor was handed are those that it had made of the batch without an error,
-- and it executed them without an error.
pub execute_batch-IsDelivered :
    (s : Surroundings) (e : Executor) (schema : SchemaInterface) (batch : Batch) (h : History)
    → is_empty batch ≡ false
    → e.coalescer ≡ none
    → (execute_batch s e schema batch h).0 ≡ none
    → IsDelivered s e schema batch (execute_batch s e schema batch h).1
unfolding execute_batch
execute_batch-IsDelivered s e schema batch h rows plain good =
    let same : execute_batch s e schema batch h ≡ execute_coalesced s e schema batch h =
      ground arith in
    rw same (execute_coalesced-IsDelivered s e schema batch h (rw same at good))
