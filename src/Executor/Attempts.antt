-- ===== src/Executor/Attempts.antt =====
-- How often ExecuteBatch of executor.go tries.
use batchflow.Prelude.{
  ℕ, zero, suc, ◌+◌, String, ◌≤◌, ◌≡◌, refl, ap, ◌∙◌, Bool, true, false, [], ◌∷◌, Option, none,
  some, arith, length, Bool-cases, Option-cases, inl, inr,
}
use batchflow.Model.{Batch}
use batchflow.Schema.{SchemaInterface, name}
use batchflow.Errors.{Error}
use batchflow.Executor.Actions.{Action, History, Surroundings}
use batchflow.Executor.Settings.{Executor}
use batchflow.Executor.Reports.{Capabilities, report_metric}
use batchflow.Executor.Attempt.{elapsed, verdict, execute_attempt, handle_retry}
use batchflow.Executor.{
  run_attempts, attempts_of, execute_admitted, execute_coalesced, execute_batch,
}
use batchflow.Executor.Quiet.{PassesOver, view-execute_attempt, view-handle_retry}
use batchflow.Executor.Rounds.{handle_retry-refused, execute_coalesced-cases, execute_batch-cases}

-- How many times the processor was asked for operations.
unfoldable pub count_attempts : History → ℕ
count_attempts [] = 0
count_attempts (Action.generate ∷ h) = suc (count_attempts h)
count_attempts (_ ∷ h) = count_attempts h

count_attempts-over : PassesOver count_attempts
unfolding count_attempts
count_attempts-over (Action.inc_error t r) h q = refl
count_attempts-over (Action.observe_operation_generated p) h q = refl
count_attempts-over (Action.inc_operation_error t b s r) h q = refl
count_attempts-over (Action.observe_sql_generated t i o a) h q = refl
count_attempts-over (Action.observe_sql_deduplicated t s d m) h q = refl
count_attempts-over (Action.inc_sql_error t s r) h q = refl
count_attempts-over (Action.on_batch_event e) h q = refl
count_attempts-over Action.generate h q = cc
count_attempts-over (Action.execute ops) h q = refl
count_attempts-over (Action.wait d) h q = refl
count_attempts-over (Action.set_concurrency n) h q = refl
count_attempts-over Action.acquire h q = refl
count_attempts-over Action.release h q = refl
count_attempts-over Action.inc_inflight h q = refl
count_attempts-over Action.dec_inflight h q = refl
count_attempts-over (Action.observe_execute_duration t n d s) h q = refl

count-report_metric :
    (r : Option Capabilities) (a : Action) (h : History)
    → count_attempts (a ∷ h) ≡ count_attempts h
    → count_attempts (report_metric r a h) ≡ count_attempts h
unfolding report_metric
count-report_metric none a h q = refl
count-report_metric (some c) a h q = q

module _ (s : Surroundings) (e : Executor) (schema : SchemaInterface) (batch : Batch) where
  count-run_attempts :
      (rounds attempt attempts : ℕ) (start : History) (status : String) (err : Option Error)
      (h : History)
      → count_attempts (run_attempts s e schema batch rounds attempt attempts start status err h).1
        ≤ rounds + count_attempts h
  unfolding run_attempts count_attempts
  count-run_attempts zero attempt attempts start status err h = omega arith
  count-run_attempts (suc rounds) attempt attempts start status err h =
      let tried = execute_attempt s e schema batch attempt h in
      let one : count_attempts tried.1 ≡ suc (count_attempts h) =
        view-execute_attempt count_attempts count_attempts-over s e schema batch (λ ops k. refl)
          (λ d k. refl) attempt h in
      elim (Option-cases tried.0.err) [
        | inl done ↦ rw (done, run_attempts) (omega (arith, one))
        | inr (failure, failed) ↦
            let decided =
              handle_retry s e schema batch tried.0 failure attempt attempts start tried.1 in
            let calm : count_attempts decided.1 ≡ count_attempts tried.1 =
              view-handle_retry count_attempts count_attempts-over s e schema batch (λ ops k. refl)
                (λ d k. refl) tried.0 failure attempt attempts start tried.1 in
            elim (Option-cases decided.0.1) [
              | inr (stop, stopped) ↦ rw (failed, run_attempts, stopped) (omega (arith, one, calm))
              | inl going ↦ elim (Bool-cases decided.0.0) [
                | inr ends ↦ rw (failed, run_attempts, going, ends) (omega (arith, one, calm))
                | inl again ↦
                    let rest =
                      count-run_attempts rounds (attempt + 1) attempts start status (some failure)
                        decided.1 in
                    rw (failed, run_attempts, going, again) (omega (arith, one, calm, rest))
              ]
            ]
      ]

  count-execute_admitted :
      (start : History)
      → count_attempts (execute_admitted s e schema batch start).1
        ≤ attempts_of s e schema batch + count_attempts start
  unfolding execute_admitted count_attempts
  count-execute_admitted start =
      let begun = report_metric e.reporter Action.inc_inflight start in
      let rounds = attempts_of s e schema batch in
      let ran = count-run_attempts rounds 1 rounds start "success" none begun in
      omega (
        arith,
        ran,
        count-report_metric e.reporter Action.inc_inflight start refl,
        count-report_metric e.reporter
            (Action.observe_execute_duration (name schema) (length batch)
              (elapsed s e schema batch start
                (run_attempts s e schema batch rounds 1 rounds start "success" none begun).1)
              (run_attempts s e schema batch rounds 1 rounds start "success" none begun).0.0)
            (run_attempts s e schema batch rounds 1 rounds start "success" none begun).1 refl,
        count-report_metric e.reporter Action.dec_inflight _ refl,
      )

  count-execute_coalesced :
      (h : History)
      → count_attempts (execute_coalesced s e schema batch h).1
        ≤ attempts_of s e schema batch + count_attempts h
  unfolding count_attempts
  count-execute_coalesced h = elim (execute_coalesced-cases s e schema batch h) [
    | inl (c, same) ↦ rw same (omega arith)
    | inr (inl (free, same)) ↦ rw same (count-execute_admitted h)
    | inr (inr (limit, bounded, same)) ↦ rw same (count-execute_admitted (Action.acquire ∷ h))
  ]

-- The number of attempts that the settings of an executor allow.
pub data Allows (e : Executor) : ℕ → Type 0 where
  without_retries : e.retry_enabled ≡ false → Allows e 1
  at_least_one : e.retry_enabled ≡ true → e.retry_max_attempts ≡ 0 → Allows e 1
  as_configured : (n : ℕ) → e.retry_enabled ≡ true → e.retry_max_attempts ≡ suc n → Allows e (suc n)

attempts_of-Allows :
    (s : Surroundings) (e : Executor) (schema : SchemaInterface) (batch : Batch) (limit : ℕ)
    → Allows e limit
    → attempts_of s e schema batch ≡ limit
unfolding attempts_of
attempts_of-Allows s e schema batch _ (Allows.without_retries off) = ground (arith, off)
attempts_of-Allows s e schema batch _ (Allows.at_least_one on none_set) = ground (arith, on)
attempts_of-Allows s e schema batch _ (Allows.as_configured n on set) = ground (arith, on, set)

-- ExecuteBatch asks the processor for operations at most once without retries, and with them at most
-- as often as the greatest number of attempts says, which counts as one if it is zero.
pub count_attempts-execute_batch :
    (s : Surroundings) (e : Executor) (schema : SchemaInterface) (batch : Batch) (h : History)
    (limit : ℕ)
    → Allows e limit
    → count_attempts (execute_batch s e schema batch h).1 ≤ limit + count_attempts h
count_attempts-execute_batch s e schema batch h limit allowed =
    elim (execute_batch-cases s e schema batch h) [
      | inl (err, same) ↦ rw same (omega arith)
      | inr (rest, same) ↦
          let once = attempts_of-Allows s e schema rest limit allowed in
          rw same (omega (arith, count-execute_coalesced s e schema rest h, once))
    ]

-- When an attempt fails with an error that the classifier does not retry, the loop ends with that
-- error and the status "fail" after this attempt, however many rounds are left.
pub run_attempts-gives_up :
    (s : Surroundings) (e : Executor) (schema : SchemaInterface) (batch : Batch)
    (rounds attempt attempts : ℕ) (start : History) (status : String) (err : Option Error)
    (h : History) (failure : Error)
    → (execute_attempt s e schema batch attempt h).0.err ≡ some failure
    → (verdict s e schema batch failure).0 ≡ false
    → ((run_attempts s e schema batch (suc rounds) attempt attempts start status err h).0
        ≡ ("fail", some failure))
      × (count_attempts
            (run_attempts s e schema batch (suc rounds) attempt attempts start status err h).1
          ≡ suc (count_attempts h))
unfolding run_attempts count_attempts
run_attempts-gives_up s e schema batch rounds attempt attempts start status err h failure failed
      refused =
    let tried = execute_attempt s e schema batch attempt h in
    let decided = handle_retry s e schema batch tried.0 failure attempt attempts start tried.1 in
    let one : count_attempts tried.1 ≡ suc (count_attempts h) =
      view-execute_attempt count_attempts count_attempts-over s e schema batch (λ ops k. refl)
        (λ d k. refl) attempt h in
    let calm : count_attempts decided.1 ≡ count_attempts tried.1 =
      view-handle_retry count_attempts count_attempts-over s e schema batch (λ ops k. refl)
        (λ d k. refl) tried.0 failure attempt attempts start tried.1 in
    let ends : decided.0 ≡ (false, none) =
      handle_retry-refused s e schema batch tried.0 failure attempt attempts start tried.1
        refused in
    let going : decided.0.1 ≡ none = ap (λ (d : Bool × Option Error). d.1) ends in
    let refusal : decided.0.0 ≡ false = ap (λ (d : Bool × Option Error). d.0) ends in
    rw (failed, run_attempts, going, refusal) (refl, calm ∙ one)
