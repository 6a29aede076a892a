-- ===== src/Executor/Lifecycle.antt =====
-- What ExecuteBatch of executor.go takes and gives back: tokens, the gauge of batches in flight, and
-- the one observation of a batch's duration.
use batchflow.Prelude.{
  ℕ, zero, suc, ◌+◌, String, ◌≤◌, ◌≡◌, refl, sym, ap, ◌∙◌, Bool, true, false, List, [], ◌∷◌, ◌++◌,
  Option, none, some, arith, length, Bool-cases, Option-cases, inl, inr, if◌then◌else◌,
}
use batchflow.Model.{Batch}
use batchflow.Schema.{SchemaInterface, name}
use batchflow.Errors.{Error}
use batchflow.Executor.Actions.{Action, History, Surroundings}
use batchflow.Executor.Settings.{Executor}
use batchflow.Executor.Reports.{Capabilities, report_metric}
use batchflow.Executor.Attempt.{execute_attempt, handle_retry}
use batchflow.Executor.{
  run_attempts, attempts_of, execute_admitted, execute_coalesced, execute_batch,
}
use batchflow.Executor.Rounds.{
  status_for, attempts_of-positive, run_attempts-status, execute_coalesced-cases,
  execute_batch-cases,
}
use batchflow.Executor.Quiet.{PassesOver, view-execute_attempt, view-handle_retry}

abbrev pub is_lifecycle : Action → Bool
is_lifecycle Action.acquire = true
is_lifecycle Action.release = true
is_lifecycle Action.inc_inflight = true
is_lifecycle Action.dec_inflight = true
is_lifecycle (Action.observe_execute_duration t n d s) = true
is_lifecycle _ = false

-- The part of a history that is about tokens, the gauge and durations.
unfoldable pub lifecycle : History → History
lifecycle [] = []
lifecycle (a ∷ h) = if is_lifecycle a then a ∷ lifecycle h else lifecycle h

lifecycle-over : PassesOver lifecycle
unfolding lifecycle
lifecycle-over (Action.inc_error t r) h q = refl
lifecycle-over (Action.observe_operation_generated p) h q = refl
lifecycle-over (Action.inc_operation_error t b s r) h q = refl
lifecycle-over (Action.observe_sql_generated t i o a) h q = refl
lifecycle-over (Action.observe_sql_deduplicated t s d m) h q = refl
lifecycle-over (Action.inc_sql_error t s r) h q = refl
lifecycle-over (Action.on_batch_event e) h q = refl
lifecycle-over Action.generate h q = refl
lifecycle-over (Action.execute ops) h q = refl
lifecycle-over (Action.wait d) h q = refl
lifecycle-over (Action.set_concurrency n) h q = refl
lifecycle-over Action.acquire h q = cc
lifecycle-over Action.release h q = cc
lifecycle-over Action.inc_inflight h q = cc
lifecycle-over Action.dec_inflight h q = cc
lifecycle-over (Action.observe_execute_duration t n d s) h q = cc

-- What a reporter is told of a batch that was let in, newest first.
abbrev pub measured : Option Capabilities → SchemaInterface → ℕ → ℕ → Option Error → List Action
measured none schema size duration err = []
measured (some c) schema size duration err =
    Action.dec_inflight
    ∷ Action.observe_execute_duration (name schema) size duration (status_for err)
    ∷ Action.inc_inflight
    ∷ []

-- What one call of ExecuteBatch adds to the lifecycle, given the error that it returns: nothing if the
-- batch is not let in; otherwise one measurement, inside one token if there is a limit.
pub data Episode (e : Executor) (schema : SchemaInterface)
    : Option Error → List Action → Type 0 where
  skipped : (err : Option Error) → Episode e schema err []
  unlimited :
      (err : Option Error) (size duration : ℕ)
      → e.semaphore ≡ none
      → Episode e schema err (measured e.reporter schema size duration err)
  limited :
      (err : Option Error) (size duration limit : ℕ)
      → e.semaphore ≡ some limit
      → Episode e schema err
          (Action.release ∷ measured e.reporter schema size duration err ++ Action.acquire ∷ [])

module _ (s : Surroundings) (e : Executor) (schema : SchemaInterface) (batch : Batch) where
  lifecycle-run_attempts :
      (rounds attempt attempts : ℕ) (start : History) (status : String) (err : Option Error)
      (h : History)
      → lifecycle (run_attempts s e schema batch rounds attempt attempts start status err h).1
        ≡ lifecycle h
  unfolding run_attempts lifecycle
  lifecycle-run_attempts zero attempt attempts start status err h = refl
  lifecycle-run_attempts (suc rounds) attempt attempts start status err h =
      let tried = execute_attempt s e schema batch attempt h in
      let quiet =
        view-execute_attempt lifecycle lifecycle-over s e schema batch (λ ops k. refl) (λ d k. refl)
          attempt h in
      elim (Option-cases tried.0.err) [
        | inl done ↦ rw (done, run_attempts) quiet
        | inr (failure, failed) ↦
            let decided =
              handle_retry s e schema batch tried.0 failure attempt attempts start tried.1 in
            let calm =
              view-handle_retry lifecycle lifecycle-over s e schema batch (λ ops k. refl)
                (λ d k. refl) tried.0 failure attempt attempts start tried.1
              ∙ quiet in
            elim (Option-cases decided.0.1) [
              | inr (stop, stopped) ↦ rw (failed, run_attempts, stopped) calm
              | inl going ↦ elim (Bool-cases decided.0.0) [
                | inr ends ↦ rw (failed, run_attempts, going, ends) calm
                | inl again ↦
                    rw (failed, run_attempts, going, again)
                      (lifecycle-run_attempts rounds (attempt + 1) attempts start status
                          (some failure) decided.1
                        ∙ calm)
              ]
            ]
      ]

  -- `status` and `err` after the whole loop
  ended-status :
      (rounds : ℕ) (start h : History)
      → 1 ≤ rounds
      → (run_attempts s e schema batch rounds 1 rounds start "success" none h).0.0
        ≡ status_for (run_attempts s e schema batch rounds 1 rounds start "success" none h).0.1
  ended-status zero start h some_round = absurd (omega arith)
  ended-status (suc rounds) start h some_round =
      run_attempts-status s e schema batch rounds 1 (suc rounds) start "success" none h
        (omega arith)

  measured-lifecycle :
      (r : Option Capabilities) (start h : History) (duration : ℕ) (status : String)
      (err : Option Error)
      → lifecycle h ≡ lifecycle (report_metric r Action.inc_inflight start)
      → status ≡ status_for err
      → lifecycle (
          report_metric r Action.dec_inflight (
            report_metric r
              (Action.observe_execute_duration (name schema) (length batch) duration status)
              h))
        ≡ measured r schema (length batch) duration err ++ lifecycle start
  unfolding report_metric lifecycle
  measured-lifecycle none start h duration status err quiet told = quiet
  measured-lifecycle (some c) start h duration status err quiet told = rw (told, quiet) refl

  execute_admitted-lifecycle :
      (start : History)
      → (duration : ℕ) × (lifecycle (execute_admitted s e schema batch start).1
          ≡ measured e.reporter schema
              (length batch)
              duration
              (execute_admitted s e schema batch start).0
            ++ lifecycle start)
  unfolding execute_admitted
  execute_admitted-lifecycle start =
      let begun = report_metric e.reporter Action.inc_inflight start in
      let rounds = attempts_of s e schema batch in
      (
        _,
        measured-lifecycle e.reporter start _ _ _ _
            (lifecycle-run_attempts rounds 1 rounds start "success" none begun)
            (ended-status rounds start begun (attempts_of-positive s e schema batch)),
      )

  append-assoc-one : (xs ys : List Action) (a : Action) → (xs ++ a ∷ []) ++ ys ≡ xs ++ (a ∷ ys)
  append-assoc-one [] ys a = refl
  append-assoc-one (x ∷ xs) ys a = ap (λ (t : List Action). x ∷ t) (append-assoc-one xs ys a)

  execute_coalesced-lifecycle :
      (h : History)
      → (trace : List Action) × Episode e schema (execute_coalesced s e schema batch h).0 trace
        × (lifecycle (execute_coalesced s e schema batch h).1 ≡ trace ++ lifecycle h)
  unfolding lifecycle
  execute_coalesced-lifecycle h = elim (execute_coalesced-cases s e schema batch h) [
    | inl (c, same) ↦ rw same (_, Episode.skipped _, refl)
    | inr (inl (free, same)) ↦
        let (duration, seen) = execute_admitted-lifecycle h in
        rw same (_, Episode.unlimited _ (length batch) duration free, seen)
    | inr (inr (limit, bounded, same)) ↦
        let (duration, seen) = execute_admitted-lifecycle (Action.acquire ∷ h) in
        let measurement =
          measured e.reporter schema (length batch) duration
            (execute_admitted s e schema batch (Action.acquire ∷ h)).0 in
        rw same (
          _,
          Episode.limited _ (length batch) duration limit bounded,
          ap (λ (t : List Action). Action.release ∷ t)
              (seen ∙ sym (append-assoc-one measurement (lifecycle h) Action.acquire)),
        )
  ]

-- Every call of ExecuteBatch, whatever its surroundings do and however it ends, adds one episode to
-- the lifecycle: either it takes nothing and measures nothing, or, with a reporter, the gauge goes up
-- and down once round one observation, whose status is "success" exactly if the error is nil, and
-- with a limit one token is taken before and given back after.
pub execute_batch-lifecycle :
    (s : Surroundings) (e : Executor) (schema : SchemaInterface) (batch : Batch) (h : History)
    → (trace : List Action) × Episode e schema (execute_batch s e schema batch h).0 trace
      × (lifecycle (execute_batch s e schema batch h).1 ≡ trace ++ lifecycle h)
execute_batch-lifecycle s e schema batch h = elim (execute_batch-cases s e schema batch h) [
  | inl (err, same) ↦ rw same (_, Episode.skipped _, refl)
  | inr (rest, same) ↦ rw same (execute_coalesced-lifecycle s e schema rest h)
]
