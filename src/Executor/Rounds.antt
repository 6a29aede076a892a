-- ===== src/Executor/Rounds.antt =====
-- The rounds of the loop of ExecuteBatch in executor.go.
use batchflow.Prelude.{
  ℕ, zero, suc, ◌+◌, String, ◌≤◌, ◌≢◌, ◌⊎◌, ◌≡◌, refl, false, not, ◌||◌, ◌==◌, ◌∷◌, Option, none,
  some, arith, is_empty, Bool-cases, Option-cases, inl, inr,
}
use batchflow.Model.{Batch}
use batchflow.Schema.{SchemaInterface}
use batchflow.Context.{ContextErr}
use batchflow.Errors.{Error}
use batchflow.Executor.Actions.{Action, History, Surroundings}
use batchflow.Executor.Settings.{Executor}
use batchflow.Executor.Attempt.{AttemptResult, verdict, execute_attempt, handle_retry}
use batchflow.Executor.{
  run_attempts, attempts_of, execute_admitted, execute_coalesced, execute_batch, coalesce_failure,
}

-- `status` of ExecuteBatch at its end, for the error that it returns.
abbrev pub status_for : Option Error → String
status_for none = "success"
status_for (some e) = "fail"

module _ (s : Surroundings) (e : Executor) (schema : SchemaInterface) (batch : Batch) where
  -- After the last attempt the loop does not go on.
  pub handle_retry-last :
      (result : AttemptResult) (err : Error) (attempt attempts : ℕ) (start h : History)
      → attempt ≡ attempts
      → (handle_retry s e schema batch result err attempt attempts start h).0 ≡ (false, none)
  unfolding handle_retry
  handle_retry-last result err attempt attempts start h last =
      elim (Bool-cases
        (not e.retry_enabled || (attempt == attempts || not (verdict s e schema batch err).0))) [
          | inl final ↦ rw (final, handle_retry) refl
          | inr again ↦ absurd (ground arith)
        ]

  pub handle_retry-refused :
      (result : AttemptResult) (err : Error) (attempt attempts : ℕ) (start h : History)
      → (verdict s e schema batch err).0 ≡ false
      → (handle_retry s e schema batch result err attempt attempts start h).0 ≡ (false, none)
  unfolding handle_retry
  handle_retry-refused result err attempt attempts start h refused =
      elim (Bool-cases
        (not e.retry_enabled || (attempt == attempts || not (verdict s e schema batch err).0))) [
          | inl final ↦ rw (final, handle_retry) refl
          | inr again ↦ absurd (ground arith)
        ]

  -- The loop succeeds, or it fails, or the next round is not beyond the last one.
  pub run_attempts-step :
      (rounds attempt attempts : ℕ) (start : History) (status : String) (err : Option Error)
      (h : History)
      → ((run_attempts s e schema batch (suc rounds) attempt attempts start status err h).0
          ≡ ("success", none))
        ⊎ ((failure : Error) × ((run_attempts s e schema batch
                (suc rounds)
                attempt
                attempts
                start
                status
                err
                h).0
              ≡ ("fail", some failure)))
        ⊎ ((failure : Error) × (k : History) × (attempt ≢ attempts)
            × (run_attempts s e schema batch (suc rounds) attempt attempts start status err h
                ≡ run_attempts s e schema batch rounds
                    (attempt + 1)
                    attempts
                    start
                    status
                    (some failure)
                    k))
  unfolding run_attempts
  run_attempts-step rounds attempt attempts start status err h =
      let tried = execute_attempt s e schema batch attempt h in
      elim (Option-cases tried.0.err) [
        | inl done ↦ inl (rw (done, run_attempts) refl)
        | inr (failure, failed) ↦
            let decided =
              handle_retry s e schema batch tried.0 failure attempt attempts start tried.1 in
            elim (Option-cases decided.0.1) [
              | inr (stop, stopped) ↦ inr (inl (stop, rw (failed, run_attempts, stopped) refl))
              | inl going ↦ elim (Bool-cases decided.0.0) [
                | inr ends ↦ inr (inl (failure, rw (failed, run_attempts, going, ends) refl))
                | inl again ↦ inr (
                    inr (
                      failure,
                      decided.1,
                      λ last. cc (
                        handle_retry-last tried.0 failure attempt attempts start tried.1 last,
                        again,
                      ),
                      rw (failed, run_attempts, going, again) refl,
                    ))
              ]
            ]
      ]

  pub run_attempts-status :
      (rounds attempt attempts : ℕ) (start : History) (status : String) (err : Option Error)
      (h : History)
      → attempt + rounds ≡ attempts
      → (run_attempts s e schema batch (suc rounds) attempt attempts start status err h).0.0
        ≡ status_for
            (run_attempts s e schema batch (suc rounds) attempt attempts start status err h).0.1
  run_attempts-status zero attempt attempts start status err h count =
      elim (run_attempts-step zero attempt attempts start status err h) [
        | inl done ↦ rw done refl
        | inr (inl (failure, failed)) ↦ rw failed refl
        | inr (inr (failure, k, more, same)) ↦ absurd (more (omega (arith, count)))
      ]
  run_attempts-status (suc rounds) attempt attempts start status err h count =
      elim (run_attempts-step (suc rounds) attempt attempts start status err h) [
        | inl done ↦ rw done refl
        | inr (inl (failure, failed)) ↦ rw failed refl
        | inr (inr (failure, k, more, same)) ↦ rw same (
            run_attempts-status rounds (attempt + 1) attempts start status (some failure) k
              (omega (arith, count)))
      ]

  pub attempts_of-positive : 1 ≤ attempts_of s e schema batch
  unfolding attempts_of
  attempts_of-positive = ground arith

  pub execute_coalesced-cases :
      (h : History)
      → ((c : ContextErr) × (execute_coalesced s e schema batch h ≡ (some (Error.context c), h)))
        ⊎ ((e.semaphore ≡ none)
            × (execute_coalesced s e schema batch h ≡ execute_admitted s e schema batch h))
        ⊎ ((limit : ℕ) × (e.semaphore ≡ some limit)
            × (execute_coalesced s e schema batch h ≡ (
              (execute_admitted s e schema batch (Action.acquire ∷ h)).0,
              Action.release ∷ (execute_admitted s e schema batch (Action.acquire ∷ h)).1,
            )))
  unfolding execute_coalesced
  execute_coalesced-cases h = elim (Option-cases e.semaphore) [
    | inl free ↦ inr (inl (free, ground arith))
    | inr (limit, bounded) ↦ elim (Option-cases (s.select_token h)) [
      | inr (c, done) ↦ inl (c, ground arith)
      | inl token ↦ inr (inr (limit, bounded, ground arith))
    ]
  ]

-- ExecuteBatch returns at once, with all as it was, or goes on with a batch.
pub execute_batch-cases :
    (s : Surroundings) (e : Executor) (schema : SchemaInterface) (batch : Batch) (h : History)
    → ((err : Option Error) × (execute_batch s e schema batch h ≡ (err, h)))
      ⊎ ((rest : Batch) × (execute_batch s e schema batch h ≡ execute_coalesced s e schema rest h))
unfolding execute_batch
execute_batch-cases s e schema batch h = elim (Bool-cases (is_empty batch)) [
  | inl nothing ↦ inl (none, ground arith)
  | inr some_rows ↦ elim (Option-cases e.coalescer) [
    | inl plain ↦ inr (batch, ground arith)
    | inr (coalescer, coalescing) ↦
        let result = coalescer s.ctx schema batch in
        elim (Option-cases result.1) [
          | inr (cause, failed) ↦ inl (some (coalesce_failure schema batch cause), ground arith)
          | inl fine ↦ elim (Bool-cases (is_empty result.0.batch)) [
            | inl nothing ↦ inl (none, ground arith)
            | inr rows ↦ inr (result.0.batch, ground arith)
          ]
        ]
  ]
]
