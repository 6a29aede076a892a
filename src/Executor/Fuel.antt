-- ===== src/Executor/Fuel.antt =====
-- The loop of ExecuteBatch in executor.go ends by its own breaks, within the rounds that it has.
use batchflow.Prelude.{
  ℕ, zero, suc, ◌+◌, String, ◌≤◌, ◌<◌, ◌≡◌, ◌≢◌, refl, Option, some, arith, Bool-cases,
  Option-cases, inl, inr,
}
use batchflow.Model.{Batch}
use batchflow.Schema.{SchemaInterface}
use batchflow.Errors.{Error}
use batchflow.Executor.Actions.{History, Surroundings}
use batchflow.Executor.Settings.{Executor}
use batchflow.Executor.Attempt.{execute_attempt, handle_retry}
use batchflow.Executor.{run_attempts}
use batchflow.Executor.Rounds.{handle_retry-last}

module _ (s : Surroundings) (e : Executor) (schema : SchemaInterface) (batch : Batch) where
  -- The loop of attempts ends by a break: from an attempt that is not beyond the last one, any two
  -- numbers of rounds that are enough to reach the last attempt give the same result and history, so
  -- the condition of the loop never ends it.
  pub run_attempts-enough :
      (rounds more attempt attempts : ℕ) (start : History) (status : String) (err : Option Error)
      (h : History)
      → attempt ≤ attempts
      → attempts < attempt + rounds
      → attempts < attempt + more
      → run_attempts s e schema batch rounds attempt attempts start status err h
        ≡ run_attempts s e schema batch more attempt attempts start status err h
  unfolding run_attempts
  run_attempts-enough zero more attempt attempts start status err h within one two =
      absurd (omega (arith, one, within))
  run_attempts-enough (suc rounds) zero attempt attempts start status err h within one two =
      absurd (omega (arith, two, within))
  run_attempts-enough (suc rounds) (suc more) attempt attempts start status err h within one two =
      let tried = execute_attempt s e schema batch attempt h in
      elim (Option-cases tried.0.err) [
        | inl done ↦ rw (done, run_attempts) refl
        | inr (failure, failed) ↦
            let decided =
              handle_retry s e schema batch tried.0 failure attempt attempts start tried.1 in
            elim (Option-cases decided.0.1) [
              | inr (stop, stopped) ↦ rw (failed, run_attempts, stopped) refl
              | inl going ↦ elim (Bool-cases decided.0.0) [
                | inr ends ↦ rw (failed, run_attempts, going, ends) refl
                | inl again ↦
                    let early : attempt ≢ attempts = λ last. cc (
                      handle_retry-last s e schema batch tried.0 failure attempt attempts start
                          tried.1 last,
                      again,
                    ) in
                    rw (failed, run_attempts, going, again)
                      (run_attempts-enough rounds more (attempt + 1) attempts start status
                        (some failure) decided.1 (omega (arith, within, early)) (omega (arith, one))
                        (omega (arith, two)))
              ]
            ]
      ]
