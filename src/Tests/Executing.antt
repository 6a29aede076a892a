-- ===== src/Tests/Executing.antt =====
-- An executor with retries, a limit and a reporter, over a database that fails once with a deadlock.
use batchflow.Prelude.{
  suc, ◌+◌, ◌-◌, ◌*◌, ◌/◌, ◌≤◌, ◌≡◌, refl, Bool, true, false, List, [], ◌∷◌, ◌++◌, Option, none,
  some, arith,
}
use batchflow.Prelude.Int.{pos}
use batchflow.Model.{Value}
use batchflow.Context.{background}
use batchflow.Errors.{Error}
use batchflow.Observability.{Library}
use batchflow.Executor.Actions.{Action, Operation, History, Processor, Surroundings}
use batchflow.Executor.Settings.{Executor}
use batchflow.Executor.Backoff.{retry_backoff, double_up_to}
use batchflow.Executor.Waits.{maximum, retry_backoff-bounds}
use batchflow.Executor.{execute_batch, run_attempts}
use batchflow.Executor.Attempt.{execute_attempt}
use batchflow.Executor.Lifecycle.{Episode, lifecycle, execute_batch-lifecycle}
use batchflow.Executor.Attempts.{
  Allows, count_attempts, count_attempts-execute_batch, run_attempts-gives_up,
}
use batchflow.Executor.Fuel.{run_attempts-enough}
use batchflow.Executor.Delivery.{IsDelivered, execute_batch-IsDelivered}
use batchflow.Tests.Data.{schema, users}

abbrev lock_error : Error
lock_error = Error.text "deadlock"

abbrev has_executed : History → Bool
has_executed [] = false
has_executed (Action.execute ops ∷ h) = true
has_executed (_ ∷ h) = has_executed h

abbrev fails_once : Bool → Option Error
fails_once true = none
fails_once false = some lock_error

abbrev processor : Processor
processor = record {
  preview = none;
  generate_operations = λ h schema batch. (Operation.value (Value.string "insert") ∷ [], none);
  execute_operations = λ h ops. fails_once (has_executed h);
}

abbrev pub library : Library
library = record {
  fields = λ text. text ∷ [];
  fnv64a = λ text. 0;
  hex16 = λ n. "0000000000000000";
  sprint = λ v. "";
  float_to_int = λ bits. pos 0;
}

abbrev pub surroundings : Surroundings
surroundings = record {
  ctx = background;
  select_token = λ h. none;
  select_timer = λ h d. none;
  now = λ h. 0;
  fifth = λ b. b / 5;
  custom = [];
  library = library;
}

abbrev executor : Executor
executor = record {
  processor = processor;
  reporter = some (record { operation = false; sql = false });
  has_observer = true;
  coalescer = none;
  semaphore = some 2;
  retry_enabled = true;
  retry_max_attempts = 3;
  retry_backoff_base = 20000000;
  retry_max_backoff = 2000000000;
  retry_classifier = some (λ e. (true, "deadlock"));
}

-- Classifies every error as final.
abbrev strict : Executor
strict = record executor { retry_classifier = some (λ e. (false, "non_retryable")) }

succeeds : (execute_batch surroundings executor schema users []).0 ≡ none
unfolding execute_batch
succeeds = refl

execute_batch-lifecycle_example :
    (trace : List Action) × Episode executor schema
      (execute_batch surroundings executor schema users []).0
      trace
    × (lifecycle (execute_batch surroundings executor schema users []).1 ≡ trace ++ lifecycle [])
execute_batch-lifecycle_example = execute_batch-lifecycle surroundings executor schema users []

count_attempts-execute_batch_example :
    count_attempts (execute_batch surroundings executor schema users []).1 ≤ 3 + count_attempts []
count_attempts-execute_batch_example =
    count_attempts-execute_batch surroundings executor schema users [] 3
      (Allows.as_configured 2 refl refl)

execute_batch-IsDelivered_example :
    IsDelivered surroundings executor schema users
      (execute_batch surroundings executor schema users []).1
execute_batch-IsDelivered_example =
    execute_batch-IsDelivered surroundings executor schema users [] refl refl succeeds

abbrev failure : Error
failure =
    Error.batch
      (record {
        stage = "execute";
        backend = "custom";
        schema = "users";
        batch_size = 3;
        fingerprint = "0000000000000000";
        attributes = [];
      })
      lock_error

fails : (execute_attempt surroundings strict schema users 1 []).0.err ≡ some failure
unfolding execute_attempt
fails = refl

run_attempts-gives_up_example :
    ((run_attempts surroundings strict schema users 3 1 3 [] "success" none []).0
      ≡ ("fail", some failure))
    × (count_attempts (run_attempts surroundings strict schema users 3 1 3 [] "success" none []).1
        ≡ suc (count_attempts []))
run_attempts-gives_up_example =
    run_attempts-gives_up surroundings strict schema users 2 1 3 [] "success" none [] failure fails
      refl

retry_backoff-bounds_example :
    (double_up_to 2000000000 (2 - 1) 20000000 - double_up_to 2000000000 (2 - 1) 20000000 / 5
      ≤ retry_backoff (λ b. b / 5) 20000000 2000000000 7 2)
    × (retry_backoff (λ b. b / 5) 20000000 2000000000 7 2
        ≤ double_up_to 2000000000 (2 - 1) 20000000 + double_up_to 2000000000 (2 - 1) 20000000 / 5)
    × (retry_backoff (λ b. b / 5) 20000000 2000000000 7 2 ≤ 2 * maximum 20000000 2000000000)
retry_backoff-bounds_example =
    retry_backoff-bounds (λ b. b / 5) 20000000 2000000000 7 2 (omega arith) (omega arith)
      (λ b. omega arith)

run_attempts-enough_example :
    run_attempts surroundings executor schema users 3 1 3 [] "success" none []
    ≡ run_attempts surroundings executor schema users 9 1 3 [] "success" none []
run_attempts-enough_example =
    run_attempts-enough surroundings executor schema users 3 9 1 3 [] "success" none []
      (omega arith) (omega arith) (omega arith)
