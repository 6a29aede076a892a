-- ===== src/Processor.antt =====
-- processor.go: the processors that stand between the executor and a database. What a database
-- answers, and when a context is done, may depend on all that has happened before.
pub mod Sql
pub mod Redis
pub mod Timeouts
pub mod Writes
pub mod Commands
use batchflow.Prelude.{ℕ, zero, suc, Bool, true, false, List, Option, String}
use batchflow.Prelude.Int.{ℤ, pos, negsuc}
use batchflow.Context.{Context}
use batchflow.Errors.{Error}
use batchflow.Driver.Placeholders.{Cache}
use batchflow.Driver.Redis.{RedisCmd}
use batchflow.Executor.Actions.{History, Operation}

-- The Boolean tells whether a call has a context of its own, from WithTimeoutCause: `polls` is what
-- the Err method of that context says, and `cause` what context.Cause returns for it.
pub record Backend : Type 0 where
  pub caller : History → Context
  pub polls : History → Bool → Context
  pub cause : History → Bool → Option Error
  pub cache : History → Cache
  pub exec_context : History → Bool → String → List Operation → Option Error
  pub exec_pipeline : History → Bool → List RedisCmd → List (Option Error) × Option Error

-- timeout > 0
abbrev pub is_timed : ℤ → Bool
is_timed (pos (suc n)) = true
is_timed (pos zero) = false
is_timed (negsuc n) = false

-- The error that WithTimeoutCause is given.
abbrev pub execute_timeout : Error
execute_timeout = Error.text "execute batch timeout"
