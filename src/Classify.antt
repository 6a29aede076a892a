-- ===== src/Classify.antt =====
-- error_classification.go: from an error to a retry decision and a reason of few kinds.
mod Backends
pub mod Registry
pub mod Decisions
pub mod Chains
unfoldable pub use Backends.{
  find_mysql, find_postgres, is_redis_nil, is_redis_tx_failed, mysql_reason, classify_mysql,
  postgres_reason, classify_postgres, classify_redis,
}
pub use Backends.{
  unknown, context_canceled, context_deadline, duplicate_key, deadlock, lock_timeout, timeout,
  connection, io, syntax, non_retryable,
}
use batchflow.Prelude.{
  ℕ, String, ◌=~◌, Bool, true, false, ◌&&◌, List, [], ◌∷◌, Option, none, some, contains,
  contains_any, to_lower, if◌then◌else◌,
}
use batchflow.Context.{ContextErr, canceled, deadline_exceeded}
use batchflow.Errors.{Error, BatchInfo, SqlInfo, error_text}

-- ErrorClassifier: `none` where Go's `ok` is false. A nil ErrorClassifierFunc knows no error.
abbrev pub Classifier : Type 0
Classifier = Error → Option (Bool × String)

unfoldable pub classifier_func : Option Classifier → Classifier
classifier_func none e = none
classifier_func (some f) e = f e

-- errors.Is(err, context.Canceled) and errors.Is(err, context.DeadlineExceeded)
abbrev same_context : ContextErr → ContextErr → Bool
same_context canceled canceled = true
same_context deadline_exceeded deadline_exceeded = true
same_context _ _ = false

unfoldable pub is_context : ContextErr → Error → Bool
is_context c (Error.context d) = same_context c d
is_context c (Error.wrap s e) = is_context c e
is_context c (Error.joined d e) = if is_context c d then true else is_context c e
is_context c (Error.batch i e) = is_context c e
is_context c (Error.sql i e) = is_context c e
is_context c _ = false

-- A *BatchError or a *SQLError: its metadata and its cause, which may be nil.
abbrev pub Found : Type 0 → Type 0
Found A = Option (A × Option Error)

abbrev pub first_found : {A : Type 0} → Found A → Found A → Found A
first_found none g = g
first_found (some f) g = some f

-- errors.As(err, &batchErr): the first BatchError of the chain
unfoldable pub find_batch : Error → Found BatchInfo
find_batch (Error.batch i e) = some (i, some e)
find_batch (Error.batch_nil i) = some (i, none)
find_batch (Error.wrap s e) = find_batch e
find_batch (Error.sql i e) = find_batch e
find_batch (Error.joined d e) = first_found (find_batch d) (find_batch e)
find_batch _ = none

-- errors.As(err, &sqlErr)
unfoldable pub find_sql : Error → Found SqlInfo
find_sql (Error.sql i e) = some (i, some e)
find_sql (Error.sql_nil i) = some (i, none)
find_sql (Error.wrap s e) = find_sql e
find_sql (Error.batch i e) = find_sql e
find_sql (Error.joined d e) = first_found (find_sql d) (find_sql e)
find_sql _ = none

-- The cause of what errors.As found, if there is one.
abbrev pub cause_or : {A : Type 0} → Found A → Error → Error
cause_or (some (i, some cause)) e = cause
cause_or _ e = e

unfoldable pub unwrap_batch_cause : Error → Error
unfolding find_batch find_sql
unwrap_batch_cause e = let inner = cause_or (find_batch e) e in cause_or (find_sql inner) inner

-- The last resort: the words of the error's text.
unfoldable pub classify_text : String → Bool × String
unfolding contains contains_any
classify_text s =
    if contains_any s
      ("duplicate key" ∷ "duplicate entry" ∷ "unique constraint" ∷ "unique violation" ∷ [])
    then (false, duplicate_key)
    else if contains s "deadlock"
    then (true, deadlock)
    else if contains_any s ("lock wait timeout" ∷ "lock timeout" ∷ "could not obtain lock" ∷ [])
    then (true, lock_timeout)
    else if contains s "timeout"
    then (true, timeout)
    else if contains s "connection"
        && contains_any s ("refused" ∷ "reset" ∷ "closed" ∷ "failure" ∷ "unavailable" ∷ [])
    then (true, connection)
    else if contains s "too many connections"
    then (true, connection)
    else if contains_any s ("broken pipe" ∷ "unexpected eof" ∷ "eof" ∷ [])
    then (true, io)
    else if contains s "syntax"
    then (false, syntax)
    else (false, non_retryable)

-- A custom classifier that knows an error and gives no reason.
abbrev pub with_reason : Bool × String → Bool × String
with_reason (retryable, reason) = (retryable, if reason =~ "" then non_retryable else reason)

-- The first classifier of a list that knows the error.
unfoldable pub first_known : List Classifier → Error → Option (Bool × String)
first_known [] e = none
first_known (c ∷ cs) e = elim (c e) [ some r ↦ some r | none ↦ first_known cs e ]

-- The built-in classifiers, in their order.
abbrev pub built_in : List Classifier
built_in = classify_mysql ∷ classify_postgres ∷ classify_redis ∷ []

-- The custom classifiers and the text, where no built-in classifier knows the error.
unfoldable pub classify_custom : List Classifier → Error → Bool × String
unfolding first_known classify_text to_lower error_text
classify_custom custom e = elim (first_known custom e) [
  | some r ↦ with_reason r
  | none ↦ classify_text (to_lower (error_text e))
]

-- ClassifyError after the unwrapping.
unfoldable pub classify_cause : List Classifier → Error → Bool × String
unfolding is_context first_known
classify_cause custom e =
    if is_context canceled e
    then (false, context_canceled)
    else if is_context deadline_exceeded e
    then (false, context_deadline)
    else elim (first_known built_in e) [ some r ↦ r | none ↦ classify_custom custom e ]

-- ClassifyError, with the snapshot of the registered classifiers
unfoldable pub classify_error : List Classifier → Option Error → Bool × String
classify_error custom none = (false, unknown)
classify_error custom (some e) = classify_cause custom (unwrap_batch_cause e)
