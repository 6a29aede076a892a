-- ===== src/Classify/Chains.antt =====
-- What ClassifyError of error_classification.go decides of a chain of errors that ends in a context.
use batchflow.Prelude.{String, ◌≡◌, refl, false, List, some}
use batchflow.Context.{ContextErr, canceled, deadline_exceeded}
use batchflow.Errors.{Error, BatchInfo, SqlInfo}
use batchflow.Classify.{
  Classifier, classify_cause, classify_error, unwrap_batch_cause, find_batch, find_sql, cause_or,
  same_context, is_context, context_canceled, context_deadline,
}

-- A chain of errors, each of which holds the next one, down to the error of a context: fmt.Errorf with
-- %w, BatchError and SQLError, in any order and number.
pub data EndsWith (c : ContextErr) : Error → Type 0 where
  itself : EndsWith c (Error.context c)
  wrapped : (s : String) (e : Error) → EndsWith c e → EndsWith c (Error.wrap s e)
  in_batch : (i : BatchInfo) (e : Error) → EndsWith c e → EndsWith c (Error.batch i e)
  in_sql : (i : SqlInfo) (e : Error) → EndsWith c e → EndsWith c (Error.sql i e)

abbrev pub context_reason : ContextErr → String
context_reason canceled = context_canceled
context_reason deadline_exceeded = context_deadline

is_context-EndsWith :
    (c d : ContextErr) (e : Error) → EndsWith c e → is_context d e ≡ same_context d c
unfolding is_context
is_context-EndsWith c d _ EndsWith.itself = refl
is_context-EndsWith c d _ (EndsWith.wrapped s e h) = is_context-EndsWith c d e h
is_context-EndsWith c d _ (EndsWith.in_batch i e h) = is_context-EndsWith c d e h
is_context-EndsWith c d _ (EndsWith.in_sql i e h) = is_context-EndsWith c d e h

classify_cause-EndsWith :
    (custom : List Classifier) (c : ContextErr) (e : Error)
    → EndsWith c e
    → classify_cause custom e ≡ (false, context_reason c)
unfolding classify_cause
classify_cause-EndsWith custom canceled e h = rw (is_context-EndsWith canceled canceled e h) refl
classify_cause-EndsWith custom deadline_exceeded e h =
    rw
      (
        is_context-EndsWith deadline_exceeded canceled e h,
        is_context-EndsWith deadline_exceeded deadline_exceeded e h,
      )
      refl

-- Whatever errors.As finds in such a chain has a cause that ends in the same way.
find_batch-EndsWith :
    (c : ContextErr) (e whole : Error)
    → EndsWith c e
    → EndsWith c whole
    → EndsWith c (cause_or (find_batch e) whole)
unfolding find_batch
find_batch-EndsWith c _ whole EndsWith.itself w = w
find_batch-EndsWith c _ whole (EndsWith.wrapped s e h) w = find_batch-EndsWith c e whole h w
find_batch-EndsWith c _ whole (EndsWith.in_batch i e h) w = h
find_batch-EndsWith c _ whole (EndsWith.in_sql i e h) w = find_batch-EndsWith c e whole h w

find_sql-EndsWith :
    (c : ContextErr) (e whole : Error)
    → EndsWith c e
    → EndsWith c whole
    → EndsWith c (cause_or (find_sql e) whole)
unfolding find_sql
find_sql-EndsWith c _ whole EndsWith.itself w = w
find_sql-EndsWith c _ whole (EndsWith.wrapped s e h) w = find_sql-EndsWith c e whole h w
find_sql-EndsWith c _ whole (EndsWith.in_batch i e h) w = find_sql-EndsWith c e whole h w
find_sql-EndsWith c _ whole (EndsWith.in_sql i e h) w = h

-- The error of a context is never retried, and its reason says which one it is, whatever classifiers
-- are registered and however many BatchErrors, SQLErrors and wrapped errors hold it, in any order.
pub classify_error-context :
    (custom : List Classifier) (c : ContextErr) (e : Error)
    → EndsWith c e
    → classify_error custom (some e) ≡ (false, context_reason c)
unfolding classify_error unwrap_batch_cause
classify_error-context custom c e h =
    let inner = find_batch-EndsWith c e e h h in
    classify_cause-EndsWith custom c _ (find_sql-EndsWith c _ _ inner inner)
