-- ===== src/Classify/Decisions.antt =====
-- What ClassifyError of error_classification.go decides.
use batchflow.Prelude.{
  ℕ, String, ◌=~◌, ◌≡◌, refl, ap, inl, inr, Bool, true, false, ◌||◌, List, [], ◌∷◌, Option, none,
  some, Bool-cases, Option-cases, arith, if◌then◌else◌, to_lower, contains, contains_any, ◌&&◌,
  subst,
}
use batchflow.Context.{canceled, deadline_exceeded}
use batchflow.Errors.{Error, BatchInfo, SqlInfo, error_text}
use batchflow.Classify.{
  Classifier, classify_text, classify_custom, classify_cause, classify_error, unwrap_batch_cause,
  find_batch, find_sql, built_in, first_known, is_context, classify_mysql, classify_postgres,
  classify_redis, mysql_reason, postgres_reason, find_mysql, find_postgres, is_redis_nil, unknown,
  context_canceled, context_deadline, duplicate_key, deadlock, lock_timeout, timeout, connection,
  io, syntax, non_retryable,
}

-- The reasons of failures that pass.
abbrev pub is_transient : String → Bool
is_transient r =
    r =~ deadlock || (r =~ lock_timeout || (r =~ timeout || (r =~ connection || r =~ io)))

-- A decision to retry goes with a transient reason, and the other way round; there is a reason.
pub record IsCoherent (d : Bool × String) : Type 0 where
  pub agrees : d.0 ≡ is_transient d.1
  pub has_reason : (d.1 =~ "") ≡ false

IsCoherent-if :
    (b : Bool) {x y : Bool × String} → IsCoherent x → IsCoherent y → IsCoherent (if b then x else y)
IsCoherent-if true p q = p
IsCoherent-if false p q = q

-- The decisions that the code names.
duplicate_key-IsCoherent : IsCoherent (false, duplicate_key)
duplicate_key-IsCoherent = record { agrees = refl; has_reason = refl }

deadlock-IsCoherent : IsCoherent (true, deadlock)
deadlock-IsCoherent = record { agrees = refl; has_reason = refl }

lock_timeout-IsCoherent : IsCoherent (true, lock_timeout)
lock_timeout-IsCoherent = record { agrees = refl; has_reason = refl }

timeout-IsCoherent : IsCoherent (true, timeout)
timeout-IsCoherent = record { agrees = refl; has_reason = refl }

connection-IsCoherent : IsCoherent (true, connection)
connection-IsCoherent = record { agrees = refl; has_reason = refl }

io-IsCoherent : IsCoherent (true, io)
io-IsCoherent = record { agrees = refl; has_reason = refl }

syntax-IsCoherent : IsCoherent (false, syntax)
syntax-IsCoherent = record { agrees = refl; has_reason = refl }

non_retryable-IsCoherent : IsCoherent (false, non_retryable)
non_retryable-IsCoherent = record { agrees = refl; has_reason = refl }

context_canceled-IsCoherent : IsCoherent (false, context_canceled)
context_canceled-IsCoherent = record { agrees = refl; has_reason = refl }

context_deadline-IsCoherent : IsCoherent (false, context_deadline)
context_deadline-IsCoherent = record { agrees = refl; has_reason = refl }

unknown-IsCoherent : IsCoherent (false, unknown)
unknown-IsCoherent = record { agrees = refl; has_reason = refl }

mysql_reason-IsCoherent : (n : ℕ) → IsCoherent (mysql_reason n)
unfolding mysql_reason
mysql_reason-IsCoherent n = IsCoherent-if _ duplicate_key-IsCoherent (
    IsCoherent-if _ deadlock-IsCoherent (
      IsCoherent-if _ lock_timeout-IsCoherent (
        IsCoherent-if _ timeout-IsCoherent (
          IsCoherent-if _ connection-IsCoherent
            (IsCoherent-if _ syntax-IsCoherent non_retryable-IsCoherent)))))

postgres_reason-IsCoherent : (code : String) → IsCoherent (postgres_reason code)
unfolding postgres_reason
postgres_reason-IsCoherent code = IsCoherent-if _ duplicate_key-IsCoherent (
    IsCoherent-if _ deadlock-IsCoherent (
      IsCoherent-if _ lock_timeout-IsCoherent (
        IsCoherent-if _ timeout-IsCoherent (
          IsCoherent-if _ syntax-IsCoherent
            (IsCoherent-if _ connection-IsCoherent non_retryable-IsCoherent)))))

classify_text-IsCoherent : (s : String) → IsCoherent (classify_text s)
unfolding classify_text
classify_text-IsCoherent s = IsCoherent-if _ duplicate_key-IsCoherent (
    IsCoherent-if _ deadlock-IsCoherent (
      IsCoherent-if _ lock_timeout-IsCoherent (
        IsCoherent-if _ timeout-IsCoherent (
          IsCoherent-if (contains s "connection" && contains_any s lost) connection-IsCoherent (
            IsCoherent-if _ connection-IsCoherent (
              IsCoherent-if _ io-IsCoherent
                (IsCoherent-if _ syntax-IsCoherent non_retryable-IsCoherent)))))))
  where
    lost : List String
    lost = "refused" ∷ "reset" ∷ "closed" ∷ "failure" ∷ "unavailable" ∷ []

-- A built-in classifier that knows the error.
built_in-IsCoherent :
    (e : Error) (d : Bool × String) → first_known built_in e ≡ some d → IsCoherent d
unfolding first_known classify_mysql classify_postgres classify_redis
built_in-IsCoherent e d h = elim (Option-cases (find_mysql e)) [
  | inr (n, m) ↦ known (mysql_reason n) (mysql_reason-IsCoherent n) (ground arith)
  | inl no_mysql ↦ elim (Option-cases (find_postgres e)) [
    | inr (code, m) ↦ known (postgres_reason code) (postgres_reason-IsCoherent code) (ground arith)
    | inl no_postgres ↦ elim (Bool-cases (is_redis_nil e)) [
      | inl nil ↦ known (false, non_retryable) non_retryable-IsCoherent (ground arith)
      | inr not_nil ↦ known (true, deadlock) deadlock-IsCoherent (ground arith)
    ]
  ]
]
  where
    known : (r : Bool × String) → IsCoherent r → r ≡ d → IsCoherent d
    known r c p = subst IsCoherent p c

known :
    (e : Error)
    → IsCoherent (elim (first_known built_in e) [ some r ↦ r | none ↦ classify_custom [] e ])
unfolding classify_custom
known e = elim (Option-cases (first_known built_in e)) [
  | inl missed ↦ rw missed (classify_text-IsCoherent (to_lower (error_text e)))
  | inr (d, found) ↦ rw found (built_in-IsCoherent e d found)
]

-- Without custom classifiers ClassifyError retries exactly the errors with a transient reason, and
-- it always gives a reason.
pub classify_error-IsCoherent : (o : Option Error) → IsCoherent (classify_error [] o)
unfolding classify_error classify_cause classify_custom
classify_error-IsCoherent none = unknown-IsCoherent
classify_error-IsCoherent (some e) = cause (unwrap_batch_cause e)
  where
    cause : (e : Error) → IsCoherent (classify_cause [] e)
    cause e =
        IsCoherent-if (is_context canceled e) context_canceled-IsCoherent
          (IsCoherent-if (is_context deadline_exceeded e) context_deadline-IsCoherent (known e))

unwrap_batch :
    (i : BatchInfo) (e : Error)
    → find_batch e ≡ none
    → unwrap_batch_cause (Error.batch i e) ≡ unwrap_batch_cause e
unfolding unwrap_batch_cause
unwrap_batch i e h = ground arith

unwrap_sql :
    (i : SqlInfo) (e : Error)
    → find_batch e ≡ none
    → find_sql e ≡ none
    → unwrap_batch_cause (Error.sql i e) ≡ unwrap_batch_cause e
unfolding unwrap_batch_cause
unwrap_sql i e h k = ground arith

unwrap_both :
    (i : BatchInfo) (s : SqlInfo) (e : Error)
    → find_batch e ≡ none
    → find_sql e ≡ none
    → unwrap_batch_cause (Error.batch i (Error.sql s e)) ≡ unwrap_batch_cause e
unfolding unwrap_batch_cause
unwrap_both i s e h k = ground arith

-- Metadata does not change the decision: a BatchError, a SQLError or both round a cause that has
-- neither type in its chain are classified as that cause, whatever classifiers are registered.
pub classify_error-unwrap :
    (custom : List Classifier) (i : BatchInfo) (s : SqlInfo) (e : Error)
    → find_batch e ≡ none
    → find_sql e ≡ none
    → (classify_error custom (some (Error.batch i e)) ≡ classify_error custom (some e))
      × (classify_error custom (some (Error.sql s e)) ≡ classify_error custom (some e))
      × (classify_error custom (some (Error.batch i (Error.sql s e)))
          ≡ classify_error custom (some e))
unfolding classify_error
classify_error-unwrap custom i s e h k = (
  ap (classify_cause custom) (unwrap_batch i e h),
  ap (classify_cause custom) (unwrap_sql s e h k),
  ap (classify_cause custom) (unwrap_both i s e h k),
)
