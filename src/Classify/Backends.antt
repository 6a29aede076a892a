-- ===== src/Classify/Backends.antt =====
-- The errors of MySQL, PostgreSQL and Redis in error_classification.go, and the reasons.
use batchflow.Prelude.{
  ℕ, String, ◌=~◌, ◌==◌, Bool, true, false, ◌||◌, Option, none, some, has_prefix, if◌then◌else◌,
}
use batchflow.Errors.{Error}

abbrev pub unknown : String
unknown = "unknown"

abbrev pub context_canceled : String
context_canceled = "context_canceled"

abbrev pub context_deadline : String
context_deadline = "context_deadline"

abbrev pub duplicate_key : String
duplicate_key = "duplicate_key"

abbrev pub deadlock : String
deadlock = "deadlock"

abbrev pub lock_timeout : String
lock_timeout = "lock_timeout"

abbrev pub timeout : String
timeout = "timeout"

abbrev pub connection : String
connection = "connection"

abbrev pub io : String
io = "io"

abbrev pub syntax : String
syntax = "syntax"

abbrev pub non_retryable : String
non_retryable = "non_retryable"

abbrev first_of {ℓ} : {A : Type ℓ} → Option A → Option A → Option A
first_of none o = o
first_of (some a) o = some a

-- errors.As(err, &mysqlErr): the number of the first MySQLError of the chain
unfoldable pub find_mysql : Error → Option ℕ
find_mysql (Error.mysql n s) = some n
find_mysql (Error.wrap s e) = find_mysql e
find_mysql (Error.joined d e) = first_of (find_mysql d) (find_mysql e)
find_mysql (Error.batch i e) = find_mysql e
find_mysql (Error.sql i e) = find_mysql e
find_mysql _ = none

-- errors.As(err, &pqErr): the SQLSTATE
unfoldable pub find_postgres : Error → Option String
find_postgres (Error.postgres code s) = some code
find_postgres (Error.wrap s e) = find_postgres e
find_postgres (Error.joined d e) = first_of (find_postgres d) (find_postgres e)
find_postgres (Error.batch i e) = find_postgres e
find_postgres (Error.sql i e) = find_postgres e
find_postgres _ = none

-- errors.Is(err, redis.Nil)
unfoldable pub is_redis_nil : Error → Bool
is_redis_nil (Error.redis_nil s) = true
is_redis_nil (Error.wrap s e) = is_redis_nil e
is_redis_nil (Error.joined d e) = if is_redis_nil d then true else is_redis_nil e
is_redis_nil (Error.batch i e) = is_redis_nil e
is_redis_nil (Error.sql i e) = is_redis_nil e
is_redis_nil _ = false

-- errors.Is(err, redis.TxFailedErr)
unfoldable pub is_redis_tx_failed : Error → Bool
is_redis_tx_failed (Error.redis_tx_failed s) = true
is_redis_tx_failed (Error.wrap s e) = is_redis_tx_failed e
is_redis_tx_failed (Error.joined d e) = if is_redis_tx_failed d then true else is_redis_tx_failed e
is_redis_tx_failed (Error.batch i e) = is_redis_tx_failed e
is_redis_tx_failed (Error.sql i e) = is_redis_tx_failed e
is_redis_tx_failed _ = false

unfoldable pub mysql_reason : ℕ → Bool × String
mysql_reason n =
    if n == 1062
    then (false, duplicate_key)
    else if n == 1213
    then (true, deadlock)
    else if n == 1205
    then (true, lock_timeout)
    else if n == 3024 || n == 1317
    then (true, timeout)
    else if n == 1040
        || (n == 1042 || (n == 1043 || (n == 2002 || (n == 2003 || (n == 2006 || n == 2013)))))
    then (true, connection)
    else if n == 1064
    then (false, syntax)
    else (false, non_retryable)

unfoldable pub classify_mysql : Error → Option (Bool × String)
unfolding find_mysql mysql_reason
classify_mysql e = elim (find_mysql e) [ none ↦ none | some n ↦ some (mysql_reason n) ]

unfoldable pub postgres_reason : String → Bool × String
unfolding has_prefix
postgres_reason code =
    if code =~ "23505"
    then (false, duplicate_key)
    else if code =~ "40P01"
    then (true, deadlock)
    else if code =~ "55P03"
    then (true, lock_timeout)
    else if code =~ "57014"
    then (true, timeout)
    else if code =~ "42601"
    then (false, syntax)
    else if has_prefix code "08"
        || (code =~ "53300" || (code =~ "57P01" || (code =~ "57P02" || code =~ "57P03")))
    then (true, connection)
    else (false, non_retryable)

unfoldable pub classify_postgres : Error → Option (Bool × String)
unfolding find_postgres postgres_reason
classify_postgres e = elim (find_postgres e) [
  | none ↦ none
  | some code ↦ some (postgres_reason code)
]

unfoldable pub classify_redis : Error → Option (Bool × String)
unfolding is_redis_nil is_redis_tx_failed
classify_redis e =
    if is_redis_nil e
    then some (false, non_retryable)
    else if is_redis_tx_failed e
    then some (true, deadlock)
    else none
