-- ===== src/Errors.antt =====
-- Errors as values: error.go, the two error types of observability.go and sql_observability.go, the
-- errors of the drivers, and the chains that errors.Is and errors.As walk.
use batchflow.Prelude.{ℕ, ◌≡◌, refl, ◌⊎◌, inl, inr, String, ◌^^◌, List, [], ◌∷◌, Map, join, itoa}
use batchflow.Model.{Value}
use batchflow.Schema.{ConflictStrategy}
use batchflow.Context.{ContextErr, canceled, deadline_exceeded}

-- The metadata of a BatchError, without its cause.
pub record BatchInfo : Type 0 where
  pub stage : String
  pub backend : String
  pub schema : String
  pub batch_size : ℕ
  pub fingerprint : String
  pub attributes : Map Value

-- The metadata of a SQLError, without its cause.
pub record SqlInfo : Type 0 where
  pub stage : String
  pub table : String
  pub batch_size : ℕ
  pub conflict_strategy : ConflictStrategy
  pub conflict_columns : List String
  pub update_columns : List String
  pub sql_fingerprint : String
  pub args_count : ℕ

-- The errors of other packages carry the text that their Error method returns.
pub data Error : Type 0 where
  context : ContextErr → Error
  text : String → Error  -- errors.New, fmt.Errorf without %w
  mysql : ℕ → String → Error  -- *mysql.MySQLError: Number
  postgres : String → String → Error  -- *pq.Error: SQLState
  redis_nil redis_tx_failed : String → Error
  wrap : String → Error → Error  -- fmt.Errorf with %w: the whole text
  joined : Error → Error → Error  -- errors.Join
  config : String → String → Error  -- *ConfigError: Field, and the text of its cause
  batch : BatchInfo → Error → Error
  batch_nil : BatchInfo → Error  -- a BatchError whose Cause is nil
  sql : SqlInfo → Error → Error
  sql_nil : SqlInfo → Error

abbrev pub err_empty_request : Error
err_empty_request = Error.text "empty request"

abbrev pub err_invalid_schema : Error
err_invalid_schema = Error.text "invalid schema"

abbrev pub err_missing_column : Error
err_missing_column = Error.text "missing required column"

abbrev pub err_empty_schema_name : Error
err_empty_schema_name = Error.text "empty schema name"

-- %d of a strategy
abbrev strategy_number : ConflictStrategy → ℕ
strategy_number ConflictStrategy.ignore = 0
strategy_number ConflictStrategy.replace = 1
strategy_number ConflictStrategy.update = 2
strategy_number (ConflictStrategy.other n) = n

-- attributeKeys
unfoldable pub attribute_keys : Map Value → List String
attribute_keys [] = []
attribute_keys ((k, v) ∷ m) = k ∷ attribute_keys m

-- %v of a slice of strings
abbrev slice_text : List String → String
slice_text xs = "[" ^^ (join xs " " ^^ "]")

unfoldable pub batch_text : BatchInfo → String → String
unfolding attribute_keys join itoa
batch_text e cause =
    "batch "
    ^^ (e.stage
        ^^ (" failed: backend="
            ^^ (e.backend
                ^^ (" schema="
                    ^^ (e.schema
                        ^^ (" batch_size="
                            ^^ (itoa e.batch_size
                                ^^ (" fingerprint="
                                    ^^ (e.fingerprint
                                        ^^ (" attribute_keys="
                                            ^^ (slice_text (attribute_keys e.attributes)
                                                ^^ (": " ^^ cause))))))))))))

unfoldable pub sql_text : SqlInfo → String → String
unfolding join itoa
sql_text e cause =
    "sql "
    ^^ (e.stage
        ^^ (" failed: table="
            ^^ (e.table
                ^^ (" batch_size="
                    ^^ (itoa e.batch_size
                        ^^ (" conflict_strategy="
                            ^^ (itoa (strategy_number e.conflict_strategy)
                                ^^ (" conflict_columns="
                                    ^^ (slice_text e.conflict_columns
                                        ^^ (" update_columns="
                                            ^^ (slice_text e.update_columns
                                                ^^ (" fingerprint="
                                                    ^^ (e.sql_fingerprint
                                                        ^^ (" args="
                                                            ^^ (itoa e.args_count
                                                            ^^ (": " ^^ cause))))))))))))))))

-- err.Error()
unfoldable pub error_text : Error → String
unfolding batch_text sql_text
error_text (Error.context canceled) = "context canceled"
error_text (Error.context deadline_exceeded) = "context deadline exceeded"
error_text (Error.text s) = s
error_text (Error.mysql n s) = s
error_text (Error.postgres c s) = s
error_text (Error.redis_nil s) = s
error_text (Error.redis_tx_failed s) = s
error_text (Error.wrap s e) = s
error_text (Error.joined d e) = error_text d ^^ ("\n" ^^ error_text e)
error_text (Error.config field cause) = "invalid config " ^^ (field ^^ (": " ^^ cause))
error_text (Error.batch i e) = batch_text i (error_text e)
error_text (Error.batch_nil i) = batch_text i "<nil>"
error_text (Error.sql i e) = sql_text i (error_text e)
error_text (Error.sql_nil i) = sql_text i "<nil>"

-- A Go call that returns a value or an error.
pub data Result {ℓ} (A : Type ℓ) : Type ℓ where
  ok : A → Result A
  err : Error → Result A

infixl 5 ◌>>=◌
abbrev pub ◌>>=◌ {ℓ κ} : {A : Type ℓ} {B : Type κ} → Result A → (A → Result B) → Result B
ok a >>= f = f a
err e >>= f = err e

pub Result-cases {ℓ} :
    {A : Type ℓ} (r : Result A) → ((a : A) × (r ≡ ok a)) ⊎ ((e : Error) × (r ≡ err e))
Result-cases (ok a) = inl (a, refl)
Result-cases (err e) = inr (e, refl)
