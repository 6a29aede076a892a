-- ===== src/Request.antt =====
-- request.go: one item, with its schema and the values of its columns. A setter changes the request
-- that it is called on and returns it; here it returns the request that results.
pub mod RoundTrip
use batchflow.Prelude.{
  ℕ, String, ◌^^◌, ◌≡◌, Bool, List, [], ◌∷◌, Option, none, some, Map, lookup, put,
}
use batchflow.Prelude.Int.{ℤ}
use batchflow.Model.{Value, Record, value_at, clone_record}
use batchflow.Schema.{SchemaInterface, columns}
use batchflow.Errors.{Error, Result, ok, err}

pub record Request : Type 0 where
  pub schema : SchemaInterface
  pub values : Record

unfoldable pub new_request : SchemaInterface → Request
new_request schema = record { schema = schema; values = [] }

-- Columns(): a copy
unfoldable pub request_columns : Request → Record
unfolding clone_record
request_columns r = clone_record r.values

unfoldable pub ordered : Record → List String → List Value
unfolding value_at
ordered row [] = []
ordered row (col ∷ cols) = value_at row col ∷ ordered row cols

unfoldable pub get_ordered_values : Request → List Value
unfolding ordered columns
get_ordered_values r = ordered r.values (columns r.schema)

-- Set, and with it every typed setter
unfoldable pub set_value : Request → String → Value → Request
set_value r col value = record r { values = put col value r.values }

unfoldable pub set_int : Request → String → ℤ → Request
unfolding set_value
set_int r col value = set_value r col (Value.int value)

unfoldable pub set_int8 : Request → String → ℤ → Request
unfolding set_value
set_int8 r col value = set_value r col (Value.int8 value)

unfoldable pub set_int16 : Request → String → ℤ → Request
unfolding set_value
set_int16 r col value = set_value r col (Value.int16 value)

unfoldable pub set_int32 : Request → String → ℤ → Request
unfolding set_value
set_int32 r col value = set_value r col (Value.int32 value)

unfoldable pub set_int64 : Request → String → ℤ → Request
unfolding set_value
set_int64 r col value = set_value r col (Value.int64 value)

unfoldable pub set_uint : Request → String → ℕ → Request
unfolding set_value
set_uint r col value = set_value r col (Value.uint value)

unfoldable pub set_uint8 : Request → String → ℕ → Request
unfolding set_value
set_uint8 r col value = set_value r col (Value.uint8 value)

unfoldable pub set_uint16 : Request → String → ℕ → Request
unfolding set_value
set_uint16 r col value = set_value r col (Value.uint16 value)

unfoldable pub set_uint32 : Request → String → ℕ → Request
unfolding set_value
set_uint32 r col value = set_value r col (Value.uint32 value)

unfoldable pub set_uint64 : Request → String → ℕ → Request
unfolding set_value
set_uint64 r col value = set_value r col (Value.uint64 value)

unfoldable pub set_float32 : Request → String → ℕ → Request
unfolding set_value
set_float32 r col value = set_value r col (Value.float32 value)

unfoldable pub set_float64 : Request → String → ℕ → Request
unfolding set_value
set_float64 r col value = set_value r col (Value.float64 value)

unfoldable pub set_string : Request → String → String → Request
unfolding set_value
set_string r col value = set_value r col (Value.string value)

unfoldable pub set_bool : Request → String → Bool → Request
unfolding set_value
set_bool r col value = set_value r col (Value.bool value)

unfoldable pub set_time : Request → String → ℤ → Request
unfolding set_value
set_time r col value = set_value r col (Value.time value)

unfoldable pub set_bytes : Request → String → List ℕ → Request
unfolding set_value
set_bytes r col value = set_value r col (Value.bytes value)

unfoldable pub set_null : Request → String → Request
unfolding set_value
set_null r col = set_value r col Value.null

-- The two errors of a typed getter.
abbrev pub not_found : String → Error
not_found col = Error.text ("column " ^^ (col ^^ " not found"))

abbrev pub not_of_type : String → String → Error
not_of_type col type = Error.text ("column " ^^ (col ^^ (" is not " ^^ type)))

unfoldable pub as_int32 : String → Option Value → Result (ℤ)
as_int32 col none = err (not_found col)
as_int32 col (some (Value.int32 v)) = ok v
as_int32 col (some _) = err (not_of_type col "int32")

unfoldable pub get_int32 : Request → String → Result (ℤ)
unfolding as_int32
get_int32 r col = as_int32 col (lookup col r.values)

unfoldable pub as_int64 : String → Option Value → Result (ℤ)
as_int64 col none = err (not_found col)
as_int64 col (some (Value.int64 v)) = ok v
as_int64 col (some _) = err (not_of_type col "int64")

unfoldable pub get_int64 : Request → String → Result (ℤ)
unfolding as_int64
get_int64 r col = as_int64 col (lookup col r.values)

unfoldable pub as_string : String → Option Value → Result (String)
as_string col none = err (not_found col)
as_string col (some (Value.string v)) = ok v
as_string col (some _) = err (not_of_type col "string")

unfoldable pub get_string : Request → String → Result (String)
unfolding as_string
get_string r col = as_string col (lookup col r.values)

unfoldable pub as_float64 : String → Option Value → Result (ℕ)
as_float64 col none = err (not_found col)
as_float64 col (some (Value.float64 v)) = ok v
as_float64 col (some _) = err (not_of_type col "float64")

unfoldable pub get_float64 : Request → String → Result (ℕ)
unfolding as_float64
get_float64 r col = as_float64 col (lookup col r.values)

unfoldable pub as_bool : String → Option Value → Result (Bool)
as_bool col none = err (not_found col)
as_bool col (some (Value.bool v)) = ok v
as_bool col (some _) = err (not_of_type col "bool")

unfoldable pub get_bool : Request → String → Result (Bool)
unfolding as_bool
get_bool r col = as_bool col (lookup col r.values)

unfoldable pub as_time : String → Option Value → Result (ℤ)
as_time col none = err (not_found col)
as_time col (some (Value.time v)) = ok v
as_time col (some _) = err (not_of_type col "time.Time")

unfoldable pub get_time : Request → String → Result (ℤ)
unfolding as_time
get_time r col = as_time col (lookup col r.values)

-- The loop of Validate: nil, or an error for the first column that is missing.
unfoldable pub validate_columns : Record → List String → Option Error
validate_columns row [] = none
validate_columns row (col ∷ cols) = elim (lookup col row) [
  | none ↦ some (Error.text ("missing required column: " ^^ col))
  | some v ↦ validate_columns row cols
]

unfoldable pub validate : Request → Option Error
unfolding validate_columns columns
validate r = validate_columns r.values (columns r.schema)
