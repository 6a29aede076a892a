-- ===== src/Request/RoundTrip.antt =====
-- The setters, the getters and the checks of request.go, together.
use batchflow.Prelude.{
  ℕ, String, ◌=~◌, ◌≡◌, refl, ap, ◌↔◌, Bool, true, false, List, [], ◌∷◌, Option, none, some, lookup,
  lookup-put, arith, eq_iff, All, length, get_elem?, Option-cases, inl, inr, zero, suc,
}
use batchflow.Prelude.Int.{ℤ}
use batchflow.Model.{Value, Record, value_at}
use batchflow.Schema.{columns}
use batchflow.Errors.{ok}
use batchflow.Request.{
  Request, set_value, set_int32, set_int64, set_string, set_float64, set_bool, set_time, get_int32,
  get_int64, get_string, get_float64, get_bool, get_time, as_int32, as_int64, as_string, as_float64,
  as_bool, as_time, ordered, get_ordered_values, validate_columns, validate,
}

found : (r : Request) (col : String) (v : Value) → lookup col (set_value r col v).values ≡ some v
unfolding set_value
found r col v = ground (arith, lookup-put col col v r.values, eq_iff col col)

-- Each typed getter returns the value that the setter of its type has set last in its column.
pub get-set :
    (r : Request) (col : String) (i j t : ℤ) (s : String) (f : ℕ) (b : Bool)
    → (get_int32 (set_int32 r col i) col ≡ ok i)
      × (get_int64 (set_int64 r col j) col ≡ ok j)
      × (get_string (set_string r col s) col ≡ ok s)
      × (get_float64 (set_float64 r col f) col ≡ ok f)
      × (get_bool (set_bool r col b) col ≡ ok b)
      × (get_time (set_time r col t) col ≡ ok t)
unfolding get_int32 get_int64 get_string get_float64 get_bool get_time set_int32 set_int64
    set_string set_float64 set_bool set_time as_int32 as_int64 as_string as_float64 as_bool as_time
get-set r col i j t s f b = (
  ap (as_int32 col) (found r col (Value.int32 i)),
  ap (as_int64 col) (found r col (Value.int64 j)),
  ap (as_string col) (found r col (Value.string s)),
  ap (as_float64 col) (found r col (Value.float64 f)),
  ap (as_bool col) (found r col (Value.bool b)),
  ap (as_time col) (found r col (Value.time t)),
)

elsewhere :
    (r : Request) (col other : String) (v : Value)
    → (col =~ other) ≡ false
    → lookup other (set_value r col v).values ≡ lookup other r.values
unfolding set_value
elsewhere r col other v h = ground (arith, lookup-put col other v r.values)

-- Setting one column changes what no typed getter returns for another column.
pub get-set_other :
    (r : Request) (col other : String) (v : Value)
    → (col =~ other) ≡ false
    → (get_int32 (set_value r col v) other ≡ get_int32 r other)
      × (get_int64 (set_value r col v) other ≡ get_int64 r other)
      × (get_string (set_value r col v) other ≡ get_string r other)
      × (get_float64 (set_value r col v) other ≡ get_float64 r other)
      × (get_bool (set_value r col v) other ≡ get_bool r other)
      × (get_time (set_value r col v) other ≡ get_time r other)
unfolding get_int32 get_int64 get_string get_float64 get_bool get_time
get-set_other r col other v h =
    let same = elsewhere r col other v h in
    (
      ap (as_int32 other) same,
      ap (as_int64 other) same,
      ap (as_string other) same,
      ap (as_float64 other) same,
      ap (as_bool other) same,
      ap (as_time other) same,
    )

abbrev pub is_present : Record → String → Bool
is_present row col = elim (lookup col row) [ none ↦ false | some v ↦ true ]

validate_columns_iff :
    (row : Record) (cols : List String)
    → (validate_columns row cols ≡ none) ↔ All (λ (col : String). is_present row col ≡ true) cols
unfolding validate_columns
validate_columns_iff row [] = (λ e. tt, λ all. refl)
validate_columns_iff row (col ∷ cols) = elim (Option-cases (lookup col row)) [
  | inl e ↦ (λ h. cc (rw (e, validate_columns) at h), λ all. cc (rw (e, is_present) at all.0))
  | inr (v, e) ↦
      let rest = validate_columns_iff row cols in
      (
        λ h. (rw (e, is_present) refl, rest.0 (rw (e, validate_columns) at h)),
        λ all. rw (e, validate_columns) (rest.1 all.1),
      )
]

-- Validate returns nil exactly for a request with a value in each column of its schema.
pub validate_iff :
    (r : Request)
    → (validate r ≡ none)
      ↔ All (λ (col : String). is_present r.values col ≡ true) (columns r.schema)
unfolding validate
validate_iff r = validate_columns_iff r.values (columns r.schema)

abbrev pub value_in : Record → Option String → Option Value
value_in row none = none
value_in row (some col) = some (value_at row col)

ordered-elem :
    (row : Record) (cols : List String) (i : ℕ)
    → get_elem? (ordered row cols) i ≡ value_in row (get_elem? cols i)
unfolding ordered
ordered-elem row [] i = refl
ordered-elem row (col ∷ cols) zero = refl
ordered-elem row (col ∷ cols) (suc i) = ordered-elem row cols i

length-ordered : (row : Record) (cols : List String) → length (ordered row cols) ≡ length cols
unfolding ordered
length-ordered row [] = refl
length-ordered row (col ∷ cols) = ap suc (length-ordered row cols)

-- GetOrderedValues returns one value for each column of the schema, in their order, and nil for a
-- column without a value.
pub get_ordered_values-columns :
    (r : Request)
    → (length (get_ordered_values r) ≡ length (columns r.schema))
      × ((i : ℕ)
          → get_elem? (get_ordered_values r) i ≡ value_in r.values (get_elem? (columns r.schema) i))
unfolding get_ordered_values
get_ordered_values-columns r =
    (length-ordered r.values (columns r.schema), ordered-elem r.values (columns r.schema))
