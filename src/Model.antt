-- ===== src/Model.antt =====
-- model.go: a record is a map from column names to values of any Go type, a batch a list of records.
use batchflow.Prelude.{ℕ, String, Bool, List, [], ◌∷◌, none, some, Map, lookup, put}
use batchflow.Prelude.Int.{ℤ}

-- Go's `any`, by the dynamic types that the setters of request.go name. A float is its bit pattern,
-- a time its instant in nanoseconds, and `opaque` any value of another type.
pub data Value : Type 0 where
  null : Value
  int int8 int16 int32 int64 : ℤ → Value
  uint uint8 uint16 uint32 uint64 : ℕ → Value
  float32 float64 : ℕ → Value
  string : String → Value
  bool : Bool → Value
  time : ℤ → Value
  bytes : List ℕ → Value
  opaque : ℕ → Value

abbrev pub Record : Type 0
Record = Map Value

abbrev pub Batch : Type 0
Batch = List Record

-- row[col], which is nil for a column that is missing
unfoldable pub value_at : Record → String → Value
value_at row col = elim (lookup col row) [ none ↦ Value.null | some v ↦ v ]

-- `cloneRecord` and `cloneAttributes` copy a map entry by entry.
unfoldable pub clone_record : Record → Record
clone_record [] = []
clone_record ((k, v) ∷ row) = put k v (clone_record row)
