-- ===== src/Coalescer.antt =====
-- coalescer.go: duplicate keys inside one batch. The proofs are in the modules below.
pub mod Key
pub mod Slots
pub mod KeyLaws
pub mod Strategies
pub mod Results
pub mod Survivors
pub mod Order
pub mod Accounting
pub mod Meaning
pub mod Steps
pub mod Refinement
pub use Key.{Formatter, key_part}
unfoldable pub use Key.{record_key}
use batchflow.Prelude.{
  ℕ, zero, suc, ◌+◌, String, ◌^^◌, Bool, true, false, ◌||◌, List, [], ◌∷◌, ◌++◌, Option, none, some,
  Map, lookup, put, length, is_empty, ltb, if◌then◌else◌,
}
use batchflow.Model.{Value, Record, Batch, clone_record}
use batchflow.Schema.{SchemaInterface, columns}
use batchflow.Context.{Context, later}
use batchflow.Errors.{Error, Result, ok, err}

-- A Go string with four named values; `unsupported` is any other.
pub data CoalesceStrategy : Type 0 where
  disabled keep_first keep_last merge_present_fields : CoalesceStrategy
  unsupported : String → CoalesceStrategy

pub record CoalesceResult : Type 0 where
  pub batch : Batch
  pub input_items : ℕ
  pub output_items : ℕ
  pub deduplicated_items : ℕ
  pub merged_items : ℕ

unfoldable pub new_coalesce_result : Batch → CoalesceResult
new_coalesce_result batch = record {
  batch = batch;
  input_items = length batch;
  output_items = length batch;
  deduplicated_items = 0;
  merged_items = 0;
}

-- The interface. A Go call returns a result and an error, which is nil on success.
abbrev pub Coalescer : Type 0
Coalescer = Context → SchemaInterface → Batch → CoalesceResult × Option Error

-- CoalescerFunc, which may be nil
unfoldable pub coalescer_func : Option Coalescer → Coalescer
unfolding new_coalesce_result
coalescer_func none ctx schema batch = (new_coalesce_result batch, none)
coalescer_func (some f) ctx schema batch = f ctx schema batch

abbrev pub KeyFunc : Type 0
KeyFunc = SchemaInterface → Record → Option String

pub record KeyCoalescer : Type 0 where
  pub strategy : CoalesceStrategy
  pub key_columns : List String
  pub key_func : Option KeyFunc

unfoldable pub new_key_coalescer : CoalesceStrategy → List String → KeyCoalescer
new_key_coalescer strategy key_columns = record {
  strategy = strategy;
  key_columns = key_columns;
  key_func = none;
}

unfoldable pub with_key_func : KeyCoalescer → KeyFunc → KeyCoalescer
with_key_func c fn = record c { key_func = some fn }

-- `key`, where a nil KeyFunc is `none`
unfoldable pub columns_key : Formatter → List String → Record → Option String
columns_key fmt [] row = none
columns_key fmt (col ∷ cols) row = some (record_key fmt row (col ∷ cols))

unfoldable pub key : Formatter → KeyCoalescer → SchemaInterface → Record → Option String
unfolding columns_key
key fmt c schema row = elim c.key_func [
  | some fn ↦ fn schema row
  | none ↦ columns_key fmt (if is_empty c.key_columns then columns schema else c.key_columns) row
]

-- The variables of the loop of Coalesce: `seen` gives the index in `rows` of the row of a key.
pub record Loop : Type 0 where
  pub rows : Batch
  pub seen : Map ℕ
  pub deduplicated : ℕ
  pub merged : ℕ

abbrev pub start : Loop
start = record { rows = []; seen = []; deduplicated = 0; merged = 0 }

-- rows[idx] = f(rows[idx]); an index out of range changes nothing, where Go panics; `seen` holds none.
unfoldable pub modify {ℓ} : {A : Type ℓ} → (A → A) → List A → ℕ → List A
modify f [] i = []
modify f (x ∷ xs) zero = f x ∷ xs
modify f (x ∷ xs) (suc i) = x ∷ modify f xs i

-- for _, col := range schema.Columns() { if val, exists := row[col]; exists { target[col] = val } }
unfoldable pub merge_present : List String → Record → Record → Record
merge_present [] row target = target
merge_present (col ∷ cols) row target = elim (lookup col row) [
  | none ↦ merge_present cols row target
  | some val ↦ merge_present cols row (put col val target)
]

-- The body of the loop for a row whose key has been seen at `idx`.
unfoldable pub absorb_duplicate : CoalesceStrategy → List String → Loop → Record → ℕ → Result Loop
unfolding modify merge_present clone_record
absorb_duplicate CoalesceStrategy.keep_first cols l row idx =
    ok (record l { deduplicated = l.deduplicated + 1 })
absorb_duplicate CoalesceStrategy.keep_last cols l row idx = ok (record l {
  rows = modify (λ _. clone_record row) l.rows idx;
  deduplicated = l.deduplicated + 1;
})
absorb_duplicate CoalesceStrategy.merge_present_fields cols l row idx =
    ok (record l { rows = modify (merge_present cols row) l.rows idx; merged = l.merged + 1 })
absorb_duplicate CoalesceStrategy.disabled cols l row idx =
    err (Error.text "unsupported coalesce strategy: disabled")
absorb_duplicate (CoalesceStrategy.unsupported s) cols l row idx =
    err (Error.text ("unsupported coalesce strategy: " ^^ s))

-- rows = append(rows, cloneRecord(row))
unfoldable pub append_row : Loop → Record → Loop
unfolding clone_record
append_row l row = record l { rows = l.rows ++ clone_record row ∷ [] }

-- The body of the loop, after the poll of the context; `key` is the row's key, if it has one.
unfoldable pub absorb : CoalesceStrategy → List String → Option String → Record → Loop → Result Loop
unfolding absorb_duplicate append_row
absorb strategy cols none row l = ok (append_row l row)
absorb strategy cols (some k) row l = elim (lookup k l.seen) [
  | some idx ↦ absorb_duplicate strategy cols l row idx
  | none ↦ ok (append_row (record l { seen = put k (length l.rows) l.seen }) row)
]

-- How the loop ends: through all rows, or by an error with the variables as they are then.
pub data Outcome : Type 0 where
  finished : Loop → Outcome
  stopped : Loop → Error → Outcome

module _ (strategy : CoalesceStrategy) (cols : List String) (row_key : Record → Option String) where
  unfoldable pub coalesce_rows : Context → Batch → Loop → Outcome
  coalesce_rows ctx [] l = Outcome.finished l
  coalesce_rows ctx (row ∷ batch) l = elim (ctx 0) [
    | some e ↦ Outcome.stopped l (Error.context e)
    | none ↦ elim (absorb strategy cols (row_key row) row l) [
      | err e ↦ Outcome.stopped l e
      | ok l' ↦ coalesce_rows (later 1 ctx) batch l'
    ]
  ]

unfoldable pub is_disabled : CoalesceStrategy → Bool
is_disabled CoalesceStrategy.disabled = true
is_disabled _ = false

-- The result that Coalesce returns at the end of the loop. On an error it keeps the batch that it
-- was given, with the counts so far.
unfoldable pub report : Batch → Outcome → CoalesceResult × Option Error
unfolding new_coalesce_result
report batch (Outcome.finished l) = (
  record (new_coalesce_result batch) {
    batch = l.rows;
    output_items = length l.rows;
    deduplicated_items = l.deduplicated;
    merged_items = l.merged;
  },
  none,
)
report batch (Outcome.stopped l e) = (
  record (new_coalesce_result batch) {
    deduplicated_items = l.deduplicated;
    merged_items = l.merged;
  },
  some e,
)

-- KeyCoalescer.Coalesce, on a receiver that may be nil
unfoldable pub coalesce : Formatter → Option KeyCoalescer → Coalescer
unfolding new_coalesce_result is_disabled coalesce_rows report key
coalesce fmt none ctx schema batch = (new_coalesce_result batch, none)
coalesce fmt (some c) ctx schema batch =
    if is_disabled c.strategy || ltb (length batch) 2
    then (new_coalesce_result batch, none)
    else report batch (coalesce_rows c.strategy (columns schema) (key fmt c schema) ctx batch start)
