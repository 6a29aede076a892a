-- ===== src/Driver.antt =====
-- driver.go, what the SQL drivers share: the conflict and update columns, the deduplication of the
-- rows and the list of arguments. The drivers are in the modules below.
pub mod Placeholders
pub mod Statements
pub mod Results
pub mod Redis
pub mod Columns
pub mod Caching
pub mod Counts
use batchflow.Prelude.{
  ℕ, suc, ◌+◌, String, ◌^^◌, Bool, true, false, not, ◌&&◌, List, [], ◌∷◌, ◌++◌, Option, none, some,
  length, is_empty, member, map, if◌then◌else◌,
}
use batchflow.Model.{Value, Record, Batch, value_at}
use batchflow.Schema.{SchemaInterface, SqlSchema, ConflictStrategy, with_defaults}
use batchflow.Context.{Context, background, later}
use batchflow.Errors.{Error, Result, ok, err, ◌>>=◌}
use batchflow.Coalescer.{
  Formatter, Coalescer, CoalesceStrategy, CoalesceResult, KeyCoalescer, new_coalesce_result,
  new_key_coalescer, coalesce,
}

pub record SqlDedupStats : Type 0 where
  pub input_rows : ℕ
  pub output_rows : ℕ
  pub deduplicated_rows : ℕ
  pub merged_rows : ℕ

-- The first column alone, if no conflict column is configured.
unfoldable pub first_column : List String → List String
first_column [] = []
first_column (c ∷ cs) = c ∷ []

unfoldable pub sql_conflict_columns : SqlSchema → List String
unfolding first_column
sql_conflict_columns schema =
    if is_empty schema.operation_config.conflict_columns
    then first_column schema.columns
    else schema.operation_config.conflict_columns

-- The columns of the loop of sqlUpdateColumns: `conflict` and `update` are its two sets.
unfoldable pub select_columns : Bool → List String → List String → List String → List String
unfolding member
select_columns replace conflict update [] = []
select_columns replace conflict update (col ∷ cols) =
    let rest = select_columns replace conflict update cols in
    if member col conflict
    then rest
    else if not replace && (not (is_empty update) && not (member col update))
    then rest
    else col ∷ rest

unfoldable pub sql_update_columns : SqlSchema → Bool → List String
unfolding select_columns sql_conflict_columns
sql_update_columns schema replace =
    select_columns replace (sql_conflict_columns schema)
      (if replace then [] else schema.operation_config.update_columns) schema.columns

-- The coalescer that keeps every batch as it is.
unfoldable pub keep_all : Coalescer
unfolding new_coalesce_result
keep_all ctx schema batch = (new_coalesce_result batch, none)

unfoldable pub coalescer_for : Formatter → ConflictStrategy → List String → Coalescer
unfolding keep_all coalesce new_key_coalescer
coalescer_for fmt ConflictStrategy.ignore cols =
    coalesce fmt (some (new_key_coalescer CoalesceStrategy.keep_first cols))
coalescer_for fmt ConflictStrategy.replace cols =
    coalesce fmt (some (new_key_coalescer CoalesceStrategy.keep_last cols))
coalescer_for fmt ConflictStrategy.update cols =
    coalesce fmt (some (new_key_coalescer CoalesceStrategy.merge_present_fields cols))
coalescer_for fmt (ConflictStrategy.other n) cols = keep_all

-- newSQLCoalescer, for a schema that may be nil
unfoldable pub new_sql_coalescer : Formatter → Option SqlSchema → Coalescer
unfolding keep_all coalescer_for sql_conflict_columns with_defaults
new_sql_coalescer fmt none = keep_all
new_sql_coalescer fmt (some schema) =
    let cfg = with_defaults schema.operation_config in
    if cfg.deduplicate_by_conflict_columns
    then coalescer_for fmt cfg.conflict_strategy (sql_conflict_columns schema)
    else keep_all

-- On an error the rows and the counts are those of the input.
unfoldable pub dedup_outcome :
    Batch → CoalesceResult × Option Error → Batch × SqlDedupStats × Option Error
dedup_outcome batch (result, some e) = (
  batch,
  record {
    input_rows = length batch;
    output_rows = length batch;
    deduplicated_rows = 0;
    merged_rows = 0;
  },
  some e,
)
dedup_outcome batch (result, none) = (
  result.batch,
  record {
    input_rows = result.input_items;
    output_rows = result.output_items;
    deduplicated_rows = result.deduplicated_items;
    merged_rows = result.merged_items;
  },
  none,
)

unfoldable pub deduplicate_sql_rows_ctx :
    Formatter → Context → SqlSchema → Batch → Batch × SqlDedupStats × Option Error
unfolding new_sql_coalescer dedup_outcome
deduplicate_sql_rows_ctx fmt ctx schema batch =
    dedup_outcome batch (new_sql_coalescer fmt (some schema) ctx (SchemaInterface.sql schema) batch)

-- deduplicateSQLRowsWithStats, under the background context
unfoldable pub deduplicate_sql_rows : Formatter → SqlSchema → Batch → Batch × SqlDedupStats
unfolding deduplicate_sql_rows_ctx
deduplicate_sql_rows fmt schema batch =
    let r = deduplicate_sql_rows_ctx fmt background schema batch in (r.0, r.1)

unfoldable pub row_args : List String → Record → List Value
unfolding value_at
row_args [] row = []
row_args (col ∷ cols) row = value_at row col ∷ row_args cols row

-- The loop over the rows, which asks the context before each.
unfoldable pub all_args : Context → List String → Batch → Result (List Value)
unfolding row_args
all_args ctx cols [] = ok []
all_args ctx cols (row ∷ rows) = elim (ctx 0) [
  | some e ↦ err (Error.context e)
  | none ↦ all_args (later 1 ctx) cols rows >>= λ rest. ok (row_args cols row ++ rest)
]

unfoldable pub prepare_outcome :
    Context → List String → Batch × SqlDedupStats × Option Error → Result (Batch × List Value)
unfolding all_args
prepare_outcome ctx cols (rows, stats, some e) = err e
prepare_outcome ctx cols (rows, stats, none) = all_args ctx cols rows >>= λ args. ok (rows, args)

-- The deduplication asks the context at most once for each row.
unfoldable pub prepare_sql_rows_and_args :
    Formatter → Context → SqlSchema → Batch → Result (Batch × List Value)
unfolding deduplicate_sql_rows_ctx prepare_outcome
prepare_sql_rows_and_args fmt ctx schema batch =
    prepare_outcome (later (length batch) ctx) schema.columns
      (deduplicate_sql_rows_ctx fmt ctx schema batch)
