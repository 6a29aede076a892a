-- ===== src/SqlObservability.antt =====
-- sql_observability.go: the dry run of a statement, and its summary for any back end.
pub mod RoundTrip
use batchflow.Prelude.{
  ℕ, String, ◌≡◌, refl, Bool, true, false, List, [], ◌∷◌, Option, none, some, Map, length, lookup,
}
use batchflow.Prelude.Int.{pos}
use batchflow.Model.{Value, Batch, value_at}
use batchflow.Schema.{SqlSchema, SqlOperationConfig, ConflictStrategy, with_defaults}
use batchflow.Context.{Context}
use batchflow.Errors.{Error, SqlInfo, Result, ok, err}
use batchflow.Coalescer.{Formatter}
use batchflow.Driver.{SqlDedupStats, deduplicate_sql_rows, sql_conflict_columns, sql_update_columns}
use batchflow.Driver.Placeholders.{Cache}
use batchflow.Driver.Statements.{Statement, SqlDriver}
use batchflow.Observability.{
  Library, OperationPreview, fingerprint_text, backend_sql, operation_insert, operation_upsert,
  stage_validate, stage_generate,
}

pub record SqlPreview : Type 0 where
  pub table : String
  pub sql : String
  pub args : List Value
  pub args_count : ℕ
  pub columns : List String
  pub conflict_strategy : ConflictStrategy
  pub conflict_columns : List String
  pub update_columns : List String
  pub dedup_stats : SqlDedupStats
  pub fingerprint : String

-- SQLPreview{}
abbrev pub empty_preview : SqlPreview
empty_preview = record {
  table = "";
  sql = "";
  args = [];
  args_count = 0;
  columns = [];
  conflict_strategy = ConflictStrategy.ignore;
  conflict_columns = [];
  update_columns = [];
  dedup_stats = record { input_rows = 0; output_rows = 0; deduplicated_rows = 0; merged_rows = 0 };
  fingerprint = "";
}

-- The SQLError of the two checks at the start of GenerateSQLPreview.
abbrev pub invalid : ℕ → String → Error
invalid size cause =
    Error.sql
      (record {
        stage = stage_validate;
        table = "";
        batch_size = size;
        conflict_strategy = ConflictStrategy.ignore;
        conflict_columns = [];
        update_columns = [];
        sql_fingerprint = "";
        args_count = 0;
      })
      (Error.text cause)

abbrev pub update_columns_for : SqlSchema → ConflictStrategy → List String
update_columns_for schema ConflictStrategy.ignore = []
update_columns_for schema ConflictStrategy.replace = sql_update_columns schema true
update_columns_for schema ConflictStrategy.update = sql_update_columns schema false
update_columns_for schema (ConflictStrategy.other n) = []

-- sqlUpdateColumnsForPreview
unfoldable pub sql_update_columns_for_preview : SqlSchema → List String
unfolding with_defaults
sql_update_columns_for_preview schema =
    update_columns_for schema (with_defaults schema.operation_config).conflict_strategy

unfoldable pub analyze_sql_dedup : Formatter → SqlSchema → Batch → SqlDedupStats
unfolding deduplicate_sql_rows
analyze_sql_dedup fmt schema batch = (deduplicate_sql_rows fmt schema batch).1

-- The preview of what a driver has returned: on an error the text and the arguments are empty.
unfoldable pub preview_of : Library → Formatter → SqlSchema → Batch → Statement → SqlPreview
unfolding analyze_sql_dedup sql_update_columns_for_preview sql_conflict_columns with_defaults
    fingerprint_text
preview_of lib fmt schema batch st = record {
  table = schema.name;
  sql = st.sql;
  args = st.args;
  args_count = length st.args;
  columns = schema.columns;
  conflict_strategy = (with_defaults schema.operation_config).conflict_strategy;
  conflict_columns = sql_conflict_columns schema;
  update_columns = sql_update_columns_for_preview schema;
  dedup_stats = analyze_sql_dedup fmt schema batch;
  fingerprint = fingerprint_text lib st.sql;
}

-- The end of GenerateSQLPreview.
unfoldable pub preview_outcome :
    Library → Formatter → SqlSchema → Batch → Result Statement → SqlPreview × Option Error
unfolding preview_of
preview_outcome lib fmt schema batch (ok st) = (preview_of lib fmt schema batch st, none)
preview_outcome lib fmt schema batch (err e) =
    let p = preview_of lib fmt schema batch (record { sql = ""; args = [] }) in
    (
      p,
      some (
          Error.sql
            (record {
              stage = stage_generate;
              table = schema.name;
              batch_size = length batch;
              conflict_strategy = p.conflict_strategy;
              conflict_columns = p.conflict_columns;
              update_columns = p.update_columns;
              sql_fingerprint = p.fingerprint;
              args_count = p.args_count;
            })
            e),
    )

-- GenerateSQLPreview, with the cache of the driver; the driver and the schema may be nil.
unfoldable pub generate_sql_preview :
    Library
    → Formatter
    → Context
    → Option SqlDriver
    → Option SqlSchema
    → Batch
    → Cache
    → (SqlPreview × Option Error) × Cache
unfolding preview_outcome
generate_sql_preview lib fmt ctx none schema batch cache =
    ((empty_preview, some (invalid (length batch) "nil SQL driver")), cache)
generate_sql_preview lib fmt ctx (some driver) none batch cache =
    ((empty_preview, some (invalid (length batch) "nil SQL schema")), cache)
generate_sql_preview lib fmt ctx (some driver) (some schema) batch cache =
    let (r, cache') = driver ctx schema batch cache in
    (preview_outcome lib fmt schema batch r, cache')

unfoldable pub conflict_strategy_name : ConflictStrategy → String
conflict_strategy_name ConflictStrategy.ignore = "ignore"
conflict_strategy_name ConflictStrategy.replace = "replace"
conflict_strategy_name ConflictStrategy.update = "update"
conflict_strategy_name (ConflictStrategy.other n) = "unknown"

abbrev operation_of : ConflictStrategy → String
operation_of (ConflictStrategy.other n) = operation_insert
operation_of _ = operation_upsert

-- SQLPreview.OperationPreview
unfoldable pub operation_preview : SqlPreview → OperationPreview
unfolding conflict_strategy_name
operation_preview p = record {
  backend = backend_sql;
  operation = operation_of p.conflict_strategy;
  schema = p.table;
  input_items = p.dedup_stats.input_rows;
  output_items = p.dedup_stats.output_rows;
  arg_count = p.args_count;
  fingerprint = p.fingerprint;
  attributes =
      ("conflict_strategy", Value.string (conflict_strategy_name p.conflict_strategy))
      ∷ ("conflict_columns_count", Value.int (pos (length p.conflict_columns)))
      ∷ ("update_columns_count", Value.int (pos (length p.update_columns)))
      ∷ ("deduplicated_rows", Value.int (pos p.dedup_stats.deduplicated_rows))
      ∷ ("merged_rows", Value.int (pos p.dedup_stats.merged_rows))
      ∷ ("deduplicate_output_rows", Value.int (pos p.dedup_stats.output_rows))
      ∷ [];
}
