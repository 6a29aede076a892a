-- ===== src/Executor/Mock.antt =====
-- MockExecutor of executor.go, which records batches in memory. Its mutexes make each of its three
-- critical sections one step; here a call runs alone.
use batchflow.Prelude.{
  ℕ, ◌+◌, ◌=~◌, ◌≡◌, refl, String, List, [], ◌∷◌, ◌++◌, Option, none, some, Map, lookup, put,
  lookup-put, length, arith, if◌then◌else◌, eq_iff,
}
use batchflow.Model.{Batch}
use batchflow.Schema.{SchemaInterface, SqlSchema}
use batchflow.Context.{Context}
use batchflow.Errors.{Error, Result, ok, err}
use batchflow.Driver.Placeholders.{Cache}
use batchflow.Driver.Statements.{Statement, SqlDriver}

-- mockStats
pub record MockStats : Type 0 where
  pub batches : ℕ
  pub rows : ℕ
  pub args : ℕ

-- The driver's cache stands beside it.
pub record MockExecutor : Type 0 where
  pub executed_batches : List Batch
  pub driver : SqlDriver
  pub stats : Map MockStats
  pub cache : Cache

-- NewMockExecutorWithDriver; NewMockExecutor takes the default driver too.
unfoldable pub new_mock_executor_with_driver : SqlDriver → Option SqlDriver → MockExecutor
new_mock_executor_with_driver default_driver driver = record {
  executed_batches = [];
  driver = elim driver [ none ↦ default_driver | some d ↦ d ];
  stats = [];
  cache = [];
}

unfoldable pub new_mock_executor : SqlDriver → MockExecutor
new_mock_executor default_driver = record {
  executed_batches = [];
  driver = default_driver;
  stats = [];
  cache = [];
}

abbrev pub no_stats : MockStats
no_stats = record { batches = 0; rows = 0; args = 0 }

abbrev pub stats_or_none : Option MockStats → MockStats
stats_or_none none = no_stats
stats_or_none (some s) = s

abbrev pub table_key : String → String
table_key table = if table =~ "" then "_unknown_" else table

abbrev count_batch : ℕ → ℕ → MockStats → MockStats
count_batch rows args s = record {
  batches = s.batches + 1;
  rows = s.rows + rows;
  args = s.args + args;
}

-- addStats
unfoldable pub add_stats : String → ℕ → ℕ → Map MockStats → Map MockStats
unfolding lookup put
add_stats table rows args stats =
    put (table_key table) (count_batch rows args (stats_or_none (lookup (table_key table) stats)))
      stats

-- SnapshotResults
unfoldable pub snapshot_results : Map MockStats → Map (Map ℕ)
snapshot_results [] = []
snapshot_results ((table, s) ∷ stats) =
    (table, ("batches", s.batches) ∷ ("rows", s.rows) ∷ ("args", s.args) ∷ [])
    ∷ snapshot_results stats

-- SnapshotExecutedBatches: a copy
abbrev pub snapshot_executed_batches : MockExecutor → List Batch
snapshot_executed_batches m = m.executed_batches

-- The end of ExecuteBatch, on the result of the driver.
unfoldable pub record_result :
    SqlSchema → Batch → MockExecutor → Result Statement → Option Error × MockExecutor
unfolding add_stats
record_result schema batch m (err e) = (some e, m)
record_result schema batch m (ok st) =
    (none, record m { stats = add_stats schema.name (length batch) (length st.args) m.stats })

-- ExecuteBatch of a SQL schema, once the batch is recorded
unfoldable pub execute_sql :
    Context → SqlSchema → Batch → MockExecutor → Option Error × MockExecutor
unfolding record_result
execute_sql ctx schema batch m =
    let (result, cache) = m.driver ctx schema batch m.cache in
    record_result schema batch
      (record m { executed_batches = m.executed_batches ++ batch ∷ []; cache = cache }) result

-- ExecuteBatch
unfoldable pub mock_execute_batch :
    Context → SchemaInterface → Batch → MockExecutor → Option Error × MockExecutor
unfolding execute_sql
mock_execute_batch ctx (SchemaInterface.sql s) batch m = execute_sql ctx s batch m
mock_execute_batch ctx (SchemaInterface.plain s) batch m =
    (some (Error.text "schema is not a SQLSchema"), m)
mock_execute_batch ctx (SchemaInterface.custom s) batch m =
    (some (Error.text "schema is not a SQLSchema"), m)

lookup-add_stats :
    (table other : String) (rows args : ℕ) (stats : Map MockStats)
    → stats_or_none (lookup other (add_stats table rows args stats)) ≡ (
        if table_key table =~ other
        then count_batch rows args (stats_or_none (lookup other stats))
        else stats_or_none (lookup other stats))
unfolding add_stats
lookup-add_stats table other rows args stats = ground (
  arith,
  lookup-put (table_key table) other
      (count_batch rows args (stats_or_none (lookup (table_key table) stats))) stats,
  eq_iff (table_key table) other,
)

-- What a call adds to the numbers of a table, from what the driver has returned.
abbrev pub counted : SqlSchema → Batch → Result Statement → String → MockStats → MockStats
counted schema batch (err e) table s = s
counted schema batch (ok st) table s =
    if table_key schema.name =~ table then count_batch (length batch) (length st.args) s else s

record_result-counted :
    (schema : SqlSchema) (batch : Batch) (m : MockExecutor) (result : Result Statement)
    (table : String)
    → ((record_result schema batch m result).1.executed_batches ≡ m.executed_batches)
      × (stats_or_none (lookup table (record_result schema batch m result).1.stats)
          ≡ counted schema batch result table (stats_or_none (lookup table m.stats)))
unfolding record_result
record_result-counted schema batch m (err e) table = (refl, refl)
record_result-counted schema batch m (ok st) table =
    (refl, lookup-add_stats schema.name table (length batch) (length st.args) m.stats)

-- A call of the mock's ExecuteBatch with a SQL schema records the batch last, whatever the driver
-- returns; it counts one batch, its rows and the statement's arguments for the schema's table, or for
-- `_unknown_` if the name is empty, exactly if the driver returns a statement, and it changes the
-- numbers of no other table.
pub mock_execute_batch-counted :
    (ctx : Context) (schema : SqlSchema) (batch : Batch) (m : MockExecutor) (table : String)
    → ((mock_execute_batch ctx (SchemaInterface.sql schema) batch m).1.executed_batches
        ≡ m.executed_batches ++ batch ∷ [])
      × (stats_or_none
            (lookup table (mock_execute_batch ctx (SchemaInterface.sql schema) batch m).1.stats)
          ≡ counted schema batch
              (m.driver ctx schema batch m.cache).0
              table
              (stats_or_none (lookup table m.stats)))
unfolding mock_execute_batch execute_sql
mock_execute_batch-counted ctx schema batch m table =
    record_result-counted schema batch _ (m.driver ctx schema batch m.cache).0 table
