-- ===== src/SqlObservability/RoundTrip.antt =====
-- What sqlPreviewFromOperation of executor.go recovers of a preview of sql_observability.go.
use batchflow.Prelude.{String, ◌≡◌, refl, some, lookup}
use batchflow.Prelude.Int.{pos}
use batchflow.Model.{Value, value_at}
use batchflow.Schema.{ConflictStrategy}
use batchflow.Observability.{Library}
use batchflow.Executor.Reports.{sql_preview_from_operation, conflict_strategy_from_name}
use batchflow.SqlObservability.{SqlPreview, operation_preview, conflict_strategy_name}

abbrev pub IsNamed : ConflictStrategy → Type 0
IsNamed (ConflictStrategy.other n) = ⊥
IsNamed _ = Unit

conflict_strategy_from_name-conflict_strategy_name :
    (s : ConflictStrategy) → IsNamed s → conflict_strategy_from_name (conflict_strategy_name s) ≡ s
unfolding conflict_strategy_from_name conflict_strategy_name
conflict_strategy_from_name-conflict_strategy_name ConflictStrategy.ignore h = refl
conflict_strategy_from_name-conflict_strategy_name ConflictStrategy.replace h = refl
conflict_strategy_from_name-conflict_strategy_name ConflictStrategy.update h = refl
conflict_strategy_from_name-conflict_strategy_name (ConflictStrategy.other n) h = absurd h

-- For one of the three named strategies, and a "%v" that prints a string as it is,
-- sqlPreviewFromOperation gets back from OperationPreview the table, the counts of rows and
-- arguments, the strategy and the fingerprint of the preview.
pub sql_preview_from_operation-operation_preview :
    (lib : Library) (p : SqlPreview)
    → IsNamed p.conflict_strategy
    → ((s : String) → lib.sprint (Value.string s) ≡ s)
    → sql_preview_from_operation lib (operation_preview p)
      ≡ some (record {
        table = p.table;
        args_count = p.args_count;
        conflict_strategy = p.conflict_strategy;
        input_rows = p.dedup_stats.input_rows;
        output_rows = p.dedup_stats.output_rows;
        deduplicated_rows = pos p.dedup_stats.deduplicated_rows;
        merged_rows = pos p.dedup_stats.merged_rows;
        fingerprint = p.fingerprint;
      })
unfolding sql_preview_from_operation operation_preview lookup value_at
sql_preview_from_operation-operation_preview lib p named prints =
    rw
      (
        prints (conflict_strategy_name p.conflict_strategy),
        conflict_strategy_from_name-conflict_strategy_name p.conflict_strategy named,
      )
      refl
