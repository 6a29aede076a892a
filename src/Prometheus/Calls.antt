-- ===== src/Prometheus/Calls.antt =====
-- The calls of the reporter of examples/metrics/prometheus, and how it puts lists of labels together.
use batchflow.Prelude.{
  ℕ, zero, suc, String, ◌=~◌, Bool, true, false, List, [], ◌∷◌, ◌++◌, Option, if◌then◌else◌,
}
use batchflow.Prelude.Int.{ℤ, pos, negsuc}
use batchflow.Schema.{ConflictStrategy}
use batchflow.Observability.{OperationPreview}
use batchflow.Prometheus.{Metrics, Write}

-- A call of a method of Reporter.
pub data Call : Type 0 where
  observe_enqueue_latency observe_batch_assemble : ℕ → Call
  observe_execute_duration : String → ℕ → ℕ → String → Call
  observe_batch_size : ℕ → Call
  inc_error : String → String → Call
  observe_sql_generated : String → ℕ → ℕ → ℕ → Call
  observe_sql_deduplicated : String → ConflictStrategy → ℤ → ℤ → Call
  inc_sql_error : String → String → String → Call
  observe_operation_generated : OperationPreview → Call
  inc_operation_error : String → String → String → String → Call
  set_concurrency set_queue_length : ℕ → Call
  inc_inflight dec_inflight : Call
  observe_dequeue_latency : ℕ → Call
  observe_process_duration : ℕ → String → Call
  inc_dropped inc_submit_rejected : String → Call
  observe_pipeline_flush_size observe_schema_groups_per_flush : ℕ → Call

pub record Reporter : Type 0 where
  pub m : Option Metrics
  pub database : String
  pub instance_id : String

unfoldable pub label_or_unknown : String → String
label_or_unknown value = if value =~ "" then "unknown" else value

unfoldable pub conflict_strategy_label : ConflictStrategy → String
conflict_strategy_label ConflictStrategy.ignore = "ignore"
conflict_strategy_label ConflictStrategy.replace = "replace"
conflict_strategy_label ConflictStrategy.update = "update"
conflict_strategy_label (ConflictStrategy.other n) = "unknown"

-- if hasInstanceID { labels = {database, instanceID, ...} } else { labels = {database, ...} }
unfoldable pub id_labels : Bool → String → String → List String → List String
id_labels true database instance_id rest = database ∷ instance_id ∷ rest
id_labels false database instance_id rest = database ∷ rest

-- The switches over includeInstanceID and includeTable.
unfoldable pub table_labels : Bool → Bool → String → String → String → List String → List String
table_labels true true database instance_id table rest =
    database ∷ instance_id ∷ (rest ++ table ∷ [])
table_labels true false database instance_id table rest = database ∷ instance_id ∷ rest
table_labels false true database instance_id table rest = database ∷ (rest ++ table ∷ [])
table_labels false false database instance_id table rest = database ∷ rest

-- The switch of observeExecute.
unfoldable pub execute_labels : Bool → Bool → Bool → String → String → String → String → List String
execute_labels true true true database instance_id table status =
    database ∷ instance_id ∷ table ∷ status ∷ []
execute_labels true false true database instance_id table status =
    database ∷ instance_id ∷ status ∷ []
execute_labels true true false database instance_id table status =
    database ∷ instance_id ∷ table ∷ []
execute_labels false true true database instance_id table status = database ∷ table ∷ status ∷ []
execute_labels true false false database instance_id table status = database ∷ instance_id ∷ []
execute_labels false true false database instance_id table status = database ∷ table ∷ []
execute_labels false false true database instance_id table status = database ∷ status ∷ []
execute_labels false false false database instance_id table status = database ∷ []

-- if rows > 0 { ... }
abbrev pub if_positive : ℤ → List Write → List Write
if_positive (pos (suc n)) writes = writes
if_positive (pos zero) writes = []
if_positive (negsuc n) writes = []
