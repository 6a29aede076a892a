-- ===== src/Prometheus.antt =====
-- examples/metrics/prometheus: the metrics with their labels, and the reporter that writes them. The
-- client library of Prometheus keeps the values; here a call of it is a value.
pub mod Calls
pub mod Reporter
pub mod Aligned
pub mod Labels
pub mod Included
use batchflow.Prelude.{
  ℕ, String, ◌^^◌, Bool, true, false, ◌||◌, List, [], ◌∷◌, ◌++◌, contains, if◌then◌else◌,
}
use batchflow.Prelude.Int.{ℤ}

-- Options, without names, constant labels and buckets.
pub record Options : Type 0 where
  pub include_instance_id : Bool
  pub include_table : Bool
  pub enable_pipeline_metrics : Bool

-- The vectors of Metrics.
pub data Metric : Type 0 where
  total_errors submit_rejected_total sql_errors_total operation_errors : Metric
  enqueue_latency assemble_duration execute_duration batch_size : Metric
  sql_generated_rows sql_generated_args operation_items operation_args : Metric
  pipeline_flush_size schema_groups_per_flush : Metric
  executor_concurrency queue_length inflight_batches : Metric
  sql_deduplicated_rows : Metric
  pipeline_dequeue_latency pipeline_process_duration pipeline_dropped_total : Metric

-- A list of names of NewMetrics, with "instance_id" in the second place if that is included.
unfoldable pub with_instance_id : Bool → List String → List String
with_instance_id true names = "database" ∷ "instance_id" ∷ names
with_instance_id false names = "database" ∷ names

-- append(labels, "table")
unfoldable pub with_table : Bool → List String → List String
with_table true names = names ++ "table" ∷ []
with_table false names = names

-- The names of the labels that NewMetrics gives to each vector.
unfoldable pub label_names : Bool → Bool → Metric → List String
unfolding with_instance_id with_table
label_names id table Metric.total_errors = with_instance_id id ("error_type" ∷ [])
label_names id table Metric.submit_rejected_total = with_instance_id id ("reason" ∷ [])
label_names id table Metric.sql_errors_total =
    with_table table (with_instance_id id ("stage" ∷ "reason" ∷ []))
label_names id table Metric.operation_errors =
    with_table table (with_instance_id id ("backend" ∷ "stage" ∷ "reason" ∷ []))
label_names id table Metric.execute_duration = with_table table (with_instance_id id [])
label_names id table Metric.sql_generated_rows =
    with_table table (with_instance_id id ("kind" ∷ []))
label_names id table Metric.sql_generated_args = with_table table (with_instance_id id [])
label_names id table Metric.operation_items =
    with_table table (with_instance_id id ("backend" ∷ "operation" ∷ "kind" ∷ []))
label_names id table Metric.operation_args =
    with_table table (with_instance_id id ("backend" ∷ "operation" ∷ []))
label_names id table Metric.sql_deduplicated_rows =
    with_table table (with_instance_id id ("strategy" ∷ "kind" ∷ []))
label_names id table Metric.pipeline_process_duration = with_instance_id id ("status" ∷ [])
label_names id table Metric.pipeline_dropped_total = with_instance_id id ("reason" ∷ [])
label_names id table Metric.enqueue_latency = with_instance_id id []
label_names id table Metric.assemble_duration = with_instance_id id []
label_names id table Metric.batch_size = with_instance_id id []
label_names id table Metric.pipeline_flush_size = with_instance_id id []
label_names id table Metric.schema_groups_per_flush = with_instance_id id []
label_names id table Metric.executor_concurrency = with_instance_id id []
label_names id table Metric.queue_length = with_instance_id id []
label_names id table Metric.inflight_batches = with_instance_id id []
label_names id table Metric.pipeline_dequeue_latency = with_instance_id id []

-- Metrics: `describe` is the text that the client library prints for the description of a vector.
pub record Metrics : Type 0 where
  pub options : Options
  pub open options use *
  pub describe : Metric → String

-- hasLabel
unfoldable pub has_label : Metrics → Metric → String → Bool
unfolding contains
has_label m metric name =
    contains (m.describe metric) ("\"" ^^ (name ^^ "\""))
    || contains (m.describe metric) (name ^^ ":")

-- What is done to the element of a vector; seconds are given in nanoseconds.
pub data Change : Type 0 where
  inc dec : Change
  add set observe : ℤ → Change
  observe_seconds : ℕ → Change

-- WithLabelValues(labels...), and the call on what it returns.
pub record Write : Type 0 where
  pub metric : Metric
  pub labels : List String
  pub change : Change

-- The vectors that NewMetrics registers.
unfoldable pub registered : Options → List Metric
registered o =
    let core =
      Metric.total_errors ∷ Metric.submit_rejected_total ∷ Metric.sql_errors_total
      ∷ Metric.operation_errors ∷ Metric.enqueue_latency ∷ Metric.assemble_duration
      ∷ Metric.execute_duration ∷ Metric.batch_size ∷ Metric.sql_generated_rows
      ∷ Metric.sql_generated_args ∷ Metric.operation_items ∷ Metric.operation_args
      ∷ Metric.sql_deduplicated_rows ∷ Metric.pipeline_flush_size ∷ Metric.schema_groups_per_flush
      ∷ Metric.executor_concurrency ∷ Metric.queue_length ∷ Metric.inflight_batches ∷ [] in
    if o.enable_pipeline_metrics
    then core
      ++ Metric.pipeline_dequeue_latency ∷ Metric.pipeline_process_duration
        ∷ Metric.pipeline_dropped_total ∷ []
    else core
