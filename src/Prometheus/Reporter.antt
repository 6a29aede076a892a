-- ===== src/Prometheus/Reporter.antt =====
-- The methods of Metrics and Reporter in examples/metrics/prometheus, and the labels that they write.
use batchflow.Prelude.{ℕ, String, List, [], ◌∷◌, ◌++◌, none, some, if◌then◌else◌}
use batchflow.Prelude.Int.{ℤ, pos}
use batchflow.Observability.{OperationPreview}
use batchflow.Prometheus.Calls.{
  Call, Reporter, label_or_unknown, conflict_strategy_label, id_labels, table_labels,
  execute_labels, if_positive,
}
use batchflow.Prometheus.{Metric, Metrics, Change, Write, has_label}

module _ (m : Metrics) (database instance_id : String) where
  -- A write to a vector whose description is asked for its labels.
  unfoldable pub asked : Metric → List String → Change → Write
  unfolding has_label id_labels
  asked metric rest change = record {
    metric = metric;
    labels = id_labels (has_label m metric "instance_id") database instance_id rest;
    change = change;
  }

  -- A write to a vector by the flags of Metrics.
  unfoldable pub flagged : Metric → String → List String → Change → Write
  unfolding table_labels
  flagged metric table rest change = record {
    metric = metric;
    labels = table_labels m.include_instance_id m.include_table database instance_id table rest;
    change = change;
  }

  -- incSQLError
  unfoldable pub inc_sql_error_write : String → String → String → Write
  unfolding has_label table_labels
  inc_sql_error_write table stage reason = record {
    metric = Metric.sql_errors_total;
    labels =
        table_labels (has_label m Metric.sql_errors_total "instance_id")
          (has_label m Metric.sql_errors_total "table") database instance_id table
          (stage ∷ reason ∷ []);
    change = Change.inc;
  }

  -- observeExecute
  unfoldable pub observe_execute : String → ℕ → String → Write
  unfolding has_label execute_labels
  observe_execute table d status = record {
    metric = Metric.execute_duration;
    labels =
        execute_labels (has_label m Metric.execute_duration "instance_id")
          (has_label m Metric.execute_duration "table")
          (has_label m Metric.execute_duration "status") database instance_id table status;
    change = Change.observe_seconds d;
  }

  -- incError, incOperationError, incSubmitRejected
  abbrev pub inc_error_write : String → Write
  inc_error_write reason = asked Metric.total_errors (reason ∷ []) Change.inc

  abbrev pub inc_operation_error_write : String → String → String → String → Write
  inc_operation_error_write table backend stage reason =
      flagged Metric.operation_errors table (backend ∷ stage ∷ reason ∷ []) Change.inc

  abbrev pub inc_submit_rejected_write : String → Write
  inc_submit_rejected_write reason = asked Metric.submit_rejected_total (reason ∷ []) Change.inc

  -- observeSQLGenerated
  abbrev pub observe_sql_generated_writes : String → ℕ → ℕ → ℕ → List Write
  observe_sql_generated_writes table input output args =
      flagged Metric.sql_generated_rows table ("input" ∷ []) (Change.observe (pos input))
      ∷ flagged Metric.sql_generated_rows table ("output" ∷ []) (Change.observe (pos output))
      ∷ flagged Metric.sql_generated_args table [] (Change.observe (pos args))
      ∷ []

  -- observeOperationGenerated
  abbrev pub observe_operation_generated_writes : OperationPreview → List Write
  observe_operation_generated_writes p =
      let backend = label_or_unknown p.backend in
      let operation = label_or_unknown p.operation in
      flagged Metric.operation_items p.schema (backend ∷ operation ∷ "input" ∷ [])
        (Change.observe (pos p.input_items))
      ∷ flagged Metric.operation_items p.schema (backend ∷ operation ∷ "output" ∷ [])
          (Change.observe (pos p.output_items))
      ∷ flagged Metric.operation_args p.schema (backend ∷ operation ∷ [])
          (Change.observe (pos p.arg_count))
      ∷ []

  -- observeSQLDeduplicated
  abbrev pub observe_sql_deduplicated_writes : String → String → ℤ → ℤ → List Write
  observe_sql_deduplicated_writes table strategy deduplicated merged =
      if_positive deduplicated (
        flagged Metric.sql_deduplicated_rows table (strategy ∷ "deduplicated" ∷ [])
          (Change.add deduplicated)
        ∷ [])
      ++ if_positive merged (
          flagged Metric.sql_deduplicated_rows table (strategy ∷ "merged" ∷ []) (Change.add merged)
          ∷ [])

  -- observeEnqueue, observeAssemble, observePipelineFlushSize, observeSchemaGroups
  abbrev pub observe_enqueue_write : ℕ → Write
  observe_enqueue_write d = asked Metric.enqueue_latency [] (Change.observe_seconds d)

  abbrev pub observe_assemble_write : ℕ → Write
  observe_assemble_write d = asked Metric.assemble_duration [] (Change.observe_seconds d)

  abbrev pub observe_flush_size_write : ℕ → Write
  observe_flush_size_write n = asked Metric.pipeline_flush_size [] (Change.observe (pos n))

  abbrev pub observe_schema_groups_write : ℕ → Write
  observe_schema_groups_write n = asked Metric.schema_groups_per_flush [] (Change.observe (pos n))

  -- setConcurrency, setQueueLen, incInflight, decInflight
  abbrev pub set_concurrency_write : ℕ → Write
  set_concurrency_write n = asked Metric.executor_concurrency [] (Change.set (pos n))

  abbrev pub set_queue_length_write : ℕ → Write
  set_queue_length_write n = asked Metric.queue_length [] (Change.set (pos n))

  abbrev pub inc_inflight_write : Write
  inc_inflight_write = asked Metric.inflight_batches [] Change.inc

  abbrev pub dec_inflight_write : Write
  dec_inflight_write = asked Metric.inflight_batches [] Change.dec

  -- The metrics that NewMetrics makes only if they are enabled.
  abbrev pub if_pipeline : List Write → List Write
  if_pipeline writes = if m.enable_pipeline_metrics then writes else []

  -- ObserveDequeueLatency, ObserveProcessDuration and IncDropped of Reporter
  abbrev pub observe_dequeue_writes : ℕ → List Write
  observe_dequeue_writes d =
      if_pipeline (asked Metric.pipeline_dequeue_latency [] (Change.observe_seconds d) ∷ [])

  abbrev pub observe_process_writes : ℕ → String → List Write
  observe_process_writes d status =
      if_pipeline
        (asked Metric.pipeline_process_duration (status ∷ []) (Change.observe_seconds d) ∷ [])

  abbrev pub inc_dropped_writes : String → List Write
  inc_dropped_writes reason =
      if_pipeline (asked Metric.pipeline_dropped_total (reason ∷ []) Change.inc ∷ [])

  -- What a method of a Reporter writes if its metrics are there.
  unfoldable pub writes_of : Call → List Write
  unfolding asked flagged inc_sql_error_write observe_execute label_or_unknown
      conflict_strategy_label
  writes_of (Call.observe_enqueue_latency d) = observe_enqueue_write d ∷ []
  writes_of (Call.observe_batch_assemble d) = observe_assemble_write d ∷ []
  writes_of (Call.observe_execute_duration table n d status) = observe_execute table d status ∷ []
  writes_of (Call.observe_batch_size n) = asked Metric.batch_size [] (Change.observe (pos n)) ∷ []
  writes_of (Call.inc_error table reason) = inc_error_write reason ∷ []
  writes_of (Call.observe_sql_generated table input output args) =
      observe_sql_generated_writes table input output args
  writes_of (Call.observe_sql_deduplicated table strategy deduplicated merged) =
      observe_sql_deduplicated_writes table (conflict_strategy_label strategy) deduplicated merged
  writes_of (Call.inc_sql_error table stage reason) = inc_sql_error_write table stage reason ∷ []
  writes_of (Call.observe_operation_generated p) = observe_operation_generated_writes p
  writes_of (Call.inc_operation_error schema backend stage reason) =
      inc_operation_error_write schema backend stage reason ∷ []
  writes_of (Call.set_concurrency n) = set_concurrency_write n ∷ []
  writes_of (Call.set_queue_length n) = set_queue_length_write n ∷ []
  writes_of Call.inc_inflight = inc_inflight_write ∷ []
  writes_of Call.dec_inflight = dec_inflight_write ∷ []
  writes_of (Call.observe_dequeue_latency d) = observe_dequeue_writes d
  writes_of (Call.observe_process_duration d status) = observe_process_writes d status
  writes_of (Call.inc_dropped reason) = inc_dropped_writes reason
  writes_of (Call.inc_submit_rejected reason) = inc_submit_rejected_write reason ∷ []
  writes_of (Call.observe_pipeline_flush_size n) = observe_flush_size_write n ∷ []
  writes_of (Call.observe_schema_groups_per_flush n) = observe_schema_groups_write n ∷ []

-- The methods of Reporter, each of which does nothing without metrics.
unfoldable pub report_call : Reporter → Call → List Write
unfolding writes_of
report_call r call = elim r.m [ none ↦ [] | some m ↦ writes_of m r.database r.instance_id call ]
