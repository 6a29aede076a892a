-- ===== src/Prometheus/Labels.antt =====
-- The writes of the reporter of examples/metrics/prometheus, when hasLabel answers as the options are.
use batchflow.Prelude.{
  zero, suc, String, refl, Bool, true, false, List, [], ◌∷◌, ◌++◌, All, if◌then◌else◌,
}
use batchflow.Prelude.Int.{ℤ, pos, negsuc}
use batchflow.Prometheus.{Metric, Metrics, Change, Write, label_names}
use batchflow.Prometheus.Calls.{Call, if_positive}
use batchflow.Prometheus.Reporter.{writes_of}
use batchflow.Prometheus.Aligned.{
  IsAligned, IsTruthful, field_of, value_of, asked-IsAligned, flagged-IsAligned, execute-IsAligned,
  sql_error-IsAligned,
}

module _ (m : Metrics) (t : IsTruthful m) (database instance_id : String) where
  abbrev Fits : Call → List Write → Type 0
  Fits call writes = All (IsAligned m database instance_id call) writes

  All-append :
      (call : Call) (xs ys : List Write) → Fits call xs → Fits call ys → Fits call (xs ++ ys)
  All-append call [] ys p q = q
  All-append call (x ∷ xs) ys (one, p) q = (one, All-append call xs ys p q)

  All-if_positive :
      (call : Call) (n : ℤ) (writes : List Write)
      → Fits call writes
      → Fits call (if_positive n writes)
  All-if_positive call (pos (suc n)) writes p = p
  All-if_positive call (pos zero) writes p = tt
  All-if_positive call (negsuc n) writes p = tt

  All-if :
      (call : Call) (b : Bool) (writes : List Write)
      → Fits call writes
      → Fits call (if b then writes else [])
  All-if call true writes p = p
  All-if call false writes p = tt

  -- Every write for a call fits.
  pub writes_of-IsAligned : (call : Call) → Fits call (writes_of m database instance_id call)
  unfolding writes_of label_names value_of field_of
  writes_of-IsAligned (Call.observe_enqueue_latency d) = (
    asked-IsAligned m t database instance_id (Call.observe_enqueue_latency d) ""
        Metric.enqueue_latency ([]) (Change.observe_seconds d) refl,
    tt,
  )
  writes_of-IsAligned (Call.observe_batch_assemble d) = (
    asked-IsAligned m t database instance_id (Call.observe_batch_assemble d) ""
        Metric.assemble_duration ([]) (Change.observe_seconds d) refl,
    tt,
  )
  writes_of-IsAligned (Call.observe_batch_size n) = (
    asked-IsAligned m t database instance_id (Call.observe_batch_size n) "" Metric.batch_size ([])
        (Change.observe (pos n)) refl,
    tt,
  )
  writes_of-IsAligned (Call.set_concurrency n) = (
    asked-IsAligned m t database instance_id (Call.set_concurrency n) "" Metric.executor_concurrency
        ([]) (Change.set (pos n)) refl,
    tt,
  )
  writes_of-IsAligned (Call.set_queue_length n) = (
    asked-IsAligned m t database instance_id (Call.set_queue_length n) "" Metric.queue_length ([])
        (Change.set (pos n)) refl,
    tt,
  )
  writes_of-IsAligned (Call.inc_inflight) = (
    asked-IsAligned m t database instance_id (Call.inc_inflight) "" Metric.inflight_batches ([])
        (Change.inc) refl,
    tt,
  )
  writes_of-IsAligned (Call.dec_inflight) = (
    asked-IsAligned m t database instance_id (Call.dec_inflight) "" Metric.inflight_batches ([])
        (Change.dec) refl,
    tt,
  )
  writes_of-IsAligned (Call.observe_pipeline_flush_size n) = (
    asked-IsAligned m t database instance_id (Call.observe_pipeline_flush_size n) ""
        Metric.pipeline_flush_size ([]) (Change.observe (pos n)) refl,
    tt,
  )
  writes_of-IsAligned (Call.observe_schema_groups_per_flush n) = (
    asked-IsAligned m t database instance_id (Call.observe_schema_groups_per_flush n) ""
        Metric.schema_groups_per_flush ([]) (Change.observe (pos n)) refl,
    tt,
  )
  writes_of-IsAligned (Call.inc_error table reason) = (
    asked-IsAligned m t database instance_id (Call.inc_error table reason) "" Metric.total_errors
        ("error_type" ∷ []) (Change.inc) refl,
    tt,
  )
  writes_of-IsAligned (Call.inc_submit_rejected reason) = (
    asked-IsAligned m t database instance_id (Call.inc_submit_rejected reason) ""
        Metric.submit_rejected_total ("reason" ∷ []) (Change.inc) refl,
    tt,
  )
  writes_of-IsAligned (Call.observe_dequeue_latency d) =
      All-if (Call.observe_dequeue_latency d) m.enable_pipeline_metrics _ (
        asked-IsAligned m t database instance_id (Call.observe_dequeue_latency d) ""
            Metric.pipeline_dequeue_latency ([]) (Change.observe_seconds d) refl,
        tt,
      )
  writes_of-IsAligned (Call.observe_process_duration d status) =
      All-if (Call.observe_process_duration d status) m.enable_pipeline_metrics _ (
        asked-IsAligned m t database instance_id (Call.observe_process_duration d status) ""
            Metric.pipeline_process_duration ("status" ∷ []) (Change.observe_seconds d) refl,
        tt,
      )
  writes_of-IsAligned (Call.inc_dropped reason) =
      All-if (Call.inc_dropped reason) m.enable_pipeline_metrics _ (
        asked-IsAligned m t database instance_id (Call.inc_dropped reason) ""
            Metric.pipeline_dropped_total ("reason" ∷ []) (Change.inc) refl,
        tt,
      )
  writes_of-IsAligned (Call.observe_execute_duration table n d status) =
      (execute-IsAligned m t database instance_id table n d status, tt)
  writes_of-IsAligned (Call.inc_sql_error table stage reason) =
      (sql_error-IsAligned m t database instance_id table stage reason, tt)
  writes_of-IsAligned (Call.inc_operation_error schema backend stage reason) = (
    flagged-IsAligned m t database instance_id
        (Call.inc_operation_error schema backend stage reason) "" Metric.operation_errors
        ("backend" ∷ "stage" ∷ "reason" ∷ []) (Change.inc) refl,
    tt,
  )
  writes_of-IsAligned (Call.observe_sql_generated table input output args) = (
    flagged-IsAligned m t database instance_id (Call.observe_sql_generated table input output args)
        "input" Metric.sql_generated_rows ("kind" ∷ []) (Change.observe (pos input)) refl,
    (
      flagged-IsAligned m t database instance_id
          (Call.observe_sql_generated table input output args) "output" Metric.sql_generated_rows
          ("kind" ∷ []) (Change.observe (pos output)) refl,
      (
        flagged-IsAligned m t database instance_id
            (Call.observe_sql_generated table input output args) "" Metric.sql_generated_args ([])
            (Change.observe (pos args)) refl,
        tt,
      ),
    ),
  )
  writes_of-IsAligned (Call.observe_operation_generated p) = (
    flagged-IsAligned m t database instance_id (Call.observe_operation_generated p) "input"
        Metric.operation_items ("backend" ∷ "operation" ∷ "kind" ∷ [])
        (Change.observe (pos p.input_items)) refl,
    (
      flagged-IsAligned m t database instance_id (Call.observe_operation_generated p) "output"
          Metric.operation_items ("backend" ∷ "operation" ∷ "kind" ∷ [])
          (Change.observe (pos p.output_items)) refl,
      (
        flagged-IsAligned m t database instance_id (Call.observe_operation_generated p) ""
            Metric.operation_args ("backend" ∷ "operation" ∷ []) (Change.observe (pos p.arg_count))
            refl,
        tt,
      ),
    ),
  )
  writes_of-IsAligned (Call.observe_sql_deduplicated table strategy deduplicated merged) =
      let call = Call.observe_sql_deduplicated table strategy deduplicated merged in
      All-append call (if_positive deduplicated _) (if_positive merged _)
        (All-if_positive call deduplicated _ (
          flagged-IsAligned m t database instance_id
              (Call.observe_sql_deduplicated table strategy deduplicated merged) "deduplicated"
              Metric.sql_deduplicated_rows ("strategy" ∷ "kind" ∷ []) (Change.add deduplicated)
              refl,
          tt,
        ))
        (All-if_positive call merged _ (
          flagged-IsAligned m t database instance_id
              (Call.observe_sql_deduplicated table strategy deduplicated merged) "merged"
              Metric.sql_deduplicated_rows ("strategy" ∷ "kind" ∷ []) (Change.add merged) refl,
          tt,
        ))
