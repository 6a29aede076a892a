-- ===== src/BatchFlow/Stored.antt =====
-- The way of a request from the flush function of batchflow.go through ExecuteBatch of executor.go and
-- SQLBatchProcessor of processor.go to the database.
use batchflow.Prelude.{
  ◌≡◌, ◌≢◌, refl, sym, ◌∙◌, subst, false, List, [], ◌∷◌, Option, none, some, map, arith, All,
  is_empty,
}
use mathlib.Core.List.{Permᴰ}
use mathlib.Core.List.Permᴰ
use batchflow.Model.{Batch}
use batchflow.Schema.{SchemaInterface}
use batchflow.Coalescer.{Formatter}
use batchflow.Driver.Statements.{SqlDriver}
use batchflow.Observability.{Library}
use batchflow.Executor.Actions.{History, Surroundings}
use batchflow.Executor.Settings.{Executor}
use batchflow.Executor.Attempt.{generate_operations}
use batchflow.Executor.{execute_batch}
use batchflow.Executor.Delivery.{execute_batch-IsDelivered}
use batchflow.Processor.{Backend}
use batchflow.Processor.Sql.{
  SqlBatchProcessor, sql_processor, sql_generate_operation_preview, preview_as_sql, preview_for,
}
use batchflow.Processor.Writes.{IsWritten, execute_batch-IsWritten}
use batchflow.BatchFlow.Flush.{
  QueuedRequest, FlushAction, FlushHistory, FlushSurroundings, requests_of, group_requests,
  row_data, request_at, flush,
}
use batchflow.BatchFlow.Flushed.{calls_of, flush-Ending}
use batchflow.BatchFlow.Accepted.{IsAccepted}
use batchflow.BatchFlow.Handed.{Ending-none, rows_of, handed, flush-Perm}
use batchflow.BatchFlow.Full.{HasRows, All-group_all, All-Perm, All-calls, All-append}
use batchflow.BatchFlow.Setup.{Options, sql_processor_for, new_sql_batch_flow_with_driver}
use batchflow.BatchFlow.Setting.{configure-IsConfigured, sql_processor_for-driver}

-- A flow whose executor is `e`: what surrounds a call of ExecuteBatch, and what has happened to the
-- executor before it, may depend on the flush so far.
unfoldable pub connect :
    Executor
    → (FlushHistory → Surroundings)
    → (FlushHistory → History)
    → FlushSurroundings
    → FlushSurroundings
unfolding execute_batch
connect e around past s = record s {
  execute = λ h schema batch. (execute_batch (around h) e schema batch (past h)).0;
}

-- Every call was for a SQL schema, and its rows are in a statement that the database has executed.
unfoldable pub IsStored :
    Backend
    → SqlBatchProcessor
    → SqlDriver
    → Executor
    → (FlushHistory → Surroundings)
    → (FlushHistory → History)
    → FlushHistory
    → Type 0
unfolding execute_batch
IsStored b p driver e around past [] = Unit
IsStored b p driver e around past
      (FlushAction.execute_batch (SchemaInterface.sql schema) batch ∷ h) =
    IsWritten b p driver schema batch
      (execute_batch (around h) e (SchemaInterface.sql schema) batch (past h)).1
    × IsStored b p driver e around past h
IsStored b p driver e around past
      (FlushAction.execute_batch (SchemaInterface.plain schema) batch ∷ h) =
    ⊥
IsStored b p driver e around past
      (FlushAction.execute_batch (SchemaInterface.custom schema) batch ∷ h) =
    ⊥
IsStored b p driver e around past (_ ∷ h) = IsStored b p driver e around past h

module _ (lib : Library) (fmt : Formatter) (b : Backend) (p : SqlBatchProcessor)
    (driver : SqlDriver) (e : Executor) (around : FlushHistory → Surroundings)
    (past : FlushHistory → History) (s : FlushSurroundings) where
  not_sql-Empty :
      (schema : SchemaInterface) (batch : Batch) (h : History) (k : Surroundings)
      → ((h : History) → preview_as_sql lib fmt b p h schema batch ≡ none)
      → e.processor ≡ sql_processor lib fmt b p
      → e.coalescer ≡ none
      → is_empty batch ≡ false
      → (execute_batch k e schema batch h).0 ≢ none
  unfolding generate_operations sql_processor sql_generate_operation_preview preview_for
  not_sql-Empty schema batch h k no_preview same plain rows good =
      let d = execute_batch-IsDelivered k e schema batch h rows plain good in
      absurd (ground (arith, rw (same, generate_operations, no_preview d.start) at d.without_error))

  IsAccepted-IsStored :
      (h : FlushHistory)
      → p.driver ≡ some driver
      → e.processor ≡ sql_processor lib fmt b p
      → e.coalescer ≡ none
      → All HasRows (calls_of h)
      → IsAccepted (connect e around past s) h
      → IsStored b p driver e around past h
  unfolding IsAccepted IsStored calls_of connect preview_as_sql HasRows
  IsAccepted-IsStored [] d same plain rows a = tt
  IsAccepted-IsStored (FlushAction.execute_batch (SchemaInterface.sql schema) batch ∷ h) d same
        plain rows (good, a) =
      let (earlier, last) = All-append (calls_of h) (SchemaInterface.sql schema, batch) rows in
      (
        execute_batch-IsWritten lib fmt b p driver (around h) e schema batch (past h) d same plain
            last good,
        IsAccepted-IsStored h d same plain earlier a,
      )
  IsAccepted-IsStored (FlushAction.execute_batch (SchemaInterface.plain schema) batch ∷ h) d same
        plain rows (good, a) =
      let (earlier, last) = All-append (calls_of h) (SchemaInterface.plain schema, batch) rows in
      not_sql-Empty (SchemaInterface.plain schema) batch (past h) (around h) (λ k. refl) same plain
        last good
  IsAccepted-IsStored (FlushAction.execute_batch (SchemaInterface.custom schema) batch ∷ h) d same
        plain rows (good, a) =
      let (earlier, last) = All-append (calls_of h) (SchemaInterface.custom schema, batch) rows in
      not_sql-Empty (SchemaInterface.custom schema) batch (past h) (around h) (λ k. refl) same plain
        last good
  IsAccepted-IsStored (FlushAction.observe_dequeue_latency t ∷ h) d same plain rows a =
      IsAccepted-IsStored h d same plain rows a
  IsAccepted-IsStored (FlushAction.observe_pipeline_flush_size n ∷ h) d same plain rows a =
      IsAccepted-IsStored h d same plain rows a
  IsAccepted-IsStored (FlushAction.observe_schema_groups_per_flush n ∷ h) d same plain rows a =
      IsAccepted-IsStored h d same plain rows a
  IsAccepted-IsStored (FlushAction.observe_batch_size n ∷ h) d same plain rows a =
      IsAccepted-IsStored h d same plain rows a
  IsAccepted-IsStored (FlushAction.observe_batch_assemble t ∷ h) d same plain rows a =
      IsAccepted-IsStored h d same plain rows a
  IsAccepted-IsStored (FlushAction.observe_process_duration t r ∷ h) d same plain rows a =
      IsAccepted-IsStored h d same plain rows a

-- The flow with the executor that NewSQLBatchFlowWithDriver makes.
unfoldable pub sql_flow :
    Library
    → Formatter
    → Backend
    → SqlDriver
    → Surroundings
    → Options
    → History
    → (FlushHistory → Surroundings)
    → (FlushHistory → History)
    → FlushSurroundings
    → FlushSurroundings
unfolding connect new_sql_batch_flow_with_driver
sql_flow lib fmt b driver k o made around past s =
    connect (new_sql_batch_flow_with_driver k o lib fmt b (some driver) made).0 around past s

-- For a flow that NewSQLBatchFlowWithDriver makes of a configuration without a coalescer: a flush that
-- returns nil has handed each request of the batch to the executor exactly once, as a row for its own
-- schema, if the walk through the map visits each entry exactly once; and for each call of the executor
-- the driver has made a statement of the rows, which the database has executed with its arguments
-- without an error.
pub new_sql_batch_flow-IsStored :
    (lib : Library) (fmt : Formatter) (b : Backend) (driver : SqlDriver) (k : Surroundings)
    (o : Options) (made : History) (around : FlushHistory → Surroundings)
    (past : FlushHistory → History) (s : FlushSurroundings) (items : List (Option QueuedRequest))
    → o.coalescer ≡ none
    → Permᴰ (s.order (group_requests items)) (group_requests items)
    → (flush (sql_flow lib fmt b driver k o made around past s) items []).0 ≡ none
    → Permᴰ
        (rows_of (calls_of (flush (sql_flow lib fmt b driver k o made around past s) items []).1))
        (map (handed s) (requests_of items))
      × IsStored b
          (sql_processor_for k o (some driver))
          driver
          (new_sql_batch_flow_with_driver k o lib fmt b (some driver) made).0
          around
          past
          (flush (sql_flow lib fmt b driver k o made around past s) items []).1
unfolding new_sql_batch_flow_with_driver connect handed row_data request_at group_requests calls_of
    sql_flow
new_sql_batch_flow-IsStored lib fmt b driver k o made around past s items plain walk good =
    let p = sql_processor_for k o (some driver) in
    let e = (new_sql_batch_flow_with_driver k o lib fmt b (some driver) made).0 in
    let set = configure-IsConfigured k o (sql_processor lib fmt b p) made in
    let full = All-Perm _ _ (Permᴰ.symm walk) (All-group_all (requests_of items) [] tt) in
    let flow = connect e around past s in
    let rows =
      subst (All HasRows)
        (sym (
          Ending-none flow (s.order (group_requests items)) [] _ (flush-Ending flow items []) good))
        (All-calls flow (s.order (group_requests items)) full) in
    let (once, accepted) = flush-Perm flow items walk good in
    (
      once,
      IsAccepted-IsStored lib fmt b p driver e around past s (flush flow items []).1
          (sql_processor_for-driver k o driver) set.processor_set (set.coalescer_set ∙ plain) rows
          accepted,
    )
