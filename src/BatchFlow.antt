-- ===== src/BatchFlow.antt =====
-- batchflow.go: the configuration of a pipeline, and the door through which requests enter it. The
-- pipeline itself belongs to another package.
pub mod Config
pub mod Setup
pub mod Adapter
pub mod Setting
pub mod Full
pub mod Stored
pub mod Entry
pub mod Flush
pub mod Groups
pub mod Flushed
pub mod Accepted
pub mod Handed
pub mod Running
use batchflow.Prelude.{
  ℕ, String, Bool, true, false, List, [], ◌∷◌, ◌++◌, Option, none, some, length, is_empty,
  if◌then◌else◌,
}
use batchflow.Schema.{SchemaInterface, name, columns}
use batchflow.Context.{ContextErr, canceled, deadline_exceeded}
use batchflow.Errors.{
  Error, err_empty_request, err_invalid_schema, err_missing_column, err_empty_schema_name,
}
use batchflow.Request.{Request}

-- What the metrics reporter is told; the second kind only if it is a BatchFlowMetricsReporter.
pub data Report : Type 0 where
  enqueue_latency : ℕ → Report
  submit_rejected : String → Report
  queue_length : ℕ → Report

-- A request as Submit sees it: NewRequest takes a nil schema too.
pub record Submitted : Type 0 where
  pub schema : Option SchemaInterface
  pub request : Request

-- The fields that Submit reads and writes; `queue` is what is in the data channel.
pub record BatchFlow : Type 0 where
  pub closed : Bool
  pub reports_rejections : Bool
  pub queue : List Request
  pub reports : List Report  -- newest first

-- How the select of Submit ends: a free place in the channel after some time, or the context.
pub data Selected : Type 0 where
  sent : ℕ → Selected
  done : ContextErr → Selected

abbrev pub reason_from_context_err : ContextErr → String
reason_from_context_err deadline_exceeded = "context_deadline_exceeded"
reason_from_context_err canceled = "context_canceled"

-- reportSubmitRejected, whose reason is never empty here
unfoldable pub report_submit_rejected : String → BatchFlow → BatchFlow
report_submit_rejected reason b =
    if b.reports_rejections
    then record b { reports = Report.submit_rejected reason ∷ b.reports }
    else b

-- A guard of Submit that fails.
unfoldable pub reject : String → Error → BatchFlow → Option Error × BatchFlow
unfolding report_submit_rejected
reject reason e b = (some e, report_submit_rejected reason b)

abbrev pub is_empty_text : String → Bool
is_empty_text String.[] = true
is_empty_text (String.◌∷◌ c s) = false

-- The end of Submit: the select.
unfoldable pub enqueue : Selected → Request → BatchFlow → Option Error × BatchFlow
unfolding reject
enqueue (Selected.sent latency) request b =
    let queue = b.queue ++ request ∷ [] in
    (
      none,
      record b {
        queue = queue;
        reports = Report.queue_length (length queue) ∷ Report.enqueue_latency latency ∷ b.reports;
      },
    )
enqueue (Selected.done c) request b = reject (reason_from_context_err c) (Error.context c) b

-- The checks of the schema in Submit, and what follows them.
unfoldable pub submit_to :
    Selected → SchemaInterface → Request → BatchFlow → Option Error × BatchFlow
unfolding columns name reject enqueue
submit_to selected schema request b =
    if is_empty (columns schema)
    then reject "missing_column" err_missing_column b
    else if is_empty_text (name schema)
    then reject "empty_schema_name" err_empty_schema_name b
    else enqueue selected request b

-- The checks of Submit on a flow that is open and a context that is live.
unfoldable pub submit_open : Selected → Option Submitted → BatchFlow → Option Error × BatchFlow
unfolding submit_to reject
submit_open selected none b = reject "empty_request" err_empty_request b
submit_open selected (some r) b = elim r.schema [
  | none ↦ reject "invalid_schema" err_invalid_schema b
  | some schema ↦ submit_to selected schema r.request b
]

-- Submit; `ctx_err` is what the context says at the start.
unfoldable pub submit :
    Option ContextErr → Selected → Option Submitted → BatchFlow → Option Error × BatchFlow
unfolding submit_open reject
submit (some c) selected r b = reject (reason_from_context_err c) (Error.context c) b
submit none selected r b =
    if b.closed
    then reject "batchflow_closed" (Error.context canceled) b
    else submit_open selected r b
