-- ===== src/BatchFlow/Flush.antt =====
-- The flush function of newBatchFlow in batchflow.go: it groups the requests of a batch by schema and
-- hands the rows of each group to the executor.
use batchflow.Prelude.{
  ℕ, suc, ◌-◌, ◌%◌, ◌==◌, Bool, ◌&&◌, ltb, String, List, [], ◌∷◌, ◌++◌, Option, none, some, put,
  length, if◌then◌else◌,
}
use batchflow.Model.{Value, Record, Batch}
use batchflow.Schema.{SchemaInterface, columns}
use batchflow.Context.{ContextErr}
use batchflow.Errors.{Error, Result, ok, err, ◌>>=◌}
use batchflow.Request.{Request, get_ordered_values}

-- A request in the queue: the pointer to its schema, and its values.
pub record Queued : Type 0 where
  pub address : ℕ
  pub values : Record

-- queuedRequest, whose request may be nil; a time of none is the zero time.
pub record QueuedRequest : Type 0 where
  pub request : Option Queued
  pub enqueued_at : Option ℕ

-- An entry of schemaGroups; the keys of that map are pointers.
pub record Group : Type 0 where
  pub address : ℕ
  pub requests : List Queued

-- What the reporter is told, and the calls of the executor.
pub data FlushAction : Type 0 where
  observe_dequeue_latency : ℕ → FlushAction
  observe_pipeline_flush_size : ℕ → FlushAction
  observe_schema_groups_per_flush : ℕ → FlushAction
  observe_batch_size : ℕ → FlushAction
  observe_batch_assemble : ℕ → FlushAction
  execute_batch : SchemaInterface → Batch → FlushAction
  observe_process_duration : ℕ → String → FlushAction

-- The newest action stands first.
abbrev pub FlushHistory : Type 0
FlushHistory = List FlushAction

-- The schemas in memory, the context, whose Err is asked at numbered moments between two actions, the
-- clock, the order in which Go walks through a map, and the executor.
pub record FlushSurroundings : Type 0 where
  pub schemas : ℕ → SchemaInterface
  pub ctx_err : FlushHistory → ℕ → Option ContextErr
  pub now : FlushHistory → ℕ
  pub order : List Group → List Group
  pub execute : FlushHistory → SchemaInterface → Batch → Option Error
  pub is_pipeline_reporter : Bool
  pub is_batch_flow_reporter : Bool

-- schemaGroups[schema] = append(schemaGroups[schema], request)
unfoldable pub add_request : Queued → List Group → List Group
add_request q [] = record { address = q.address; requests = q ∷ [] } ∷ []
add_request q (g ∷ gs) =
    let rest = add_request q gs in
    if g.address == q.address then record g { requests = g.requests ++ q ∷ [] } ∷ gs else g ∷ rest

-- The requests of the items that have one.
unfoldable pub requests_of : List (Option QueuedRequest) → List Queued
requests_of [] = []
requests_of (none ∷ items) = requests_of items
requests_of (some item ∷ items) = elim item.request [
  | none ↦ requests_of items
  | some q ↦ q ∷ requests_of items
]

unfoldable pub group_all : List Queued → List Group → List Group
unfolding add_request
group_all [] gs = gs
group_all (q ∷ qs) gs = group_all qs (add_request q gs)

-- The loop that fills schemaGroups.
unfoldable pub group_requests : List (Option QueuedRequest) → List Group
unfolding group_all requests_of
group_requests items = group_all (requests_of items) []

-- for j, col := range columns { if j < len(values) { rowData[col] = values[j] } }
unfoldable pub fill_row : List String → List Value → Record → Record
unfolding put
fill_row [] values row = row
fill_row (col ∷ cols) [] row = fill_row cols [] row
fill_row (col ∷ cols) (v ∷ values) row = fill_row cols values (put col v row)

module _ (s : FlushSurroundings) where
  -- The Request that a pointer in the queue leads to.
  unfoldable pub request_at : Queued → Request
  request_at q = record { schema = s.schemas q.address; values = q.values }

  unfoldable pub row_data : Queued → Record
  unfolding fill_row request_at get_ordered_values columns
  row_data q = fill_row (columns (s.schemas q.address)) (get_ordered_values (request_at q)) []

  -- if len(requests) > 10000 && i%1000 == 0 { ctx.Err() }
  unfoldable pub checkpoint : FlushHistory → Bool → ℕ → Option ContextErr
  checkpoint h many i = if many && (i % 1000 == 0) then s.ctx_err h (suc i) else none

  unfoldable pub assemble : FlushHistory → Bool → ℕ → List Queued → Result Batch
  unfolding checkpoint row_data
  assemble h many i [] = ok []
  assemble h many i (q ∷ qs) = elim (checkpoint h many i) [
    | some c ↦ err (Error.context c)
    | none ↦ assemble h many (suc i) qs >>= λ rows. ok (row_data q ∷ rows)
  ]

  -- The rows of a group on their way to the executor, from the time when the assembling began.
  unfoldable pub hand_over : ℕ → Group → Result Batch → FlushHistory → Option Error × FlushHistory
  hand_over began g (err e) h = (some e, h)
  hand_over began g (ok rows) h =
      let h = FlushAction.observe_batch_size (length g.requests) ∷ h in
      let h = FlushAction.observe_batch_assemble (s.now h - began) ∷ h in
      let result = s.execute h (s.schemas g.address) rows in
      (result, FlushAction.execute_batch (s.schemas g.address) rows ∷ h)

  -- One round of the loop over schemaGroups.
  unfoldable pub flush_group : Group → FlushHistory → Option Error × FlushHistory
  unfolding assemble hand_over
  flush_group g h = elim (s.ctx_err h 0) [
    | some c ↦ (some (Error.context c), h)
    | none ↦ hand_over (s.now h) g (assemble h (ltb 10000 (length g.requests)) 0 g.requests) h
  ]

  unfoldable pub flush_groups : List Group → FlushHistory → Option Error × FlushHistory
  unfolding flush_group
  flush_groups [] h = (none, h)
  flush_groups (g ∷ gs) h =
      let done = flush_group g h in elim done.0 [ some e ↦ done | none ↦ flush_groups gs done.1 ]

  unfoldable pub report_latency : ℕ → Option ℕ → FlushHistory → FlushHistory
  report_latency now none h = h
  report_latency now (some t) h = FlushAction.observe_dequeue_latency (now - t) ∷ h

  -- The loop over the items for ObserveDequeueLatency.
  unfoldable pub report_latencies : ℕ → List (Option QueuedRequest) → FlushHistory → FlushHistory
  unfolding report_latency
  report_latencies now [] h = h
  report_latencies now (none ∷ items) h = report_latencies now items h
  report_latencies now (some item ∷ items) h =
      report_latencies now items (report_latency now item.enqueued_at h)

  -- The reports at the start of a flush.
  unfoldable pub report_flush : List (Option QueuedRequest) → FlushHistory → FlushHistory
  unfolding report_latencies group_requests
  report_flush items h =
      let h = if s.is_pipeline_reporter then report_latencies (s.now h) items h else h in
      if s.is_batch_flow_reporter
      then FlushAction.observe_schema_groups_per_flush (length (group_requests items))
        ∷ FlushAction.observe_pipeline_flush_size (length items)
        ∷ h
      else h

  abbrev pub flush_status : Option Error → String
  flush_status none = "success"
  flush_status (some e) = "fail"

  -- The deferred function.
  unfoldable pub report_process : ℕ → Option Error × FlushHistory → Option Error × FlushHistory
  report_process began (result, h) = (
    result,
    if s.is_pipeline_reporter
        then FlushAction.observe_process_duration (s.now h - began) (flush_status result) ∷ h
        else h,
  )

  -- flushFunc
  unfoldable pub flush : List (Option QueuedRequest) → FlushHistory → Option Error × FlushHistory
  unfolding report_flush flush_groups report_process group_requests
  flush items h =
      report_process (s.now h)
        (flush_groups (s.order (group_requests items)) (report_flush items h))
