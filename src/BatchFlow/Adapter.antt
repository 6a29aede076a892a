-- ===== src/BatchFlow/Adapter.antt =====
-- gopipeline_metrics_adapter.go: what of the pipeline's own events reaches a metrics reporter.
use batchflow.Prelude.{
  ℕ, suc, String, ◌≡◌, refl, ap, if◌then◌else◌, replicate, Bool, true, false, List, [], ◌∷◌, ◌++◌,
  Option, none, some,
}
use batchflow.Errors.{Error}

-- The calls of the hook: a flush with its number of items and its duration, an error that is written
-- to the channel of errors, and one that is dropped because that is full.
pub data HookEvent : Type 0 where
  flushed : ℕ → ℕ → HookEvent
  failed : Error → HookEvent
  error_dropped : HookEvent

-- pipelineMetricsAdapter: its reporter, which may be nil; the Boolean tells whether that is a
-- PipelineMetricsReporter.
pub record PipelineMetricsAdapter : Type 0 where
  pub reporter : Option Bool

-- pmr
unfoldable pub has_pipeline_reporter : PipelineMetricsAdapter → Bool
has_pipeline_reporter a = elim a.reporter [ none ↦ false | some is_pipeline ↦ is_pipeline ]

-- Flush, Error and ErrorDropped: the reasons that IncDropped is given
unfoldable pub on_hook_event : PipelineMetricsAdapter → HookEvent → List String
unfolding has_pipeline_reporter
on_hook_event a (HookEvent.flushed items duration) = []
on_hook_event a (HookEvent.failed e) = []
on_hook_event a HookEvent.error_dropped =
    if has_pipeline_reporter a then "error_chan_full" ∷ [] else []

-- attachPipelineMetrics, for a pipeline that is there: the hook that it gets
unfoldable pub attach_pipeline_metrics : Option Bool → Option PipelineMetricsAdapter
attach_pipeline_metrics none = none
attach_pipeline_metrics (some r) = some (record { reporter = some r })

unfoldable pub dropped_reasons : Option PipelineMetricsAdapter → List HookEvent → List String
unfolding on_hook_event
dropped_reasons none events = []
dropped_reasons (some a) [] = []
dropped_reasons (some a) (e ∷ events) = on_hook_event a e ++ dropped_reasons (some a) events

unfoldable pub count_dropped : List HookEvent → ℕ
count_dropped [] = 0
count_dropped (HookEvent.error_dropped ∷ events) = suc (count_dropped events)
count_dropped (HookEvent.flushed n d ∷ events) = count_dropped events
count_dropped (HookEvent.failed e ∷ events) = count_dropped events

abbrev pub takes : Option Bool → Bool
takes none = false
takes (some is_pipeline) = is_pipeline

-- The adapter that attachPipelineMetrics gives a pipeline reports exactly the dropped errors, one
-- report with one reason for each, if the reporter takes such reports, and nothing else.
pub dropped_reasons-replicate :
    (reporter : Option Bool) (events : List HookEvent)
    → dropped_reasons (attach_pipeline_metrics reporter) events
      ≡ replicate (if takes reporter then count_dropped events else 0) "error_chan_full"
unfolding dropped_reasons attach_pipeline_metrics on_hook_event has_pipeline_reporter count_dropped
dropped_reasons-replicate none events = refl
dropped_reasons-replicate (some true) [] = refl
dropped_reasons-replicate (some false) [] = refl
dropped_reasons-replicate (some true) (HookEvent.error_dropped ∷ events) =
    ap (λ (l : List String). "error_chan_full" ∷ l) (dropped_reasons-replicate (some true) events)
dropped_reasons-replicate (some true) (HookEvent.flushed n d ∷ events) =
    dropped_reasons-replicate (some true) events
dropped_reasons-replicate (some true) (HookEvent.failed e ∷ events) =
    dropped_reasons-replicate (some true) events
dropped_reasons-replicate (some false) (HookEvent.error_dropped ∷ events) =
    dropped_reasons-replicate (some false) events
dropped_reasons-replicate (some false) (HookEvent.flushed n d ∷ events) =
    dropped_reasons-replicate (some false) events
dropped_reasons-replicate (some false) (HookEvent.failed e ∷ events) =
    dropped_reasons-replicate (some false) events
