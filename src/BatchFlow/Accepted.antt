-- ===== src/BatchFlow/Accepted.antt =====
-- What a result of the flush function of batchflow.go says of the answers of the executor, and what
-- the reporter is told.
use batchflow.Prelude.{
  ℕ, ◌≡◌, refl, sym, ap, ◌∙◌, subst, Bool, true, false, List, [], ◌∷◌, Option, none, some, arith,
  Option-cases, inl, inr, if◌then◌else◌,
}
use batchflow.Errors.{Error}
use batchflow.BatchFlow.Flush.{
  QueuedRequest, Group, FlushAction, FlushHistory, FlushSurroundings, group_requests, hand_over,
  flush_group, flush_groups, report_latency, report_latencies, report_flush, report_process, flush,
}
use batchflow.BatchFlow.Flushed.{flush_group-cases}

-- Every call of the executor was answered with nil.
unfoldable pub IsAccepted : FlushSurroundings → FlushHistory → Type 0
IsAccepted s [] = Unit
IsAccepted s (FlushAction.execute_batch schema batch ∷ h) =
    (s.execute h schema batch ≡ none) × IsAccepted s h
IsAccepted s (FlushAction.observe_dequeue_latency d ∷ h) = IsAccepted s h
IsAccepted s (FlushAction.observe_pipeline_flush_size n ∷ h) = IsAccepted s h
IsAccepted s (FlushAction.observe_schema_groups_per_flush n ∷ h) = IsAccepted s h
IsAccepted s (FlushAction.observe_batch_size n ∷ h) = IsAccepted s h
IsAccepted s (FlushAction.observe_batch_assemble d ∷ h) = IsAccepted s h
IsAccepted s (FlushAction.observe_process_duration d t ∷ h) = IsAccepted s h

module _ (s : FlushSurroundings) where
  IsAccepted-flush_group :
      (g : Group) (h : FlushHistory)
      → IsAccepted s h
      → (flush_group s g h).0 ≡ none
      → IsAccepted s (flush_group s g h).1
  unfolding hand_over IsAccepted
  IsAccepted-flush_group g h so_far good = elim (flush_group-cases s g h) [
    | inl (e, stop) ↦
        absurd (ground (arith, ap (λ (r : Option Error × FlushHistory). r.0) stop, good))
    | inr same ↦
        subst (λ (r : Option Error × FlushHistory). IsAccepted s r.1) (sym same)
          (sym (ap (λ (r : Option Error × FlushHistory). r.0) same) ∙ good, so_far)
  ]

  IsAccepted-flush_groups :
      (gs : List Group) (h : FlushHistory)
      → IsAccepted s h
      → (flush_groups s gs h).0 ≡ none
      → IsAccepted s (flush_groups s gs h).1
  unfolding flush_groups
  IsAccepted-flush_groups [] h so_far good = so_far
  IsAccepted-flush_groups (g ∷ gs) h so_far good = elim (Option-cases (flush_group s g h).0) [
    | inr (e, failed) ↦ absurd (ground (arith, sym failed ∙ rw (failed, flush_groups) at good))
    | inl done ↦
        let next = flush_group s g h in
        let same : flush_groups s gs next.1 ≡ flush_groups s (g ∷ gs) h =
          rw (done, flush_groups) refl in
        subst (λ (r : Option Error × FlushHistory). IsAccepted s r.1) same
          (IsAccepted-flush_groups gs next.1 (IsAccepted-flush_group g h so_far done)
            (ap (λ (r : Option Error × FlushHistory). r.0) same ∙ good))
  ]

  IsAccepted-report_latencies :
      (now : ℕ) (items : List (Option QueuedRequest)) (h : FlushHistory)
      → IsAccepted s h
      → IsAccepted s (report_latencies s now items h)
  unfolding report_latencies report_latency IsAccepted
  IsAccepted-report_latencies now [] h a = a
  IsAccepted-report_latencies now (none ∷ items) h a = IsAccepted-report_latencies now items h a
  IsAccepted-report_latencies now (some item ∷ items) h a =
      IsAccepted-report_latencies now items _ (latency item.enqueued_at)
    where
      latency : (t : Option ℕ) → IsAccepted s (report_latency s now t h)
      latency none = a
      latency (some t) = a

  report-if :
      (told : Bool) (h h' : FlushHistory)
      → IsAccepted s h
      → IsAccepted s h'
      → IsAccepted s (if told then h' else h)
  report-if true h h' a a' = a'
  report-if false h h' a a' = a

  IsAccepted-report_flush :
      (items : List (Option QueuedRequest)) (h : FlushHistory)
      → IsAccepted s h
      → IsAccepted s (report_flush s items h)
  unfolding report_flush IsAccepted
  IsAccepted-report_flush items h a =
      let reported =
        report-if s.is_pipeline_reporter h _ a (IsAccepted-report_latencies (s.now h) items h a) in
      report-if s.is_batch_flow_reporter _ _ reported reported

  IsAccepted-report_process :
      (began : ℕ) (r : Option Error × FlushHistory)
      → IsAccepted s r.1
      → IsAccepted s (report_process s began r).1
  unfolding report_process IsAccepted
  IsAccepted-report_process began (result, h) a = report-if s.is_pipeline_reporter h _ a a

  -- A flush returns nil only if the executor has answered every call of it with nil.
  pub flush-IsAccepted :
      (items : List (Option QueuedRequest))
      → (flush s items []).0 ≡ none
      → IsAccepted s (flush s items []).1
  unfolding flush report_process IsAccepted
  flush-IsAccepted items good =
      let start = report_flush s items [] in
      let groups = s.order (group_requests items) in
      IsAccepted-report_process (s.now []) (flush_groups s groups start)
        (IsAccepted-flush_groups groups start (IsAccepted-report_flush items [] tt) good)
