-- ===== src/BatchFlow/Flushed.antt =====
-- What the flush function of batchflow.go has handed to the executor when it returns.
use batchflow.Prelude.{
  ℕ, suc, ◌≡◌, ◌⊎◌, refl, sym, ap, ◌∙◌, subst, Bool, ltb, List, [], ◌∷◌, ◌++◌, Option, none, some,
  map, arith, length, Option-cases, inl, inr,
}
use mathlib.Core.List.{append_assoc, append-nil}
use batchflow.Model.{Batch}
use batchflow.Schema.{SchemaInterface}
use batchflow.Errors.{Error, ok, Result-cases}
use batchflow.BatchFlow.Flush.{
  Queued, QueuedRequest, Group, FlushAction, FlushHistory, FlushSurroundings, group_requests,
  row_data, checkpoint, assemble, hand_over, flush_group, flush_groups, report_latency,
  report_latencies, report_flush, report_process, flush,
}

-- The calls of the executor, the oldest first.
unfoldable pub calls_of : FlushHistory → List (SchemaInterface × Batch)
calls_of [] = []
calls_of (FlushAction.execute_batch schema batch ∷ h) = calls_of h ++ (schema, batch) ∷ []
calls_of (_ ∷ h) = calls_of h

-- The call for a group: its schema, and a row for each request, in order.
unfoldable pub call_for : FlushSurroundings → Group → SchemaInterface × Batch
unfolding row_data
call_for s g = (s.schemas g.address, map (row_data s) g.requests)

-- How a walk over groups ends: all were handed over; or an error came, and the groups up to some place
-- were handed over, each once, in order.
pub data Ending (s : FlushSurroundings) (groups : List Group) (before : FlushHistory)
    : Option Error × FlushHistory → Type 0 where
  complete :
      (h : FlushHistory)
      → calls_of h ≡ calls_of before ++ map (call_for s) groups
      → Ending s groups before (none, h)
  stopped :
      (handed left : List Group) (e : Error) (h : FlushHistory)
      → groups ≡ handed ++ left
      → calls_of h ≡ calls_of before ++ map (call_for s) handed
      → Ending s groups before (some e, h)

module _ (s : FlushSurroundings) where
  assemble-ok :
      (h : FlushHistory) (many : Bool) (i : ℕ) (qs : List Queued) (rows : Batch)
      → assemble s h many i qs ≡ ok rows
      → rows ≡ map (row_data s) qs
  unfolding assemble
  assemble-ok h many i [] rows good = ground arith
  assemble-ok h many i (q ∷ qs) rows good = elim (Option-cases (checkpoint s h many i)) [
    | inr (c, stop) ↦ cc (rw (stop, assemble) at good)
    | inl live ↦ elim (Result-cases (assemble s h many (suc i) qs)) [
      | inr (e, failed) ↦ cc (rw (live, assemble, failed) at good)
      | inl (rest, made) ↦
          let same : ok (row_data s q ∷ rest) ≡ ok rows = rw (live, assemble, made) at good in
          ground (arith, assemble-ok h many (suc i) qs rest made)
    ]
  ]

  pub flush_group-cases :
      (g : Group) (h : FlushHistory)
      → ((e : Error) × (flush_group s g h ≡ (some e, h)))
        ⊎ (flush_group s g h ≡ hand_over s (s.now h) g (ok (map (row_data s) g.requests)) h)
  unfolding flush_group hand_over
  flush_group-cases g h = elim (Option-cases (s.ctx_err h 0)) [
    | inr (c, stop) ↦ inl (Error.context c, rw (stop, flush_group) refl)
    | inl live ↦
        let made = assemble s h (ltb 10000 (length g.requests)) 0 g.requests in
        elim (Result-cases made) [
          | inr (e, failed) ↦ inl (e, rw (live, flush_group, failed) refl)
          | inl (rows, good) ↦ inr (
              rw (live, flush_group, good)
                (ap (λ (r : Batch). hand_over s (s.now h) g (ok r) h)
                  (assemble-ok h (ltb 10000 (length g.requests)) 0 g.requests rows good)))
        ]
  ]

  calls-hand_over :
      (began : ℕ) (g : Group) (h : FlushHistory)
      → calls_of (hand_over s began g (ok (map (row_data s) g.requests)) h).1
        ≡ calls_of h ++ call_for s g ∷ []
  unfolding calls_of hand_over call_for
  calls-hand_over began g h = refl

  Ending-after :
      (g : Group) (gs : List Group) (h h' : FlushHistory)
      → calls_of h' ≡ calls_of h ++ call_for s g ∷ []
      → (r : Option Error × FlushHistory) → Ending s gs h' r
      → Ending s (g ∷ gs) h r
  Ending-after g gs h h' one _ (Ending.complete k all) = Ending.complete k (
      all
      ∙ (ap (λ (cs : List (SchemaInterface × Batch)). cs ++ map (call_for s) gs) one
          ∙ append_assoc (calls_of h) (call_for s g ∷ []) (map (call_for s) gs)))
  Ending-after g gs h h' one _ (Ending.stopped handed left e k parts some_of) =
      Ending.stopped (g ∷ handed) left e k (ap (λ (l : List Group). g ∷ l) parts) (
        some_of
        ∙ (ap (λ (cs : List (SchemaInterface × Batch)). cs ++ map (call_for s) handed) one
            ∙ append_assoc (calls_of h) (call_for s g ∷ []) (map (call_for s) handed)))

  flush_groups-Ending : (gs : List Group) (h : FlushHistory) → Ending s gs h (flush_groups s gs h)
  unfolding flush_groups
  flush_groups-Ending [] h = Ending.complete h (sym (append-nil (calls_of h)))
  flush_groups-Ending (g ∷ gs) h = elim (flush_group-cases g h) [
    | inl (e, stop) ↦
        subst (Ending s (g ∷ gs) h) (sym (rw (stop, flush_groups) stop))
          (Ending.stopped [] (g ∷ gs) e h refl (sym (append-nil (calls_of h))))
    | inr same ↦
        let next = flush_group s g h in
        let one : calls_of next.1 ≡ calls_of h ++ call_for s g ∷ [] =
          ap (λ (r : Option Error × FlushHistory). calls_of r.1) same
          ∙ calls-hand_over (s.now h) g h in
        elim (Option-cases next.0) [
          | inr (e, failed) ↦
              subst (Ending s (g ∷ gs) h)
                (rw (failed, flush_groups) (ap (λ (o : Option Error). (o, next.1)) (sym failed)))
                (Ending.stopped (g ∷ []) gs e next.1 refl one)
          | inl done ↦
              subst (Ending s (g ∷ gs) h) (rw (done, flush_groups) refl)
                (Ending-after g gs h next.1 one _ (flush_groups-Ending gs next.1))
        ]
  ]

  calls-report_latency :
      (now : ℕ) (t : Option ℕ) (h : FlushHistory) → calls_of (report_latency s now t h) ≡ calls_of h
  unfolding report_latency calls_of
  calls-report_latency now none h = refl
  calls-report_latency now (some t) h = refl

  calls-report_latencies :
      (now : ℕ) (items : List (Option QueuedRequest)) (h : FlushHistory)
      → calls_of (report_latencies s now items h) ≡ calls_of h
  unfolding report_latencies
  calls-report_latencies now [] h = refl
  calls-report_latencies now (none ∷ items) h = calls-report_latencies now items h
  calls-report_latencies now (some item ∷ items) h =
      calls-report_latencies now items (report_latency s now item.enqueued_at h)
      ∙ calls-report_latency now item.enqueued_at h

  calls-report_flush :
      (items : List (Option QueuedRequest)) (h : FlushHistory)
      → calls_of (report_flush s items h) ≡ calls_of h
  unfolding report_flush calls_of
  calls-report_flush items h = ground (arith, calls-report_latencies (s.now h) items h)

  calls-report_process :
      (began : ℕ) (r : Option Error × FlushHistory)
      → calls_of (report_process s began r).1 ≡ calls_of r.1
  unfolding report_process calls_of
  calls-report_process began (result, h) = ground arith

  Ending-report_process :
      (groups : List Group) (before : FlushHistory) (began : ℕ) (r : Option Error × FlushHistory)
      → Ending s groups before r
      → Ending s groups before (report_process s began r)
  unfolding report_process
  Ending-report_process groups before began _ (Ending.complete h all) =
      Ending.complete _ (calls-report_process began (none, h) ∙ all)
  Ending-report_process groups before began _ (Ending.stopped handed left e h parts some_of) =
      Ending.stopped handed left e _ parts (calls-report_process began (some e, h) ∙ some_of)

  Ending-before :
      (groups : List Group) (h h' : FlushHistory)
      → calls_of h' ≡ calls_of h
      → (r : Option Error × FlushHistory) → Ending s groups h' r
      → Ending s groups h r
  Ending-before groups h h' same _ (Ending.complete k all) =
      Ending.complete k
        (all ∙ ap (λ (cs : List (SchemaInterface × Batch)). cs ++ map (call_for s) groups) same)
  Ending-before groups h h' same _ (Ending.stopped handed left e k parts some_of) =
      Ending.stopped handed left e k parts
        (some_of ∙ ap (λ (cs : List (SchemaInterface × Batch)). cs ++ map (call_for s) handed) same)

  -- In whatever order the map is walked through, a flush that returns nil has handed each group to the
  -- executor once, with a row for each of its requests in order; a flush that returns an error has
  -- done so for the groups up to some place in that order, and has handed over nothing else.
  pub flush-Ending :
      (items : List (Option QueuedRequest)) (h : FlushHistory)
      → Ending s (s.order (group_requests items)) h (flush s items h)
  unfolding flush
  flush-Ending items h =
      let groups = s.order (group_requests items) in
      let start = report_flush s items h in
      Ending-report_process groups h (s.now h) _ (
        Ending-before groups h start (calls-report_flush items h) _
          (flush_groups-Ending groups start))
