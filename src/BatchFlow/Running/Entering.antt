-- ===== src/BatchFlow/Running/Entering.antt =====
-- Submit of batchflow.go among the steps of a BatchFlow: a call that no other step interrupts.
use batchflow.Prelude.{
  String, ◌≡◌, refl, sym, ap, Bool, false, List, [], ◌∷◌, ◌++◌, Option, none, some,
}
use batchflow.Context.{ContextErr}
use batchflow.Errors.{Error}
use batchflow.BatchFlow.{BatchFlow, Report, Submitted, Selected, submit}
use batchflow.BatchFlow.Entry.{Ending, IsRejected, submit-Ending}
use batchflow.BatchFlow.Running.{Flow, Step, Steps, enter, send}

-- What Submit sees of a flow, beside its reporter.
abbrev pub seen_by_submit : Flow → Bool → List Report → BatchFlow
seen_by_submit f reports_rejections reports = record {
  closed = f.closed;
  reports_rejections = reports_rejections;
  queue = f.queue;
  reports = reports;
}

-- What a call is among the steps of a flow: one that returns nil is a sequence of steps after which the
-- channel holds what the call leaves there, the request is the last that Submit has accepted, and the
-- same callers stand at the select; one that returns an error is no step, and leaves the channel alone.
pub data IsRealised (f : Flow) : Option Submitted → Option Error × BatchFlow → Type 0 where
  accepted :
      (r : Submitted) (b : BatchFlow) (after : Flow)
      → Steps f after
      → after.queue ≡ b.queue
      → after.sent ≡ f.sent ++ r.request ∷ []
      → after.pending ≡ f.pending
      → after.closed ≡ f.closed
      → IsRealised f (some r) (none, b)
  refused :
      (r : Option Submitted) (e : Error) (b : BatchFlow)
      → b.queue ≡ f.queue
      → IsRealised f r (some e, b)

queue-IsRejected :
    (reason : String) (b b' : BatchFlow) → IsRejected reason b b' → b'.queue ≡ b.queue
queue-IsRejected reason b b' (IsRejected.reported on queue closed reports) = queue
queue-IsRejected reason b b' (IsRejected.silent off same) = ap (λ (f : BatchFlow). f.queue) same

module _ (f : Flow) (reports_rejections : Bool) (reports : List Report) where
  realised :
      (r : Option Submitted) (result : Option Error × BatchFlow)
      → f.channel_closed ≡ false
      → Ending (seen_by_submit f reports_rejections reports) r result
      → IsRealised f r result
  realised _ _ channel_open (Ending.accepted r b opened put) =
      let entered : Flow = enter r.request f in
      IsRealised.accepted r b (send r.request f.pending entered)
        (Steps.more f entered _ (Step.enters f r.request opened) (
          Steps.more entered _ _ (Step.sends entered [] f.pending r.request refl channel_open)
            (Steps.stay _)))
        (sym put) refl refl refl
  realised _ _ channel_open (Ending.rejected r e reason b rejected) =
      IsRealised.refused r e b
        (queue-IsRejected reason (seen_by_submit f reports_rejections reports) b rejected)

-- While the channel is open, a call of Submit that no other step interrupts, under any context and
-- however its select ends, is a sequence of steps of the flow: one that returns nil leads to the queue
-- that the call leaves, with the request as the last accepted one and the same callers at the select;
-- one that returns an error takes no step and leaves the queue as it is.
pub submit-IsRealised :
    (f : Flow) (reports_rejections : Bool) (reports : List Report) (ctx_err : Option ContextErr)
    (selected : Selected) (r : Option Submitted)
    → f.channel_closed ≡ false
    → IsRealised f r (submit ctx_err selected r (seen_by_submit f reports_rejections reports))
submit-IsRealised f reports_rejections reports ctx_err selected r channel_open =
    realised f reports_rejections reports r _ channel_open
      (submit-Ending (seen_by_submit f reports_rejections reports) ctx_err selected r)
