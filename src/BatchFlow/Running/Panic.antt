-- ===== src/BatchFlow/Running/Panic.antt =====
-- When a send of Submit in batchflow.go meets a channel that Close has closed.
use batchflow.Prelude.{◌≡◌, refl, true, List, ◌∷◌, ◌++◌, arith}
use batchflow.Request.{Request}
use batchflow.BatchFlow.Running.{
  Flow, Once, Step, Steps, IsReachable, begin_close, close_channel, send_panic,
}
use batchflow.BatchFlow.Running.Orderly.{has_left, IsReachable-IsOrderly}

-- If Close has not been called and a Submit stands at its select, then some order of steps makes that
-- Submit panic: Close runs first, and the send comes after it.
pub pending-panics :
    (f : Flow) (before after : List Request) (r : Request)
    → f.once ≡ Once.idle
    → f.pending ≡ before ++ r ∷ after
    → (g : Flow) × Steps f g × (g.panicked ≡ true)
pending-panics f before after r idle waits =
    let stored = begin_close f in
    let left = close_channel stored in
    (
      send_panic (before ++ after) left,
      Steps.more f stored _ (Step.begins_close f idle) (
          Steps.more stored left _ (Step.closes_channel stored refl)
            (Steps.more left _ _ (Step.panics left before after r waits refl) (Steps.stay _))),
      refl,
    )

IsSafe : Flow → Type 0
IsSafe f = f.panicked ≡ true → f.channel_closed ≡ true

IsSafe-Step : (f g : Flow) → Step f g → IsSafe f → IsSafe g
unfolding IsSafe
IsSafe-Step f _ (Step.cancels _) s = s
IsSafe-Step f _ (Step.watches _ c) s = s
IsSafe-Step f _ (Step.begins_close _ c) s = s
IsSafe-Step f _ (Step.closes_channel _ c) s = λ p. refl
IsSafe-Step f _ (Step.enters _ r c) s = s
IsSafe-Step f _ (Step.sends _ before after r c d) s = s
IsSafe-Step f _ (Step.panics _ before after r c d) s = λ p. d
IsSafe-Step f _ (Step.gives_up _ before after r c) s = s
IsSafe-Step f _ (Step.takes _ r rest c d) s = s
IsSafe-Step f _ (Step.drains _ e c d q) s = s
IsSafe-Step f _ (Step.interrupts _ e c d) s = s
IsSafe-Step f _ (Step.records _ e c) s = s
IsSafe-Step f _ (Step.closes_done _ c) s = s

IsReachable-IsSafe : (f : Flow) → IsReachable f → IsSafe f
unfolding IsSafe
IsReachable-IsSafe _ IsReachable.start = λ p. absurd (ground arith)
IsReachable-IsSafe _ (IsReachable.next f g r step) = IsSafe-Step f g step (IsReachable-IsSafe f r)

-- A flow panics only after Close has closed the channel; a cancellation alone never makes it panic.
pub panicked-has_left : (f : Flow) → IsReachable f → f.panicked ≡ true → has_left f.once ≡ true
unfolding IsSafe
panicked-has_left f r p =
    ground (arith, (IsReachable-IsOrderly f r).channel, IsReachable-IsSafe f r p)
