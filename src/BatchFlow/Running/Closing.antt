-- ===== src/BatchFlow/Running/Closing.antt =====
-- What Close and Wait of batchflow.go promise, under every order of the steps of a BatchFlow.
use batchflow.Prelude.{
  ◌≡◌, refl, sym, ap, ◌∙◌, true, false, List, [], ◌++◌, Option, some, arith, Bool-cases, inl, inr,
}
use mathlib.Core.List.{append-nil}
use batchflow.Errors.{Error}
use batchflow.Request.{Request}
use batchflow.BatchFlow.Running.{Flow, Once, Step, IsReachable, wait}
use batchflow.BatchFlow.Running.Order.{sent-taken}
use batchflow.BatchFlow.Running.Orderly.{IsOrderly, IsReachable-IsOrderly}

wait-done : (f : Flow) (result : Option Error) → wait f ≡ some result → f.done ≡ true
unfolding wait
wait-done f result returned = ground arith

-- Without a cancellation, when Close or Wait returns, the channel is closed and empty, and the pipeline
-- has received, in order, every request that Submit has accepted.
pub wait-taken :
    (f : Flow) (result : Option Error)
    → IsReachable f
    → wait f ≡ some result
    → f.cancelled ≡ false
    → (f.channel_closed ≡ true) × (f.queue ≡ []) × (f.taken ≡ f.sent)
wait-taken f result r returned live =
    let o = IsReachable-IsOrderly f r in
    let finished = wait-done f result returned in
    let (shut, empty) = o.emptied (ground (arith, o.finished, finished)) live in
    let all : f.sent ≡ f.taken =
      sent-taken f r ∙ (ap (λ (l : List Request). f.taken ++ l) empty ∙ append-nil f.taken) in
    (shut, empty, sym all)

-- The statement that closes the channel always finds it open, so it never panics.
pub close_channel-open :
    (f : Flow) → IsReachable f → f.once ≡ Once.stored → f.channel_closed ≡ false
close_channel-open f r here = ground (arith, (IsReachable-IsOrderly f r).channel, here)

run_err-final :
    (f g : Flow)
    → IsReachable f
    → f.done ≡ true
    → Step f g
    → (g.done ≡ true) × (g.run_err ≡ f.run_err)
run_err-final f g r finished step = final g step
  where
    o : IsOrderly f
    o = IsReachable-IsOrderly f r

    final : (g : Flow) → Step f g → (g.done ≡ true) × (g.run_err ≡ f.run_err)
    final _ (Step.cancels _) = (finished, refl)
    final _ (Step.watches _ c) = (finished, refl)
    final _ (Step.begins_close _ c) = (finished, refl)
    final _ (Step.closes_channel _ c) = (finished, refl)
    final _ (Step.enters _ q c) = (finished, refl)
    final _ (Step.sends _ before after q c d) = (finished, refl)
    final _ (Step.panics _ before after q c d) = (finished, refl)
    final _ (Step.gives_up _ before after q c) = (finished, refl)
    final _ (Step.takes _ q rest c d) = (finished, refl)
    final _ (Step.drains _ e c d q) = (finished, refl)
    final _ (Step.interrupts _ e c d) = (finished, refl)
    final _ (Step.records _ e c) = absurd (ground (arith, o.finished))
    final _ (Step.closes_done _ c) = absurd (ground (arith, o.finished))

-- The result of Wait is final: once Wait returns, it returns the same after every further step.
pub wait-final :
    (f g : Flow) (result : Option Error)
    → IsReachable f
    → wait f ≡ some result
    → Step f g
    → wait g ≡ some result
unfolding wait
wait-final f g result r returned step = elim (Bool-cases f.done) [
  | inr running ↦ absurd (ground arith)
  | inl finished ↦
      let (still, same) = run_err-final f g r finished step in
      let before : f.run_err ≡ result = ground arith in ground arith
]
