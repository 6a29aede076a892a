-- ===== src/BatchFlow/Running/Order.antt =====
-- Requests through a running BatchFlow of batchflow.go: none is lost, doubled or overtaken.
use batchflow.Prelude.{◌≡◌, refl, sym, ap, ◌∙◌, List, [], ◌∷◌, ◌++◌}
use mathlib.Core.List.{append_assoc}
use batchflow.Request.{Request}
use batchflow.BatchFlow.Running.{Flow, Step, IsReachable}

-- What Submit has accepted is what the pipeline has received and then what waits in the channel.
IsInOrder : Flow → Type 0
IsInOrder f = f.sent ≡ f.taken ++ f.queue

IsInOrder-Step : (f g : Flow) → Step f g → IsInOrder f → IsInOrder g
unfolding IsInOrder
IsInOrder-Step f _ (Step.cancels _) h = h
IsInOrder-Step f _ (Step.watches _ c) h = h
IsInOrder-Step f _ (Step.begins_close _ c) h = h
IsInOrder-Step f _ (Step.closes_channel _ c) h = h
IsInOrder-Step f _ (Step.enters _ r c) h = h
IsInOrder-Step f _ (Step.sends _ before after r c d) h =
    ap (λ (l : List Request). l ++ r ∷ []) h ∙ append_assoc f.taken f.queue (r ∷ [])
IsInOrder-Step f _ (Step.panics _ before after r c d) h = h
IsInOrder-Step f _ (Step.gives_up _ before after r c) h = h
IsInOrder-Step f _ (Step.takes _ r rest c d) h =
    h ∙ (ap (λ (l : List Request). f.taken ++ l) d ∙ sym (append_assoc f.taken (r ∷ []) rest))
IsInOrder-Step f _ (Step.drains _ e c d q) h = h
IsInOrder-Step f _ (Step.interrupts _ e c d) h = h
IsInOrder-Step f _ (Step.records _ e c) h = h
IsInOrder-Step f _ (Step.closes_done _ c) h = h

-- At any time, under every order of steps, the requests that Submit has accepted are, in their order,
-- those that the pipeline has received, followed by those that stand in the channel.
pub sent-taken : (f : Flow) → IsReachable f → f.sent ≡ f.taken ++ f.queue
unfolding IsInOrder
sent-taken _ IsReachable.start = refl
sent-taken _ (IsReachable.next f g r step) = IsInOrder-Step f g step (sent-taken f r)
