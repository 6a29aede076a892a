-- ===== src/BatchFlow/Running/Progress.antt =====
-- Close of batchflow.go cannot be stuck: the steps that its Wait waits for are always possible.
use batchflow.Prelude.{◌≡◌, refl, ◌∙◌, Bool, true, false, List, [], ◌∷◌, Option, none, arith}
use batchflow.Errors.{Error}
use batchflow.Request.{Request}
use batchflow.BatchFlow.Running.{
  Flow, Once, Worker, Step, IsReachable, take_one, perform_returns, set_run_err, close_done,
  close_channel,
}
use batchflow.BatchFlow.Running.Orderly.{has_finished, is_idle, IsOrderly, IsReachable-IsOrderly}

-- The steps of Close and of the goroutine that runs the pipeline: no caller of Submit moves, and the
-- context is not cancelled, nor is a cancellation noticed.
abbrev pub is_own : (f g : Flow) → Step f g → Bool
is_own _ _ (Step.closes_channel f c) = true
is_own _ _ (Step.takes f r rest c d) = true
is_own _ _ (Step.drains f e c d q) = true
is_own _ _ (Step.records f e c) = true
is_own _ _ (Step.closes_done f c) = true
is_own _ _ _ = false

-- Any number of such steps.
pub data OwnSteps : Flow → Flow → Type 0 where
  stay : (f : Flow) → OwnSteps f f
  more : (f g k : Flow) (step : Step f g) → is_own f g step ≡ true → OwnSteps g k → OwnSteps f k

-- Own steps of the flow after which `done` is closed and no caller of Submit has moved.
abbrev pub Completion : Flow → Type 0
Completion f =
    (g : Flow) × OwnSteps f g × (g.done ≡ true) × (g.pending ≡ f.pending) × (g.sent ≡ f.sent)

after :
    (f g : Flow) (step : Step f g)
    → is_own f g step ≡ true
    → g.pending ≡ f.pending
    → g.sent ≡ f.sent
    → Completion g
    → Completion f
after f g step own same kept (k, steps, done, pending, sent) =
    (k, OwnSteps.more f g k step own steps, done, pending ∙ same, sent ∙ kept)

recorded-Completion : (f : Flow) → f.worker ≡ Worker.recorded → Completion f
recorded-Completion f w = (
  close_done f,
  OwnSteps.more f _ _ (Step.closes_done f w) refl (OwnSteps.stay _),
  refl,
  refl,
  refl,
)

returned-Completion : (f : Flow) (e : Option Error) → f.worker ≡ Worker.returned e → Completion f
returned-Completion f e w =
    after f (set_run_err e f) (Step.records f e w) refl refl refl
      (recorded-Completion (set_run_err e f) refl)

performing-Completion :
    (queue : List Request) (f : Flow)
    → f.worker ≡ Worker.performing
    → f.channel_closed ≡ true
    → f.queue ≡ queue
    → Completion f
performing-Completion [] f w shut q =
    after f (perform_returns none f) (Step.drains f none w shut q) refl refl refl
      (returned-Completion (perform_returns none f) none refl)
performing-Completion (r ∷ queue) f w shut q =
    after f (take_one r queue f) (Step.takes f r queue w q) refl refl refl
      (performing-Completion queue (take_one r queue f) w shut refl)

closed-Completion :
    (f : Flow) (w : Worker)
    → f.worker ≡ w
    → f.done ≡ has_finished w
    → f.channel_closed ≡ true
    → Completion f
closed-Completion f Worker.performing w done shut = performing-Completion f.queue f w shut refl
closed-Completion f (Worker.returned e) w done shut = returned-Completion f e w
closed-Completion f Worker.recorded w done shut = recorded-Completion f w
closed-Completion f Worker.finished w done shut = (f, OwnSteps.stay f, done, refl, refl)

called-Completion :
    (f : Flow) (once : Once) → f.once ≡ once → is_idle once ≡ false → IsOrderly f → Completion f
called-Completion f Once.idle same c o = absurd (ground arith)
called-Completion f Once.stored same c o =
    after f (close_channel f) (Step.closes_channel f same) refl refl refl
      (closed-Completion (close_channel f) f.worker refl o.finished refl)
called-Completion f Once.left same c o =
    closed-Completion f f.worker refl o.finished (ground (arith, o.channel))

-- Whatever has happened, once Close has been called, steps of Close and of the goroutine of the pipeline
-- alone can lead to the end of the pipeline, for which Close and Wait wait: in them no Submit moves,
-- nothing more is accepted, and the context is neither cancelled nor found to be.
pub IsReachable-Completion : (f : Flow) → IsReachable f → is_idle f.once ≡ false → Completion f
IsReachable-Completion f r called =
    called-Completion f f.once refl called (IsReachable-IsOrderly f r)
