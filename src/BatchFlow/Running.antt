-- ===== src/BatchFlow/Running.antt =====
-- The life of a BatchFlow of batchflow.go: the callers of Submit and Close, the goroutine that runs
-- the pipeline, and the one that watches the context, whose atomic steps may follow each other in any
-- order. What the pipeline itself does is that of another package: it takes requests from the channel,
-- and AsyncPerform returns when the channel is closed and empty, or after the context is cancelled.
pub mod Order
pub mod Orderly
pub mod Entering
pub mod Closing
pub mod Panic
pub mod Progress
use batchflow.Prelude.{
  ◌≡◌, Bool, true, false, List, [], ◌∷◌, ◌++◌, Option, none, some, if◌then◌else◌,
}
use batchflow.Context.{ContextErr}
use batchflow.Errors.{Error}
use batchflow.Request.{Request}

-- closeOnce: nobody has called Close, the first caller is between its two statements, or it has left.
pub data Once : Type 0 where
  idle stored left : Once

-- The goroutine that runs the pipeline.
pub data Worker : Type 0 where
  performing : Worker
  returned : Option Error → Worker
  recorded finished : Worker

-- `pending` are the requests of the callers of Submit that stand at its select, `sent` those that a
-- Submit has accepted, `queue` those in the channel, and `taken` those that the pipeline has received.
pub record Flow : Type 0 where
  pub closed : Bool
  pub cancelled : Bool
  pub channel_closed : Bool
  pub panicked : Bool
  pub once : Once
  pub worker : Worker
  pub run_err : Option Error
  pub done : Bool
  pub pending : List Request
  pub sent : List Request
  pub queue : List Request
  pub taken : List Request

-- What newBatchFlow returns.
abbrev pub new_flow : Flow
new_flow = record {
  closed = false;
  cancelled = false;
  channel_closed = false;
  panicked = false;
  once = Once.idle;
  worker = Worker.performing;
  run_err = none;
  done = false;
  pending = [];
  sent = [];
  queue = [];
  taken = [];
}

-- closed.Store(true), of the goroutine that watches the context
abbrev pub watch : Flow → Flow
watch f = record f { closed = true }

-- The two statements of closeOnce.Do.
abbrev pub begin_close : Flow → Flow
begin_close f = record f { closed = true; once = Once.stored }

abbrev pub close_channel : Flow → Flow
close_channel f = record f { channel_closed = true; once = Once.left }

-- A Submit past its checks.
abbrev pub enter : Request → Flow → Flow
enter r f = record f { pending = r ∷ f.pending }

-- The send of the select, and the panic of a send on a closed channel; `rest` are the others that
-- stand there.
abbrev pub send : Request → List Request → Flow → Flow
send r rest f = record f { pending = rest; sent = f.sent ++ r ∷ []; queue = f.queue ++ r ∷ [] }

abbrev pub send_panic : List Request → Flow → Flow
send_panic rest f = record f { pending = rest; panicked = true }

-- The other branch of the select: the context of the caller is done.
abbrev pub give_up : List Request → Flow → Flow
give_up rest f = record f { pending = rest }

-- The pipeline receives.
abbrev pub take_one : Request → List Request → Flow → Flow
take_one r queue f = record f { queue = queue; taken = f.taken ++ r ∷ [] }

-- AsyncPerform returns.
abbrev pub perform_returns : Option Error → Flow → Flow
perform_returns e f = record f { worker = Worker.returned e }

-- setRunErr
abbrev pub set_run_err : Option Error → Flow → Flow
set_run_err e f = record f { run_err = e; worker = Worker.recorded }

-- The deferred close(batchFlow.done).
abbrev pub close_done : Flow → Flow
close_done f = record f { done = true; worker = Worker.finished }

-- getRunErr
abbrev pub get_run_err : Flow → Option Error
get_run_err f = f.run_err

-- Wait, with which Close ends: `none` while it blocks.
unfoldable pub wait : Flow → Option (Option Error)
wait f = if f.done then some (get_run_err f) else none

pub data Step : Flow → Flow → Type 0 where
  cancels : (f : Flow) → Step f (record f { cancelled = true })
  watches : (f : Flow) → f.cancelled ≡ true → Step f (watch f)
  begins_close : (f : Flow) → f.once ≡ Once.idle → Step f (begin_close f)
  closes_channel : (f : Flow) → f.once ≡ Once.stored → Step f (close_channel f)
  enters : (f : Flow) (r : Request) → f.closed ≡ false → Step f (enter r f)
  sends :
      (f : Flow) (before after : List Request) (r : Request)
      → f.pending ≡ before ++ r ∷ after
      → f.channel_closed ≡ false
      → Step f (send r (before ++ after) f)
  panics :
      (f : Flow) (before after : List Request) (r : Request)
      → f.pending ≡ before ++ r ∷ after
      → f.channel_closed ≡ true
      → Step f (send_panic (before ++ after) f)
  gives_up :
      (f : Flow) (before after : List Request) (r : Request)
      → f.pending ≡ before ++ r ∷ after
      → Step f (give_up (before ++ after) f)
  takes :
      (f : Flow) (r : Request) (rest : List Request)
      → f.worker ≡ Worker.performing
      → f.queue ≡ r ∷ rest
      → Step f (take_one r rest f)
  drains :
      (f : Flow) (e : Option Error)
      → f.worker ≡ Worker.performing
      → f.channel_closed ≡ true
      → f.queue ≡ []
      → Step f (perform_returns e f)
  interrupts :
      (f : Flow) (e : Option Error)
      → f.worker ≡ Worker.performing
      → f.cancelled ≡ true
      → Step f (perform_returns e f)
  records : (f : Flow) (e : Option Error) → f.worker ≡ Worker.returned e → Step f (set_run_err e f)
  closes_done : (f : Flow) → f.worker ≡ Worker.recorded → Step f (close_done f)

-- The flows that any order of steps leads to.
pub data IsReachable : Flow → Type 0 where
  start : IsReachable new_flow
  next : (f g : Flow) → IsReachable f → Step f g → IsReachable g

-- Any number of steps.
pub data Steps : Flow → Flow → Type 0 where
  stay : (f : Flow) → Steps f f
  more : (f g k : Flow) → Step f g → Steps g k → Steps f k
