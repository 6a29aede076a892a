-- ===== src/Tests/Running.antt =====
-- A flow with one request from its start to the end of Close, and three calls under a limit of two.
use batchflow.Prelude.{◌≡◌, ◌⊎◌, ◌++◌, refl, true, List, [], ◌∷◌, none, some, arith}
use batchflow.Prelude.Int.{pos}
use batchflow.Request.{Request}
use batchflow.BatchFlow.Running.{
  Flow, Step, Steps, IsReachable, new_flow, begin_close, close_channel, enter, send, take_one,
  perform_returns, set_run_err, close_done, wait,
}
use batchflow.BatchFlow.Running.Order.{sent-taken}
use batchflow.BatchFlow.Running.Closing.{wait-taken}
use batchflow.BatchFlow.Running.Panic.{pending-panics}
use batchflow.BatchFlow.Running.Progress.{Completion, IsReachable-Completion}
use batchflow.Executor.Limit.{
  Caller, Semaphore, Turn, IsRun, IsLimited, acquire, release, IsRun-IsLimited, IsRun-progress,
}
use batchflow.Tests.Data.{schema, user}

abbrev request : Request
request = record { schema = schema; values = user (pos 1) true }

abbrev entered : Flow
entered = enter request new_flow

abbrev sent : Flow
sent = send request [] entered

abbrev shut : Flow
shut = close_channel (begin_close sent)

abbrev drained : Flow
drained = take_one request [] shut

abbrev ended : Flow
ended = close_done (set_run_err none (perform_returns none drained))

entered-IsReachable : IsReachable entered
entered-IsReachable =
    IsReachable.next new_flow _ IsReachable.start (Step.enters new_flow request refl)

sent-IsReachable : IsReachable sent
sent-IsReachable =
    IsReachable.next entered _ entered-IsReachable (Step.sends entered [] [] request refl refl)

shut-IsReachable : IsReachable shut
shut-IsReachable =
    IsReachable.next (begin_close sent) _
      (IsReachable.next sent _ sent-IsReachable (Step.begins_close sent refl))
      (Step.closes_channel (begin_close sent) refl)

ended-IsReachable : IsReachable ended
ended-IsReachable =
    IsReachable.next (set_run_err none (perform_returns none drained)) _
      (IsReachable.next (perform_returns none drained) _
        (IsReachable.next drained _
          (IsReachable.next shut _ shut-IsReachable (Step.takes shut request [] refl refl))
          (Step.drains drained none refl refl refl))
        (Step.records (perform_returns none drained) none refl))
      (Step.closes_done (set_run_err none (perform_returns none drained)) refl)

sent-taken_example : sent.sent ≡ sent.taken ++ sent.queue
sent-taken_example = sent-taken sent sent-IsReachable

ended-wait : wait ended ≡ some none
unfolding wait
ended-wait = refl

wait-taken_example : (ended.channel_closed ≡ true) × (ended.queue ≡ []) × (ended.taken ≡ ended.sent)
wait-taken_example = wait-taken ended none ended-IsReachable ended-wait refl

pending-panics_example : (g : Flow) × Steps entered g × (g.panicked ≡ true)
pending-panics_example = pending-panics entered [] [] request refl refl

IsReachable-Completion_example : Completion shut
IsReachable-Completion_example = IsReachable-Completion shut shut-IsReachable refl

abbrev empty : Semaphore
empty = record { tokens = 0; callers = [] }

abbrev one : Semaphore
one = record { tokens = 0; callers = Caller.waiting ∷ [] }

abbrev admitted : Semaphore
admitted = acquire [] [] one

abbrev full : Semaphore
full = record { tokens = 1; callers = Caller.waiting ∷ Caller.running ∷ [] }

full-IsRun : IsRun 1 full
full-IsRun =
    IsRun.next admitted _
      (IsRun.next one _ (IsRun.next empty _ IsRun.start (Turn.arrives empty))
        (Turn.acquires one [] [] refl (omega arith)))
      (Turn.arrives admitted)

IsRun-IsLimited_example : IsLimited 1 full
IsRun-IsLimited_example = IsRun-IsLimited 1 full full-IsRun

IsRun-progress_example :
    Turn 1 full (acquire [] (Caller.running ∷ []) full)
    ⊎ ((b : List Caller) × (a : List Caller) × Turn 1 full (release b a full))
IsRun-progress_example =
    IsRun-progress 1 full [] (Caller.running ∷ []) (omega arith) full-IsRun refl
