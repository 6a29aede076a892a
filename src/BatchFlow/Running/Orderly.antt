-- ===== src/BatchFlow/Running/Orderly.antt =====
-- What every order of the steps of a BatchFlow of batchflow.go keeps true of its two channels.
use batchflow.Prelude.{◌≡◌, refl, Bool, true, false, [], arith}
use batchflow.BatchFlow.Running.{Flow, Once, Worker, Step, IsReachable}

abbrev pub has_left : Once → Bool
has_left Once.left = true
has_left _ = false

abbrev pub is_idle : Once → Bool
is_idle Once.idle = true
is_idle _ = false

abbrev pub has_finished : Worker → Bool
has_finished Worker.finished = true
has_finished _ = false

abbrev pub is_performing : Worker → Bool
is_performing Worker.performing = true
is_performing _ = false

-- The channel is closed by the caller of closeOnce that has left, `done` by the goroutine of the
-- pipeline that has finished; without a cancellation that goroutine leaves AsyncPerform only when the
-- channel is closed and empty, and the flow is closed exactly once Close has been called.
pub record IsOrderly (f : Flow) : Type 0 where
  pub channel : f.channel_closed ≡ has_left f.once
  pub finished : f.done ≡ has_finished f.worker
  pub emptied :
      is_performing f.worker ≡ false
      → f.cancelled ≡ false
      → (f.channel_closed ≡ true) × (f.queue ≡ [])
  pub closed : is_idle f.once ≡ false → f.closed ≡ true
  pub called : f.closed ≡ true → f.cancelled ≡ false → is_idle f.once ≡ false

IsOrderly-Step : (f g : Flow) → Step f g → IsOrderly f → IsOrderly g
IsOrderly-Step f _ (Step.cancels _) o = record {
  channel = o.channel;
  finished = o.finished;
  emptied = λ w c. absurd (ground arith);
  closed = o.closed;
  called = λ c d. absurd (ground arith);
}
IsOrderly-Step f _ (Step.watches _ c) o = record {
  channel = o.channel;
  finished = o.finished;
  emptied = o.emptied;
  closed = λ i. refl;
  called = λ t d. absurd (ground arith);
}
IsOrderly-Step f _ (Step.begins_close _ c) o = record {
  channel = ground (arith, o.channel);
  finished = o.finished;
  emptied = λ w d. absurd (ground (arith, o.channel, o.emptied w d));
  closed = λ i. refl;
  called = λ t d. refl;
}
IsOrderly-Step f _ (Step.closes_channel _ c) o = record {
  channel = refl;
  finished = o.finished;
  emptied = λ w d. (refl, (o.emptied w d).1);
  closed = λ i. ground (arith, o.closed);
  called = λ t d. refl;
}
IsOrderly-Step f _ (Step.enters _ r c) o = record {
  channel = o.channel;
  finished = o.finished;
  emptied = o.emptied;
  closed = o.closed;
  called = o.called;
}
IsOrderly-Step f _ (Step.sends _ before after r c d) o = record {
  channel = o.channel;
  finished = o.finished;
  emptied = λ w n. absurd (ground (arith, o.emptied w n));
  closed = o.closed;
  called = o.called;
}
IsOrderly-Step f _ (Step.panics _ before after r c d) o = record {
  channel = o.channel;
  finished = o.finished;
  emptied = o.emptied;
  closed = o.closed;
  called = o.called;
}
IsOrderly-Step f _ (Step.gives_up _ before after r c) o = record {
  channel = o.channel;
  finished = o.finished;
  emptied = o.emptied;
  closed = o.closed;
  called = o.called;
}
IsOrderly-Step f _ (Step.takes _ r rest c d) o = record {
  channel = o.channel;
  finished = o.finished;
  emptied = λ w n. absurd (ground arith);
  closed = o.closed;
  called = o.called;
}
IsOrderly-Step f _ (Step.drains _ e c d q) o = record {
  channel = o.channel;
  finished = ground (arith, o.finished);
  emptied = λ w n. (d, q);
  closed = o.closed;
  called = o.called;
}
IsOrderly-Step f _ (Step.interrupts _ e c d) o = record {
  channel = o.channel;
  finished = ground (arith, o.finished);
  emptied = λ w n. absurd (ground arith);
  closed = o.closed;
  called = o.called;
}
IsOrderly-Step f _ (Step.records _ e c) o = record {
  channel = o.channel;
  finished = ground (arith, o.finished);
  emptied = λ w n. o.emptied (ground arith) n;
  closed = o.closed;
  called = o.called;
}
IsOrderly-Step f _ (Step.closes_done _ c) o = record {
  channel = o.channel;
  finished = refl;
  emptied = λ w n. o.emptied (ground arith) n;
  closed = o.closed;
  called = o.called;
}

-- Every flow that any order of steps leads to is orderly.
pub IsReachable-IsOrderly : (f : Flow) → IsReachable f → IsOrderly f
IsReachable-IsOrderly _ IsReachable.start = record {
  channel = refl;
  finished = refl;
  emptied = λ w c. absurd (ground arith);
  closed = λ i. absurd (ground arith);
  called = λ c d. absurd (ground arith);
}
IsReachable-IsOrderly _ (IsReachable.next f g r step) =
    IsOrderly-Step f g step (IsReachable-IsOrderly f r)
