-- ===== src/Context.antt =====
-- Go's context.Context, as far as the code reads it: what `ctx.Err()` returns when it is asked. A
-- context is a function of the moment of asking, and the moments of one call are numbered in order.
use batchflow.Prelude.{ℕ, ◌+◌, ◌≤◌, ◌≡◌, Option, none, some}

pub data ContextErr : Type 0 where
  canceled deadline_exceeded : ContextErr

abbrev pub Context : Type 0
Context = ℕ → Option ContextErr

-- context.Background()
abbrev pub background : Context
background t = none

-- The context as it is seen `n` moments later.
abbrev pub later : ℕ → Context → Context
later n ctx t = ctx (n + t)

abbrev pub IsLive : Context → Type 0
IsLive ctx = (t : ℕ) → ctx t ≡ none

-- What the documentation of context promises: a context that is done stays done, for one reason.
abbrev pub Persists : Context → Type 0
Persists ctx = (s t : ℕ) (e : ContextErr) → s ≤ t → ctx s ≡ some e → ctx t ≡ some e
