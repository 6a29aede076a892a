-- ===== src/Executor/Limit.antt =====
-- Many calls of ExecuteBatch of executor.go at one time, which share the semaphore: a channel whose
-- capacity is the limit. A call sends before it is let in and receives when it leaves.
use batchflow.Prelude.{
  ℕ, suc, ◌+◌, ◌-◌, ◌≤◌, ◌<◌, ◌≡◌, ◌⊎◌, refl, ap, ◌∙◌, List, [], ◌∷◌, ◌++◌, arith, inl, inr, ltb,
  ltb→lt, Bool-cases,
}

-- A call at its select, one that is let in, and one that has returned.
pub data Caller : Type 0 where
  waiting running gone : Caller

-- `tokens` is how many elements are in the channel.
pub record Semaphore : Type 0 where
  pub tokens : ℕ
  pub callers : List Caller

unfoldable pub count_running : List Caller → ℕ
count_running [] = 0
count_running (Caller.waiting ∷ cs) = count_running cs
count_running (Caller.running ∷ cs) = suc (count_running cs)
count_running (Caller.gone ∷ cs) = count_running cs

-- case e.semaphore <- struct{}{}
abbrev pub acquire : List Caller → List Caller → Semaphore → Semaphore
acquire before after s = record {
  tokens = s.tokens + 1;
  callers = before ++ Caller.running ∷ after;
}

-- The deferred <-e.semaphore
abbrev pub release : List Caller → List Caller → Semaphore → Semaphore
release before after s = record { tokens = s.tokens - 1; callers = before ++ Caller.gone ∷ after }

-- case <-ctx.Done()
abbrev pub leave : List Caller → List Caller → Semaphore → Semaphore
leave before after s = record { tokens = s.tokens; callers = before ++ Caller.gone ∷ after }

-- A send waits for a free place, a receive for an element.
pub data Turn (limit : ℕ) : Semaphore → Semaphore → Type 0 where
  arrives : (s : Semaphore) → Turn limit s (record s { callers = Caller.waiting ∷ s.callers })
  acquires :
      (s : Semaphore) (before after : List Caller)
      → s.callers ≡ before ++ Caller.waiting ∷ after
      → s.tokens < limit
      → Turn limit s (acquire before after s)
  releases :
      (s : Semaphore) (before after : List Caller)
      → s.callers ≡ before ++ Caller.running ∷ after
      → 1 ≤ s.tokens
      → Turn limit s (release before after s)
  leaves :
      (s : Semaphore) (before after : List Caller)
      → s.callers ≡ before ++ Caller.waiting ∷ after
      → Turn limit s (leave before after s)

pub data IsRun (limit : ℕ) : Semaphore → Type 0 where
  start : IsRun limit (record { tokens = 0; callers = [] })
  next : (s t : Semaphore) → IsRun limit s → Turn limit s t → IsRun limit t

count_running-append :
    (xs ys : List Caller) → count_running (xs ++ ys) ≡ count_running xs + count_running ys
unfolding count_running
count_running-append [] ys = omega arith
count_running-append (Caller.waiting ∷ xs) ys = omega (arith, count_running-append xs ys)
count_running-append (Caller.running ∷ xs) ys = omega (arith, count_running-append xs ys)
count_running-append (Caller.gone ∷ xs) ys = omega (arith, count_running-append xs ys)

count_running-at :
    (before after : List Caller) (c : Caller)
    → count_running (before ++ c ∷ after)
      ≡ count_running before + (count_running (c ∷ []) + count_running after)
unfolding count_running
count_running-at before after Caller.waiting =
    omega (arith, count_running-append before (Caller.waiting ∷ after))
count_running-at before after Caller.running =
    omega (arith, count_running-append before (Caller.running ∷ after))
count_running-at before after Caller.gone =
    omega (arith, count_running-append before (Caller.gone ∷ after))

-- Each element of the channel belongs to a call that is let in.
pub record IsLimited (limit : ℕ) (s : Semaphore) : Type 0 where
  pub held : s.tokens ≡ count_running s.callers
  pub bounded : s.tokens ≤ limit

IsLimited-Turn :
    (limit : ℕ) (s t : Semaphore) → Turn limit s t → IsLimited limit s → IsLimited limit t
unfolding count_running
IsLimited-Turn limit s _ (Turn.arrives _) i = record { held = i.held; bounded = i.bounded }
IsLimited-Turn limit s _ (Turn.acquires _ before after here free) i =
    let was = ap count_running here ∙ count_running-at before after Caller.waiting in
    record {
      held = omega (arith, i.held, was, count_running-at before after Caller.running);
      bounded = omega (arith, free);
    }
IsLimited-Turn limit s _ (Turn.releases _ before after here some_token) i =
    let was = ap count_running here ∙ count_running-at before after Caller.running in
    record {
      held = omega (arith, i.held, was, count_running-at before after Caller.gone);
      bounded = omega (arith, i.bounded);
    }
IsLimited-Turn limit s _ (Turn.leaves _ before after here) i =
    let was = ap count_running here ∙ count_running-at before after Caller.waiting in
    record {
      held = omega (arith, i.held, was, count_running-at before after Caller.gone);
      bounded = i.bounded;
    }

-- Under every order of turns, the calls of ExecuteBatch that are let in at one time are as many as the
-- elements of the channel, and never more than the limit.
pub IsRun-IsLimited : (limit : ℕ) (s : Semaphore) → IsRun limit s → IsLimited limit s
unfolding count_running
IsRun-IsLimited limit _ IsRun.start = record { held = refl; bounded = omega arith }
IsRun-IsLimited limit _ (IsRun.next s t r turn) =
    IsLimited-Turn limit s t turn (IsRun-IsLimited limit s r)

find_running :
    (cs : List Caller)
    → 1 ≤ count_running cs
    → (before : List Caller) × (after : List Caller) × (cs ≡ before ++ Caller.running ∷ after)
unfolding count_running
find_running [] h = absurd (omega (arith, h))
find_running (Caller.running ∷ cs) h = ([], cs, refl)
find_running (Caller.waiting ∷ cs) h =
    let (before, after, same) = find_running cs h in
    (Caller.waiting ∷ before, after, ap (λ (l : List Caller). Caller.waiting ∷ l) same)
find_running (Caller.gone ∷ cs) h =
    let (before, after, same) = find_running cs h in
    (Caller.gone ∷ before, after, ap (λ (l : List Caller). Caller.gone ∷ l) same)

-- With a positive limit no call waits in vain: at any time a call at its select can be let in at once,
-- or one that is let in can leave at once, and the receive with which it leaves never blocks.
pub IsRun-progress :
    (limit : ℕ) (s : Semaphore) (before after : List Caller)
    → 1 ≤ limit
    → IsRun limit s
    → s.callers ≡ before ++ Caller.waiting ∷ after
    → Turn limit s (acquire before after s)
      ⊎ ((b : List Caller) × (a : List Caller) × Turn limit s (release b a s))
IsRun-progress limit s before after some_limit r here =
    let i = IsRun-IsLimited limit s r in
    elim (Bool-cases (ltb s.tokens limit)) [
      | inl free ↦ inl (Turn.acquires s before after here (ltb→lt s.tokens limit free))
      | inr full ↦
          let tokens : 1 ≤ s.tokens = ground arith in
          let (b, a, same) = find_running s.callers (omega (arith, i.held, tokens)) in
          inr (b, a, Turn.releases s b a same tokens)
    ]
