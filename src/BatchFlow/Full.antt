-- ===== src/BatchFlow/Full.antt =====
-- No group of the flush function of batchflow.go is without requests, and no call of the executor
-- without rows.
use batchflow.Prelude.{
  ◌==◌, ◌≡◌, refl, subst, false, List, [], ◌∷◌, ◌++◌, map, All, Bool-cases, inl, inr, is_empty,
}
use mathlib.Core.List.{Permᴰ}
use batchflow.Model.{Batch}
use batchflow.Schema.{SchemaInterface}
use batchflow.BatchFlow.Flush.{Queued, Group, FlushSurroundings, add_request, group_all, row_data}
use batchflow.BatchFlow.Flushed.{call_for}

unfoldable pub HasRequests : Group → Type 0
HasRequests g = is_empty g.requests ≡ false

unfoldable pub HasRows : SchemaInterface × Batch → Type 0
HasRows c = is_empty c.1 ≡ false

All-add_request :
    (q : Queued) (gs : List Group) → All HasRequests gs → All HasRequests (add_request q gs)
unfolding add_request HasRequests
All-add_request q [] h = (refl, tt)
All-add_request q (g ∷ gs) (one, rest) = elim (Bool-cases (g.address == q.address)) [
  | inl same ↦ rw (same, add_request) (longer g.requests, rest)
  | inr other ↦ rw (other, add_request) (one, All-add_request q gs rest)
]
  where
    longer : (qs : List Queued) → is_empty (qs ++ q ∷ []) ≡ false
    longer [] = refl
    longer (x ∷ qs) = refl

pub All-group_all :
    (qs : List Queued) (gs : List Group) → All HasRequests gs → All HasRequests (group_all qs gs)
unfolding group_all
All-group_all [] gs h = h
All-group_all (q ∷ qs) gs h = All-group_all qs (add_request q gs) (All-add_request q gs h)

pub All-Perm : (gs gs' : List Group) → Permᴰ gs gs' → All HasRequests gs → All HasRequests gs'
All-Perm _ _ Permᴰ.nil h = tt
All-Perm (g ∷ gs) (g' ∷ gs') (Permᴰ.cons same p) (one, rest) =
    (subst HasRequests same one, All-Perm gs gs' p rest)
All-Perm (a ∷ c ∷ l) (a' ∷ c' ∷ _) (Permᴰ.swap p q) (one, (two, rest)) =
    (subst HasRequests q two, (subst HasRequests p one, rest))
All-Perm gs gs' (Permᴰ.trans p q) h = All-Perm _ gs' q (All-Perm gs _ p h)

pub All-calls :
    (s : FlushSurroundings) (gs : List Group)
    → All HasRequests gs
    → All HasRows (map (call_for s) gs)
unfolding call_for HasRequests HasRows
All-calls s [] h = tt
All-calls s (g ∷ gs) (one, rest) = (rows g.requests one, All-calls s gs rest)
  where
    rows : (qs : List Queued) → is_empty qs ≡ false → is_empty (map (row_data s) qs) ≡ false
    rows [] h = h
    rows (q ∷ qs) h = refl

pub All-append :
    (xs : List (SchemaInterface × Batch)) (c : SchemaInterface × Batch)
    → All HasRows (xs ++ c ∷ [])
    → All HasRows xs × HasRows c
All-append [] c (one, rest) = (tt, one)
All-append (x ∷ xs) c (one, rest) = let (all, last) = All-append xs c rest in ((one, all), last)
