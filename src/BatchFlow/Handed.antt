-- ===== src/BatchFlow/Handed.antt =====
-- A flush of batchflow.go that succeeds has given every request of the batch to the executor.
use batchflow.Prelude.{
  ℕ, ◌==◌, ◌≡◌, refl, sym, ap, subst, List, [], ◌∷◌, ◌++◌, Option, none, map, arith, Bool-cases,
  inl, inr, ==_iff,
}
use mathlib.Core.List.{Permᴰ, append_assoc, append-nil}
use mathlib.Core.List.Permᴰ
use batchflow.Model.{Record, Batch}
use batchflow.Schema.{SchemaInterface}
use batchflow.Errors.{Error}
use batchflow.BatchFlow.Flush.{
  Queued, QueuedRequest, Group, FlushHistory, FlushSurroundings, add_request, requests_of,
  group_all, group_requests, row_data, flush,
}
use batchflow.BatchFlow.Accepted.{IsAccepted, flush-IsAccepted}
use batchflow.BatchFlow.Flushed.{calls_of, call_for, Ending, flush-Ending}

-- A row with the schema that it goes to.
abbrev pub Handed : Type 0
Handed = SchemaInterface × Record

unfoldable pub label : SchemaInterface → Batch → List Handed
label schema [] = []
label schema (row ∷ rows) = (schema, row) ∷ label schema rows

-- The rows of calls of the executor.
unfoldable pub rows_of : List (SchemaInterface × Batch) → List Handed
unfolding label
rows_of [] = []
rows_of ((schema, batch) ∷ calls) = label schema batch ++ rows_of calls

exchange : (xs ys zs : List Handed) → Permᴰ (xs ++ (ys ++ zs)) (ys ++ (xs ++ zs))
exchange [] ys zs = Permᴰ.refl (ys ++ zs)
exchange (x ∷ xs) ys zs =
    Permᴰ.trans (Permᴰ.cons refl (exchange xs ys zs)) (Permᴰ.symm (Permᴰ.middle x ys (xs ++ zs)))

module _ (s : FlushSurroundings) where
  -- The row of a request, with the request's schema.
  unfoldable pub handed : Queued → Handed
  unfolding row_data
  handed q = (s.schemas q.address, row_data s q)

  abbrev rows_for : List Group → List Handed
  rows_for gs = rows_of (map (call_for s) gs)

  rows_for-Perm : (gs gs' : List Group) → Permᴰ gs gs' → Permᴰ (rows_for gs) (rows_for gs')
  unfolding rows_of
  rows_for-Perm _ _ Permᴰ.nil = Permᴰ.nil
  rows_for-Perm (g ∷ gs) (g' ∷ gs') (Permᴰ.cons same p) =
      subst (λ (k : Group). Permᴰ (rows_for (g ∷ gs)) (rows_for (k ∷ gs'))) same
        (Permᴰ.append_left _ (rows_for-Perm gs gs' p))
  rows_for-Perm (a ∷ b ∷ l) (a' ∷ b' ∷ _) (Permᴰ.swap p q) =
      subst (λ (k : Group). Permᴰ (rows_for (a ∷ b ∷ l)) (rows_for (k ∷ b' ∷ l))) q
        (subst (λ (k : Group). Permᴰ (rows_for (a ∷ b ∷ l)) (rows_for (b ∷ k ∷ l))) p
          (exchange (label (call_for s a).0 (call_for s a).1)
            (label (call_for s b).0 (call_for s b).1) (rows_for l)))
  rows_for-Perm gs gs' (Permᴰ.trans p q) =
      Permᴰ.trans (rows_for-Perm gs _ p) (rows_for-Perm _ gs' q)

  label-append :
      (schema : SchemaInterface) (qs : List Queued) (q : Queued)
      → label schema (map (row_data s) (qs ++ q ∷ []))
        ≡ label schema (map (row_data s) qs) ++ (schema, row_data s q) ∷ []
  unfolding label
  label-append schema [] q = refl
  label-append schema (x ∷ qs) q =
      ap (λ (l : List Handed). (schema, row_data s x) ∷ l) (label-append schema qs q)

  rows_for-add_request :
      (q : Queued) (gs : List Group) → Permᴰ (rows_for (add_request q gs)) (handed q ∷ rows_for gs)
  unfolding add_request rows_of label call_for handed
  rows_for-add_request q [] = Permᴰ.refl _
  rows_for-add_request q (g ∷ gs) = elim (Bool-cases (g.address == q.address)) [
    | inl same ↦
        let own = label (s.schemas g.address) (map (row_data s) g.requests) in
        let entry : Handed = (s.schemas g.address, row_data s q) in
        let address : entry ≡ handed q =
          ap (λ (a : ℕ). (s.schemas a, row_data s q)) ((==_iff g.address q.address).0 same) in
        rw (same, add_request, label-append (s.schemas g.address) g.requests q)
          (subst (λ (l : List Handed). Permᴰ l (handed q ∷ (own ++ rows_for gs)))
            (sym (append_assoc own (entry ∷ []) (rows_for gs)))
            (subst (λ (x : Handed). Permᴰ (own ++ (entry ∷ rows_for gs)) (x ∷ (own ++ rows_for gs)))
              address (Permᴰ.middle entry own (rows_for gs))))
    | inr other ↦
        let own = label (s.schemas g.address) (map (row_data s) g.requests) in
        rw (other, add_request)
          (Permᴰ.trans (Permᴰ.append_left own (rows_for-add_request q gs))
            (Permᴰ.middle (handed q) own (rows_for gs)))
  ]

  rows_for-group_all :
      (qs : List Queued) (gs : List Group)
      → Permᴰ (rows_for (group_all qs gs)) (map handed qs ++ rows_for gs)
  unfolding group_all
  rows_for-group_all [] gs = Permᴰ.refl _
  rows_for-group_all (q ∷ qs) gs = Permᴰ.trans (rows_for-group_all qs (add_request q gs)) (
      Permᴰ.trans (Permᴰ.append_left (map handed qs) (rows_for-add_request q gs))
        (Permᴰ.middle (handed q) (map handed qs) (rows_for gs)))

  rows_for-group_requests :
      (items : List (Option QueuedRequest))
      → Permᴰ (rows_for (group_requests items)) (map handed (requests_of items))
  unfolding group_requests rows_of
  rows_for-group_requests items =
      subst (λ (l : List Handed). Permᴰ (rows_for (group_requests items)) l)
        (append-nil (map handed (requests_of items))) (rows_for-group_all (requests_of items) [])

  pub Ending-none :
      (groups : List Group) (before : FlushHistory) (r : Option Error × FlushHistory)
      → Ending s groups before r
      → r.0 ≡ none
      → calls_of r.1 ≡ calls_of before ++ map (call_for s) groups
  Ending-none groups before _ (Ending.complete h all) good = all
  Ending-none groups before _ (Ending.stopped a b e h p q) good = absurd (ground arith)

  -- A flush that returns nil has handed each request of the batch to the executor exactly once, as a
  -- row for the request's own schema, if the walk through the map visits each entry exactly once; and
  -- the executor has answered every call with nil.
  pub flush-Perm :
      (items : List (Option QueuedRequest))
      → Permᴰ (s.order (group_requests items)) (group_requests items)
      → (flush s items []).0 ≡ none
      → Permᴰ (rows_of (calls_of (flush s items []).1)) (map handed (requests_of items))
        × IsAccepted s (flush s items []).1
  unfolding calls_of
  flush-Perm items walk good = (
    subst
        (λ (cs : List (SchemaInterface × Batch)).
          Permᴰ (rows_of cs) (map handed (requests_of items)))
        (sym (Ending-none (s.order (group_requests items)) [] _ (flush-Ending s items []) good))
        (Permᴰ.trans (rows_for-Perm _ _ walk) (rows_for-group_requests items)),
    flush-IsAccepted s items good,
  )
