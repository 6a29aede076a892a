-- ===== src/BatchFlow/Groups.antt =====
-- How the flush function of batchflow.go groups requests, and what rows it makes of them.
use batchflow.Prelude.{
  ℕ, ◌==◌, ◌≡◌, refl, sym, ◌∙◌, Bool, true, false, String, List, [], ◌∷◌, ◌++◌, Option, none, some,
  arith, put, lookup, lookup-put, member, eq_iff, Bool-cases, inl, inr, if◌then◌else◌,
}
use mathlib.Core.List.{append_assoc, append-nil}
use batchflow.Model.{Record, value_at}
use batchflow.Schema.{columns}
use batchflow.Request.{get_ordered_values, ordered}
use batchflow.BatchFlow.Flush.{
  Queued, QueuedRequest, Group, FlushSurroundings, add_request, requests_of, group_all,
  group_requests, fill_row, row_data, request_at,
}

-- The requests with one pointer, in their order.
unfoldable pub with_address : ℕ → List Queued → List Queued
with_address a [] = []
with_address a (q ∷ qs) = let rest = with_address a qs in if q.address == a then q ∷ rest else rest

-- The requests of the first group of a pointer.
unfoldable pub group_of : ℕ → List Group → List Queued
group_of a [] = []
group_of a (g ∷ gs) = let rest = group_of a gs in if g.address == a then g.requests else rest

-- Whether a group has this pointer.
unfoldable pub has_group : ℕ → List Group → Bool
has_group a [] = false
has_group a (g ∷ gs) = let rest = has_group a gs in if g.address == a then true else rest

group_of-add_request :
    (a : ℕ) (q : Queued) (gs : List Group)
    → group_of a (add_request q gs)
      ≡ (if q.address == a then group_of a gs ++ q ∷ [] else group_of a gs)
unfolding group_of add_request
group_of-add_request a q [] = ground arith
group_of-add_request a q (g ∷ gs) = ground (arith, group_of-add_request a q gs)

group_of-group_all :
    (a : ℕ) (qs : List Queued) (gs : List Group)
    → group_of a (group_all qs gs) ≡ group_of a gs ++ with_address a qs
unfolding group_all with_address
group_of-group_all a [] gs = sym (append-nil (group_of a gs))
group_of-group_all a (q ∷ qs) gs =
    group_of-group_all a qs (add_request q gs)
    ∙ ground (
      arith,
      group_of-add_request a q gs,
      append_assoc (group_of a gs) (q ∷ []) (with_address a qs),
    )

-- No two groups have one pointer.
unfoldable pub IsGrouped : List Group → Type 0
unfolding has_group
IsGrouped [] = Unit
IsGrouped (g ∷ gs) = (has_group g.address gs ≡ false) × IsGrouped gs

has_group-add_request :
    (a : ℕ) (q : Queued) (gs : List Group)
    → has_group a (add_request q gs) ≡ (if q.address == a then true else has_group a gs)
unfolding has_group add_request
has_group-add_request a q [] = ground arith
has_group-add_request a q (g ∷ gs) = ground (arith, has_group-add_request a q gs)

IsGrouped-add_request : (q : Queued) (gs : List Group) → IsGrouped gs → IsGrouped (add_request q gs)
unfolding IsGrouped has_group add_request
IsGrouped-add_request q [] h = (refl, tt)
IsGrouped-add_request q (g ∷ gs) (fresh, h) = elim (Bool-cases (g.address == q.address)) [
  | inl same ↦ rw (same, add_request) (fresh, h)
  | inr other ↦
      rw (other, add_request)
        (ground (arith, has_group-add_request g.address q gs), IsGrouped-add_request q gs h)
]

IsGrouped-group_all :
    (qs : List Queued) (gs : List Group) → IsGrouped gs → IsGrouped (group_all qs gs)
unfolding group_all
IsGrouped-group_all [] gs h = h
IsGrouped-group_all (q ∷ qs) gs h =
    IsGrouped-group_all qs (add_request q gs) (IsGrouped-add_request q gs h)

-- Grouping makes one group for each pointer, which has the requests with that pointer in the order
-- of the queue; items without a request are left out.
pub group_requests-with_address :
    (items : List (Option QueuedRequest))
    → IsGrouped (group_requests items)
      × ((a : ℕ) → group_of a (group_requests items) ≡ with_address a (requests_of items))
unfolding group_requests IsGrouped group_of
group_requests-with_address items = (
  IsGrouped-group_all (requests_of items) [] tt,
  λ a. group_of-group_all a (requests_of items) [],
)

lookup-fill_row :
    (values row : Record) (cols : List String) (col : String)
    → lookup col (fill_row cols (ordered values cols) row)
      ≡ (if member col cols then some (value_at values col) else lookup col row)
unfolding fill_row ordered member
lookup-fill_row values row [] col = refl
lookup-fill_row values row (c ∷ cols) col =
    lookup-fill_row values (put c (value_at values c) row) cols col
    ∙ ground (arith, lookup-put c col (value_at values c) row, eq_iff c col, eq_iff col c)

-- The row that the executor is handed for a request has exactly the columns of the request's schema,
-- each with the request's value, which is nil where the request has none.
pub lookup-row_data :
    (s : FlushSurroundings) (q : Queued) (col : String)
    → lookup col (row_data s q)
      ≡ (if member col (columns (s.schemas q.address)) then some (value_at q.values col) else none)
unfolding row_data request_at get_ordered_values lookup
lookup-row_data s q col = lookup-fill_row q.values [] (columns (s.schemas q.address)) col
