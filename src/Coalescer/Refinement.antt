-- ===== src/Coalescer/Refinement.antt =====
-- The loop of Coalesce in coalescer.go, with its map of indices, does what the list of slots does.
use batchflow.Prelude.{◌+◌, String, ◌≡◌, refl, ◌∙◌, List, [], ◌∷◌, Option, none, arith, length}
use batchflow.Model.{Record, Batch}
use batchflow.Context.{Context, IsLive, later}
use batchflow.Errors.{ok}
use batchflow.Coalescer.{CoalesceStrategy, Loop, Outcome, absorb, coalesce_rows}
use batchflow.Coalescer.Slots.{Slot, place, place_all, IsSupported}
use batchflow.Coalescer.Steps.{Simulates, processed, absorb-Steps}

coalesce_rows-cons :
    (strategy : CoalesceStrategy) (cols : List String) (row_key : Record → Option String)
    (ctx : Context) (row : Record) (batch : Batch) (l l' : Loop)
    → ctx 0 ≡ none
    → absorb strategy cols (row_key row) row l ≡ ok l'
    → coalesce_rows strategy cols row_key ctx (row ∷ batch) l
      ≡ coalesce_rows strategy cols row_key (later 1 ctx) batch l'
unfolding coalesce_rows
coalesce_rows-cons strategy cols row_key ctx row batch l l' live step =
    rw (live, coalesce_rows, step)

module _ (strategy : CoalesceStrategy) (cols : List String) (row_key : Record → Option String)
    (h : IsSupported strategy) where
  -- Under a live context the loop goes through every row, and ends with the slots' rows.
  pub record Runs (batch : Batch) (slots : List Slot) (l : Loop) : Type 0 where
    pub last : Loop
    pub returns :
        (ctx : Context)
        → IsLive ctx
        → coalesce_rows strategy cols row_key ctx batch l ≡ Outcome.finished last
    pub simulates : Simulates (place_all strategy cols row_key batch slots) last
    pub counts : processed last ≡ processed l + length batch

  pub coalesce_rows-Runs :
      (batch : Batch) (slots : List Slot) (l : Loop) → Simulates slots l → Runs batch slots l
  unfolding coalesce_rows place_all
  coalesce_rows-Runs [] slots l sim = record {
    last = l;
    returns = λ ctx live. refl;
    simulates = sim;
    counts = omega arith;
  }
  coalesce_rows-Runs (row ∷ batch) slots l sim =
      let first = absorb-Steps cols row slots l sim strategy (row_key row) h in
      let rest =
        coalesce_rows-Runs batch (place strategy cols (row_key row) row slots) first.next
          first.simulates in
      record {
        last = rest.last;
        returns = λ ctx live.
            coalesce_rows-cons strategy cols row_key ctx row batch l first.next (live 0)
              first.returns
            ∙ rest.returns (later 1 ctx) (λ t. live (1 + t));
        simulates = rest.simulates;
        counts = omega (arith, rest.counts, first.counts);
      }
