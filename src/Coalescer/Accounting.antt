-- ===== src/Coalescer/Accounting.antt =====
-- The statistics of Coalesce in coalescer.go: on success no row goes uncounted.
use batchflow.Prelude.{
  ℕ, suc, ◌+◌, String, ◌≡◌, refl, List, [], ◌∷◌, Option, none, some, arith, length, length-append,
  lookup, Option-cases, Bool-cases, inl, inr, ◌⊎◌, ◌||◌, ltb,
}
use batchflow.Model.{Record, Batch, clone_record}
use batchflow.Schema.{SchemaInterface, columns}
use batchflow.Context.{Context, later}
use batchflow.Errors.{Result-cases, ok, Error}
use batchflow.Coalescer.{
  CoalesceStrategy, CoalesceResult, new_coalesce_result, Formatter, KeyCoalescer, Loop, Outcome,
  start, absorb, absorb_duplicate, append_row, coalesce_rows, coalesce, key, report, is_disabled,
  merge_present,
}
use batchflow.Coalescer.Steps.{processed, length-modify}

module _ (cols : List String) where
  processed-absorb_duplicate :
      (strategy : CoalesceStrategy) (l next : Loop) (row : Record) (idx : ℕ)
      → absorb_duplicate strategy cols l row idx ≡ ok next
      → processed next ≡ suc (processed l)
  unfolding absorb_duplicate
  processed-absorb_duplicate CoalesceStrategy.keep_first l next row idx h = ground arith
  processed-absorb_duplicate CoalesceStrategy.keep_last l next row idx h =
      ground (arith, length-modify (λ _. clone_record row) l.rows idx)
  processed-absorb_duplicate CoalesceStrategy.merge_present_fields l next row idx h =
      ground (arith, length-modify (merge_present cols row) l.rows idx)
  processed-absorb_duplicate CoalesceStrategy.disabled l next row idx h = cc
  processed-absorb_duplicate (CoalesceStrategy.unsupported s) l next row idx h = cc

  processed-absorb :
      (strategy : CoalesceStrategy) (tag : Option String) (row : Record) (l next : Loop)
      → absorb strategy cols tag row l ≡ ok next
      → processed next ≡ suc (processed l)
  unfolding absorb append_row
  processed-absorb strategy none row l next h =
      ground (arith, length-append l.rows (clone_record row ∷ []))
  processed-absorb strategy (some k) row l next h = elim (Option-cases (lookup k l.seen)) [
    | inl e ↦ ground (arith, length-append l.rows (clone_record row ∷ []))
    | inr (idx, e) ↦ processed-absorb_duplicate strategy l next row idx (ground arith)
  ]

  processed-coalesce_rows :
      (strategy : CoalesceStrategy) (row_key : Record → Option String) (batch : Batch)
      (ctx : Context) (l last : Loop)
      → coalesce_rows strategy cols row_key ctx batch l ≡ Outcome.finished last
      → processed last ≡ processed l + length batch
  unfolding coalesce_rows
  processed-coalesce_rows strategy row_key [] ctx l last h = ground arith
  processed-coalesce_rows strategy row_key (row ∷ batch) ctx l last h =
      elim (Option-cases (ctx 0)) [
        | inr (e, done) ↦ cc (rw (done, coalesce_rows) at h)
        | inl live ↦ elim (Result-cases (absorb strategy cols (row_key row) row l)) [
          | inr (e, failed) ↦ cc (rw (live, coalesce_rows, failed) at h)
          | inl (next, kept) ↦
              let rest =
                processed-coalesce_rows strategy row_key batch (later 1 ctx) next last
                  (rw (live, coalesce_rows, kept) at h) in
              omega (arith, rest, processed-absorb strategy (row_key row) row l next kept)
        ]
      ]

Outcome-cases :
    (o : Outcome)
    → ((l : Loop) × (o ≡ Outcome.finished l))
      ⊎ ((l : Loop) × (e : Error) × (o ≡ Outcome.stopped l e))
Outcome-cases (Outcome.finished l) = inl (l, refl)
Outcome-cases (Outcome.stopped l e) = inr (l, e, refl)

-- What the statistics of a result say: nothing of the input is lost.
pub record IsAccounted (input : Batch) (r : CoalesceResult) : Type 0 where
  pub input_counted : r.input_items ≡ length input
  pub output_counted : r.output_items ≡ length r.batch
  pub balanced : r.output_items + r.deduplicated_items + r.merged_items ≡ r.input_items

new_coalesce_result-IsAccounted : (batch : Batch) → IsAccounted batch (new_coalesce_result batch)
unfolding new_coalesce_result
new_coalesce_result-IsAccounted batch = record {
  input_counted = refl;
  output_counted = refl;
  balanced = omega arith;
}

report-IsAccounted :
    (batch : Batch) (o : Outcome)
    → ((last : Loop) → o ≡ Outcome.finished last → processed last ≡ length batch)
    → (report batch o).1 ≡ none
    → IsAccounted batch (report batch o).0
unfolding report new_coalesce_result
report-IsAccounted batch (Outcome.finished l) counts h = record {
  input_counted = refl;
  output_counted = refl;
  balanced = counts l refl;
}
report-IsAccounted batch (Outcome.stopped l e) counts h = cc

-- Whenever KeyCoalescer.Coalesce returns no error, whatever the strategy, the keys and the context,
-- the input rows are the output rows with the deduplicated and the merged ones.
pub coalesce-IsAccounted :
    (fmt : Formatter) (c : Option KeyCoalescer) (ctx : Context) (schema : SchemaInterface)
    (batch : Batch)
    → (coalesce fmt c ctx schema batch).1 ≡ none
    → IsAccounted batch (coalesce fmt c ctx schema batch).0
unfolding coalesce
coalesce-IsAccounted fmt none ctx schema batch h = new_coalesce_result-IsAccounted batch
coalesce-IsAccounted fmt (some c) ctx schema batch h =
    elim (Bool-cases (is_disabled c.strategy || ltb (length batch) 2)) [
      | inl short ↦ rw (short, coalesce) (new_coalesce_result-IsAccounted batch)
      | inr long ↦
          rw (long, coalesce)
            (report-IsAccounted batch
              (coalesce_rows c.strategy (columns schema) (key fmt c schema) ctx batch start)
              (λ last e. omega (
                arith,
                processed-coalesce_rows (columns schema) c.strategy (key fmt c schema) batch ctx
                    start last e,
              ))
              (rw (long, coalesce) at h))
    ]
