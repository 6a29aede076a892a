-- ===== src/Coalescer/Results.antt =====
-- What KeyCoalescer.Coalesce of coalescer.go returns, for each of its three strategies.
use batchflow.Prelude.{
  ◌≤◌, String, ◌≡◌, refl, false, ◌||◌, List, [], none, some, arith, length, ltb, lookup,
}
use batchflow.Model.{Batch}
use batchflow.Schema.{SchemaInterface, columns}
use batchflow.Context.{Context, IsLive}
use batchflow.Coalescer.{
  CoalesceStrategy, Formatter, KeyCoalescer, start, coalesce_rows, coalesce, key, report,
  is_disabled,
}
use batchflow.Coalescer.Slots.{Slot, rows_of, locate, place_all, IsSupported}
use batchflow.Coalescer.Refinement.{coalesce_rows-Runs}
use batchflow.Coalescer.Order.{tags_of, add_tags, count_tag, tags_of-place_all, count_tag-add_tags}

-- The list of slots that a coalescer makes of a batch.
unfoldable pub slots_of : Formatter → KeyCoalescer → SchemaInterface → Batch → List Slot
unfolding place_all key
slots_of fmt c schema batch = place_all c.strategy (columns schema) (key fmt c schema) batch []

runs_loop :
    (c : KeyCoalescer) (batch : Batch)
    → IsSupported c.strategy
    → 2 ≤ length batch
    → (is_disabled c.strategy || ltb (length batch) 2) ≡ false
unfolding is_disabled
runs_loop c batch s long = not_disabled c.strategy s (ground arith)
  where
    not_disabled :
        (strategy : CoalesceStrategy)
        → IsSupported strategy
        → ltb (length batch) 2 ≡ false
        → (is_disabled strategy || ltb (length batch) 2) ≡ false
    not_disabled CoalesceStrategy.keep_first s e = e
    not_disabled CoalesceStrategy.keep_last s e = e
    not_disabled CoalesceStrategy.merge_present_fields s e = e
    not_disabled CoalesceStrategy.disabled s e = absurd s
    not_disabled (CoalesceStrategy.unsupported t) s e = absurd s

module _ (fmt : Formatter) (c : KeyCoalescer) (schema : SchemaInterface) (batch : Batch)
    (s : IsSupported c.strategy) (long : 2 ≤ length batch) where
  coalesce-eq-report :
      (ctx : Context)
      → coalesce fmt (some c) ctx schema batch
        ≡ report batch
            (coalesce_rows c.strategy (columns schema) (key fmt c schema) ctx batch start)
  unfolding coalesce
  coalesce-eq-report ctx = rw (runs_loop c batch s long)

  -- A supported strategy on a batch of at least two rows under a live context returns no error, and
  -- the rows of the list of slots, which keeps no indices.
  pub coalesce-refines-slots :
      (ctx : Context)
      → IsLive ctx
      → ((coalesce fmt (some c) ctx schema batch).0.batch ≡ rows_of (slots_of fmt c schema batch))
        × ((coalesce fmt (some c) ctx schema batch).1 ≡ none)
  unfolding slots_of report lookup locate
  coalesce-refines-slots ctx live =
      let runs =
        coalesce_rows-Runs c.strategy (columns schema) (key fmt c schema) s batch [] start
          (record { same_rows = refl; same_seen = λ k. refl }) in
      rw (coalesce-eq-report ctx, runs.returns ctx live) (runs.simulates.same_rows, refl)

-- The slots of a batch are in the order of the first rows of their keys, without a repetition.
pub tags_of-slots_of :
    (fmt : Formatter) (c : KeyCoalescer) (schema : SchemaInterface) (batch : Batch)
    → (tags_of (slots_of fmt c schema batch) ≡ add_tags (key fmt c schema) batch [])
      × ((k : String) → count_tag k (tags_of (slots_of fmt c schema batch)) ≤ 1)
unfolding slots_of count_tag
tags_of-slots_of fmt c schema batch =
    let order = tags_of-place_all c.strategy (columns schema) (key fmt c schema) batch [] in
    (order, λ k. rw order (count_tag-add_tags k (key fmt c schema) batch [] (omega arith)))
