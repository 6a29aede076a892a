-- ===== src/Coalescer/Survivors.antt =====
-- What Coalesce of coalescer.go keeps of the rows that share a key, strategy by strategy.
use batchflow.Prelude.{
  ◌≤◌, String, ◌≡◌, ◌≢◌, refl, sym, ap, subst, ◌∙◌, true, List, [], ◌∷◌, Option, none, some, lookup,
  member, length, Option-cases, inl, inr,
}
use batchflow.Model.{Value, Record, Batch, clone_record}
use batchflow.Schema.{SchemaInterface, columns}
use batchflow.Context.{Context, IsLive}
use batchflow.Coalescer.{CoalesceStrategy, Formatter, KeyCoalescer, key, coalesce}
use batchflow.Coalescer.Slots.{find, rows_of, combine, IsSupported}
use batchflow.Coalescer.Meaning.{with_key, combine_all, find-place_all}
use batchflow.Coalescer.Strategies.{
  first_of, last_of, copy, latest, combine_all-keep_first, combine_all-keep_last, combine_all-merge,
}
use batchflow.Coalescer.Results.{slots_of, coalesce-refines-slots, tags_of-slots_of}
use batchflow.Coalescer.Order.{tags_of, add_tags, count_tag}

-- The rows of a batch that have a key, for a coalescer.
abbrev pub group : Formatter → KeyCoalescer → SchemaInterface → String → Batch → Batch
group fmt c schema k batch = with_key (key fmt c schema) k batch

-- The value of a column in a row that may be missing.
abbrev pub column_of : String → Option Record → Option Value
column_of col none = none
column_of col (some row) = lookup col row

combine_some :
    (cols : List String) (r : Record) (rows : Batch)
    → combine_all CoalesceStrategy.merge_present_fields cols (some r) rows ≢ none
unfolding combine_all
combine_some cols r [] h = cc
combine_some cols r (row ∷ rows) h =
    combine_some cols (combine CoalesceStrategy.merge_present_fields cols row r) rows h

no_rows :
    (cols : List String) (col : String) (rows : Batch)
    → combine_all CoalesceStrategy.merge_present_fields cols none rows ≡ none
    → none ≡ latest col rows
unfolding combine_all latest
no_rows cols col [] h = refl
no_rows cols col (row ∷ rows) h = absurd (combine_some cols (clone_record row) rows h)

column_of-merge :
    (cols : List String) (col : String) (rows : Batch)
    → member col cols ≡ true
    → column_of col (combine_all CoalesceStrategy.merge_present_fields cols none rows)
      ≡ latest col rows
unfolding combine_all latest
column_of-merge cols col rows known =
    elim (Option-cases (combine_all CoalesceStrategy.merge_present_fields cols none rows)) [
      | inl nothing ↦ rw nothing (no_rows cols col rows nothing)
      | inr (survivor, e) ↦ rw e (combine_all-merge cols col survivor rows known e)
    ]

find-slots_of :
    (fmt : Formatter) (c : KeyCoalescer) (schema : SchemaInterface) (k : String) (batch : Batch)
    → find k (slots_of fmt c schema batch)
      ≡ combine_all c.strategy (columns schema) none (group fmt c schema k batch)
unfolding slots_of find
find-slots_of fmt c schema k batch =
    find-place_all c.strategy (columns schema) (key fmt c schema) k batch []

module _ (fmt : Formatter) (c : KeyCoalescer) (schema : SchemaInterface) (batch : Batch)
    (ctx : Context) (long : 2 ≤ length batch) (live : IsLive ctx) where
  rows-slots_of :
      IsSupported c.strategy
      → (coalesce fmt (some c) ctx schema batch).0.batch ≡ rows_of (slots_of fmt c schema batch)
  rows-slots_of s = (coalesce-refines-slots fmt c schema batch s long ctx live).0

  -- Under keep_first, a live context and at least two rows, the rows of the result are those of the
  -- slots, and the slot of each key holds a copy of the first row of the batch that has the key.
  pub coalesce-keep_first :
      (k : String)
      → c.strategy ≡ CoalesceStrategy.keep_first
      → ((coalesce fmt (some c) ctx schema batch).0.batch ≡ rows_of (slots_of fmt c schema batch))
        × (find k (slots_of fmt c schema batch) ≡ copy (first_of (group fmt c schema k batch)))
  coalesce-keep_first k kept = (
    rows-slots_of (subst IsSupported (sym kept) tt),
    find-slots_of fmt c schema k batch
        ∙ ap (λ strategy. combine_all strategy (columns schema) none (group fmt c schema k batch))
            kept
        ∙ combine_all-keep_first (columns schema) (group fmt c schema k batch),
  )

  -- Under keep_last, a live context and at least two rows, the rows of the result are those of the
  -- slots, and the slot of each key holds a copy of the last row of the batch that has the key.
  pub coalesce-keep_last :
      (k : String)
      → c.strategy ≡ CoalesceStrategy.keep_last
      → ((coalesce fmt (some c) ctx schema batch).0.batch ≡ rows_of (slots_of fmt c schema batch))
        × (find k (slots_of fmt c schema batch) ≡ copy (last_of (group fmt c schema k batch)))
  coalesce-keep_last k kept = (
    rows-slots_of (subst IsSupported (sym kept) tt),
    find-slots_of fmt c schema k batch
        ∙ ap (λ strategy. combine_all strategy (columns schema) none (group fmt c schema k batch))
            kept
        ∙ combine_all-keep_last (columns schema) (group fmt c schema k batch),
  )

  -- Under merge_present_fields, a live context and at least two rows, the rows of the result are
  -- those of the slots, and the slot of each key has in each column of the schema the value of the
  -- last row with that key that has the column, and none if no row with that key has it.
  pub coalesce-merge_present_fields :
      (k col : String)
      → c.strategy ≡ CoalesceStrategy.merge_present_fields
      → member col (columns schema) ≡ true
      → ((coalesce fmt (some c) ctx schema batch).0.batch ≡ rows_of (slots_of fmt c schema batch))
        × (column_of col (find k (slots_of fmt c schema batch))
            ≡ latest col (group fmt c schema k batch))
  coalesce-merge_present_fields k col merging known = (
    rows-slots_of (subst IsSupported (sym merging) tt),
    ap (column_of col) (
          find-slots_of fmt c schema k batch
          ∙ ap (λ strategy. combine_all strategy (columns schema) none (group fmt c schema k batch))
              merging)
        ∙ column_of-merge (columns schema) col (group fmt c schema k batch) known,
  )

  -- Under a supported strategy, a live context and at least two rows, the rows of the result are
  -- those of the slots. These stand in the order of the first rows of their keys, with each row
  -- that has no key at its own place, and no key stands there twice.
  pub coalesce-tags_of :
      IsSupported c.strategy
      → ((coalesce fmt (some c) ctx schema batch).0.batch ≡ rows_of (slots_of fmt c schema batch))
        × (tags_of (slots_of fmt c schema batch) ≡ add_tags (key fmt c schema) batch [])
        × ((k : String) → count_tag k (tags_of (slots_of fmt c schema batch)) ≤ 1)
  coalesce-tags_of s =
      let (order, once) = tags_of-slots_of fmt c schema batch in (rows-slots_of s, order, once)
