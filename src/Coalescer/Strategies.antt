-- ===== src/Coalescer/Strategies.antt =====
-- What each strategy of Coalesce in coalescer.go leaves of the rows with one key.
use batchflow.Prelude.{
  String, ◌≡◌, refl, ap, ◌∙◌, true, false, List, [], ◌∷◌, Option, none, some, arith, eq_iff, lookup,
  put, lookup-put, member, Option-cases, Bool-cases, inl, inr,
}
use batchflow.Model.{Value, Record, Batch, clone_record}
use batchflow.Coalescer.{CoalesceStrategy, merge_present}
use batchflow.Coalescer.Slots.{combine}
use batchflow.Coalescer.Meaning.{combine_all}

unfoldable pub first_of : Batch → Option Record
first_of [] = none
first_of (row ∷ rows) = some row

unfoldable pub last_of : Batch → Option Record
last_of [] = none
last_of (row ∷ rows) = elim (last_of rows) [ none ↦ some row | some r ↦ some r ]

abbrev pub or_else {ℓ} : {A : Type ℓ} → Option A → Option A → Option A
or_else none o = o
or_else (some a) o = some a

abbrev pub copy : Option Record → Option Record
copy none = none
copy (some row) = some (clone_record row)

-- The value of a column in the last of the rows that have the column.
unfoldable pub latest : String → Batch → Option Value
latest col [] = none
latest col (row ∷ rows) = or_else (latest col rows) (lookup col row)

-- A copy of a record has the same columns with the same values.
pub lookup-clone_record :
    (col : String) (row : Record) → lookup col (clone_record row) ≡ lookup col row
unfolding clone_record lookup
lookup-clone_record col [] = refl
lookup-clone_record col ((k, v) ∷ row) =
    ground (arith, lookup-put k col v (clone_record row), lookup-clone_record col row)

lookup-merge_present_other :
    (col : String) (cols : List String) (row target : Record)
    → member col cols ≡ false
    → lookup col (merge_present cols row target) ≡ lookup col target
unfolding merge_present member
lookup-merge_present_other col [] row target h = refl
lookup-merge_present_other col (c ∷ cols) row target h = elim (Option-cases (lookup c row)) [
  | inl e ↦ rw (e, merge_present) (lookup-merge_present_other col cols row target (ground arith))
  | inr (val, e) ↦
      rw (e, merge_present)
        (lookup-merge_present_other col cols row (put c val target) (ground arith)
          ∙ ground (arith, lookup-put c col val target))
]

lookup-merge_present :
    (col : String) (cols : List String) (row target : Record)
    → member col cols ≡ true
    → lookup col (merge_present cols row target) ≡ or_else (lookup col row) (lookup col target)
unfolding merge_present member
lookup-merge_present col [] row target h = cc
lookup-merge_present col (c ∷ cols) row target h = elim (Option-cases (lookup c row)) [
  | inl e ↦
      rw (e, merge_present)
        (ground (
          arith,
          eq_iff c col,
          ap (λ (k : String). lookup k row) ((eq_iff c col).0 _),
          lookup-merge_present col cols row target,
          lookup-merge_present_other col cols row target,
          Bool-cases (member col cols),
        ))
  | inr (val, e) ↦
      rw (e, merge_present)
        (ground (
          arith,
          eq_iff c col,
          ap (λ (k : String). lookup k row) ((eq_iff c col).0 _),
          lookup-put c col val target,
          lookup-merge_present col cols row (put c val target),
          lookup-merge_present_other col cols row (put c val target),
          Bool-cases (member col cols),
        ))
]

module _ (cols : List String) where
  keep_first_some :
      (r : Record) (rows : Batch)
      → combine_all CoalesceStrategy.keep_first cols (some r) rows ≡ some r
  unfolding combine_all combine
  keep_first_some r [] = refl
  keep_first_some r (row ∷ rows) = keep_first_some r rows

  pub combine_all-keep_first :
      (rows : Batch) → combine_all CoalesceStrategy.keep_first cols none rows ≡ copy (first_of rows)
  unfolding combine_all first_of
  combine_all-keep_first [] = refl
  combine_all-keep_first (row ∷ rows) = keep_first_some (clone_record row) rows

  keep_last_some :
      (r : Record) (rows : Batch)
      → combine_all CoalesceStrategy.keep_last cols (some r) rows
        ≡ or_else (copy (last_of rows)) (some r)
  unfolding combine_all combine last_of
  keep_last_some r [] = refl
  keep_last_some r (row ∷ rows) = ground (arith, keep_last_some (clone_record row) rows)

  pub combine_all-keep_last :
      (rows : Batch) → combine_all CoalesceStrategy.keep_last cols none rows ≡ copy (last_of rows)
  unfolding combine_all last_of
  combine_all-keep_last [] = refl
  combine_all-keep_last (row ∷ rows) = ground (arith, keep_last_some (clone_record row) rows)

  merge_some :
      (col : String) (r r' : Record) (rows : Batch)
      → member col cols ≡ true
      → combine_all CoalesceStrategy.merge_present_fields cols (some r) rows ≡ some r'
      → lookup col r' ≡ or_else (latest col rows) (lookup col r)
  unfolding combine_all combine latest
  merge_some col r r' [] h e = ground arith
  merge_some col r r' (row ∷ rows) h e =
      merge_some col (merge_present cols row r) r' rows h e
      ∙ ground (arith, lookup-merge_present col cols row r)

  pub combine_all-merge :
      (col : String) (r' : Record) (rows : Batch)
      → member col cols ≡ true
      → combine_all CoalesceStrategy.merge_present_fields cols none rows ≡ some r'
      → lookup col r' ≡ latest col rows
  unfolding combine_all latest
  combine_all-merge col r' [] h e = cc
  combine_all-merge col r' (row ∷ rows) h e =
      ground (arith, merge_some col (clone_record row) r' rows, lookup-clone_record col row)
