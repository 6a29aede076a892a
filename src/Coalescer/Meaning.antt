-- ===== src/Coalescer/Meaning.antt =====
-- What the list of slots of Coalesce in coalescer.go holds for each key.
use batchflow.Prelude.{
  String, ◌=~◌, ◌≡◌, refl, ap, ◌∙◌, List, [], ◌∷◌, ◌++◌, Option, none, some, arith, eq_iff,
  if◌then◌else◌,
}
use batchflow.Model.{Record, Batch, clone_record}
use batchflow.Coalescer.{CoalesceStrategy}
use batchflow.Coalescer.Slots.{
  Slot, is_tag, is_tag_same, tags_agree, find, alter, combine, fresh, place, place_all,
}

-- The rows of a batch that have a key, in order.
unfoldable pub with_key : (Record → Option String) → String → Batch → Batch
with_key row_key k [] = []
with_key row_key k (row ∷ batch) =
    if is_tag k (row_key row) then row ∷ with_key row_key k batch else with_key row_key k batch

-- What is left of rows with one key: a copy of the first, combined with each of the others in turn.
unfoldable pub combine_all : CoalesceStrategy → List String → Option Record → Batch → Option Record
combine_all strategy cols acc [] = acc
combine_all strategy cols none (row ∷ rows) =
    combine_all strategy cols (some (clone_record row)) rows
combine_all strategy cols (some r) (row ∷ rows) =
    combine_all strategy cols (some (combine strategy cols row r)) rows

find-append :
    (k : String) (slots more : List Slot)
    → find k (slots ++ more) ≡ elim (find k slots) [ none ↦ find k more | some r ↦ some r ]
unfolding find
find-append k [] more = refl
find-append k (s ∷ slots) more = ground (arith, find-append k slots more)

find-alter :
    (j k : String) (f : Record → Record) (slots : List Slot)
    → find j (alter k f slots)
      ≡ (if k =~ j then elim (find j slots) [ none ↦ none | some r ↦ some (f r) ] else find j slots)
unfolding find alter
find-alter j k f [] = ground arith
find-alter j k f (s ∷ slots) =
    ground (arith, is_tag_same j k s.tag, tags_agree j k s.tag, find-alter j k f slots)

module _ (strategy : CoalesceStrategy) (cols : List String) where
  -- One more row changes what is left of its own key only.
  find-place :
      (k : String) (tag : Option String) (row : Record) (slots : List Slot)
      → find k (place strategy cols tag row slots)
        ≡ combine_all strategy cols (find k slots) (if is_tag k tag then row ∷ [] else [])
  unfolding place fresh combine_all find
  find-place k none row slots = ground (arith, find-append k slots (fresh none row))
  find-place k (some j) row slots = ground (
    arith,
    find-append k slots (fresh (some j) row),
    find-alter k j (combine strategy cols row) slots,
    is_tag_same k j (some j),
    ap (λ (i : String). find i slots) ((eq_iff j k).0 _),
  )

  combine_all-append :
      (acc : Option Record) (rows more : Batch)
      → combine_all strategy cols acc (rows ++ more)
        ≡ combine_all strategy cols (combine_all strategy cols acc rows) more
  unfolding combine_all
  combine_all-append acc [] more = refl
  combine_all-append none (row ∷ rows) more = combine_all-append (some (clone_record row)) rows more
  combine_all-append (some r) (row ∷ rows) more =
      combine_all-append (some (combine strategy cols row r)) rows more

  -- After a batch a key has what is left of the batch's rows with that key.
  pub find-place_all :
      (row_key : Record → Option String) (k : String) (batch : Batch) (slots : List Slot)
      → find k (place_all strategy cols row_key batch slots)
        ≡ combine_all strategy cols (find k slots) (with_key row_key k batch)
  unfolding place_all with_key combine_all
  find-place_all row_key k [] slots = refl
  find-place_all row_key k (row ∷ batch) slots =
      find-place_all row_key k batch (place strategy cols (row_key row) row slots)
      ∙ ap (λ (acc : Option Record). combine_all strategy cols acc (with_key row_key k batch))
          (find-place k (row_key row) row slots)
      ∙ ground (arith, combine_all-append (find k slots) (row ∷ []) (with_key row_key k batch))
