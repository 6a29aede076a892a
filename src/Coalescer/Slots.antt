-- ===== src/Coalescer/Slots.antt =====
-- The abstract view of the loop of Coalesce in coalescer.go: one list of rows with their keys,
-- in which a row with a known key is combined with the row that has it. No index, no second map.
use batchflow.Prelude.{
  ℕ, zero, suc, String, ◌=~◌, ◌≡◌, refl, ap, sym, Bool, true, false, List, [], ◌∷◌, ◌++◌, Option,
  none, some, arith, eq_iff, length, if◌then◌else◌,
}
use batchflow.Model.{Record, Batch, clone_record}
use batchflow.Coalescer.{CoalesceStrategy, modify, merge_present}

pub record Slot : Type 0 where
  pub tag : Option String
  pub row : Record

abbrev pub rows_of : List Slot → Batch
rows_of [] = []
rows_of (s ∷ slots) = s.row ∷ rows_of slots

abbrev pub is_tag : String → Option String → Bool
is_tag k none = false
is_tag k (some j) = j =~ k

-- Where a key stands.
unfoldable pub locate : String → List Slot → Option ℕ
locate k [] = none
locate k (s ∷ slots) =
    if is_tag k s.tag then some 0 else elim (locate k slots) [ none ↦ none | some i ↦ some (suc i) ]

-- The row of a key.
unfoldable pub find : String → List Slot → Option Record
find k [] = none
find k (s ∷ slots) = if is_tag k s.tag then some s.row else find k slots

unfoldable pub alter : String → (Record → Record) → List Slot → List Slot
alter k f [] = []
alter k f (s ∷ slots) =
    if is_tag k s.tag then record s { row = f s.row } ∷ slots else s ∷ alter k f slots

-- How a strategy combines a row with the row that has its key.
unfoldable pub combine : CoalesceStrategy → List String → Record → Record → Record
unfolding clone_record merge_present
combine CoalesceStrategy.keep_last cols row old = clone_record row
combine CoalesceStrategy.merge_present_fields cols row old = merge_present cols row old
combine _ cols row old = old

unfoldable pub fresh : Option String → Record → List Slot
unfolding clone_record
fresh tag row = record { tag = tag; row = clone_record row } ∷ []

unfoldable pub place :
    CoalesceStrategy → List String → Option String → Record → List Slot → List Slot
unfolding find alter combine fresh
place strategy cols none row slots = slots ++ fresh none row
place strategy cols (some k) row slots = elim (find k slots) [
  | none ↦ slots ++ fresh (some k) row
  | some old ↦ alter k (combine strategy cols row) slots
]

unfoldable pub place_all :
    CoalesceStrategy → List String → (Record → Option String) → Batch → List Slot → List Slot
unfolding place
place_all strategy cols row_key [] slots = slots
place_all strategy cols row_key (row ∷ batch) slots =
    place_all strategy cols row_key batch (place strategy cols (row_key row) row slots)

-- The three strategies that Coalesce carries out.
abbrev pub IsSupported : CoalesceStrategy → Type 0
IsSupported CoalesceStrategy.keep_first = Unit
IsSupported CoalesceStrategy.keep_last = Unit
IsSupported CoalesceStrategy.merge_present_fields = Unit
IsSupported _ = ⊥

pub rows_of-append :
    (slots more : List Slot) → rows_of (slots ++ more) ≡ rows_of slots ++ rows_of more
rows_of-append [] more = refl
rows_of-append (s ∷ slots) more = ap (λ t. s.row ∷ t) (rows_of-append slots more)

pub length-rows_of : (slots : List Slot) → length (rows_of slots) ≡ length slots
length-rows_of [] = refl
length-rows_of (s ∷ slots) = ap suc (length-rows_of slots)

pub locate-find : (k : String) (slots : List Slot) → find k slots ≡ none → locate k slots ≡ none
unfolding locate find
locate-find k [] h = refl
locate-find k (s ∷ slots) h = ground (arith, locate-find k slots)

-- A write at the place of a key is a write through the index that `locate` gives.
pub rows_of-alter :
    (k : String) (f : Record → Record) (slots : List Slot) (i : ℕ)
    → locate k slots ≡ some i
    → rows_of (alter k f slots) ≡ modify f (rows_of slots) i
unfolding locate alter modify
rows_of-alter k f [] i h = ground arith
rows_of-alter k f (s ∷ slots) zero h = ground (arith)
rows_of-alter k f (s ∷ slots) (suc i) h = ground (arith, rows_of-alter k f slots i)

pub locate-alter :
    (j k : String) (f : Record → Record) (slots : List Slot)
    → locate j (alter k f slots) ≡ locate j slots
unfolding locate alter
locate-alter j k f [] = refl
locate-alter j k f (s ∷ slots) = ground (arith, locate-alter j k f slots)

pub is_tag_same :
    (j k : String) (tag : Option String) → (k =~ j) ≡ true → is_tag j tag ≡ is_tag k tag
is_tag_same j k tag e = ap (λ (i : String). is_tag i tag) (sym ((eq_iff k j).0 e))

pub tags_agree :
    (j k : String) (tag : Option String)
    → is_tag k tag ≡ true
    → is_tag j tag ≡ true
    → (k =~ j) ≡ true
tags_agree j k none p q = cc
tags_agree j k (some t) p q = ground (arith, eq_iff t j, eq_iff t k, eq_iff k j)

pub tag_apart :
    (j k : String) (tag : Option String)
    → is_tag k tag ≡ false
    → is_tag j tag ≡ true
    → (k =~ j) ≡ false
tag_apart j k none p q = cc
tag_apart j k (some t) p q = ground (arith, eq_iff t j, eq_iff t k, eq_iff k j)

pub locate-fresh :
    (j k : String) (row : Record) (slots : List Slot)
    → find k slots ≡ none
    → locate j (slots ++ fresh (some k) row)
      ≡ (if k =~ j then some (length slots) else locate j slots)
unfolding locate find fresh
locate-fresh j k row [] h = ground arith
locate-fresh j k row (s ∷ slots) h = ground (arith, tag_apart j k s.tag, locate-fresh j k row slots)

pub locate-fresh-none :
    (j : String) (row : Record) (slots : List Slot)
    → locate j (slots ++ fresh none row) ≡ locate j slots
unfolding locate fresh
locate-fresh-none j row [] = refl
locate-fresh-none j row (s ∷ slots) = ground (arith, locate-fresh-none j row slots)
