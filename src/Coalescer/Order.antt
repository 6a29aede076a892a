-- ===== src/Coalescer/Order.antt =====
-- Which rows the result of Coalesce in coalescer.go keeps, and in which order.
use batchflow.Prelude.{
  ℕ, suc, ◌+◌, ◌≤◌, String, ◌≡◌, refl, ap, ◌∙◌, Bool, true, false, List, [], ◌∷◌, ◌++◌, Option,
  none, some, arith, eq_iff, length, if◌then◌else◌,
}
use batchflow.Model.{Record, Batch}
use batchflow.Coalescer.{CoalesceStrategy}
use batchflow.Coalescer.Slots.{Slot, is_tag, find, alter, combine, fresh, place, place_all, rows_of}

abbrev pub tags_of : List Slot → List (Option String)
tags_of [] = []
tags_of (s ∷ slots) = s.tag ∷ tags_of slots

unfoldable pub has_tag : String → List (Option String) → Bool
has_tag k [] = false
has_tag k (t ∷ tags) = if is_tag k t then true else has_tag k tags

-- A row without a key is always kept, a row with a key if it is the first one.
unfoldable pub add_tag : Option String → List (Option String) → List (Option String)
unfolding has_tag
add_tag none tags = tags ++ none ∷ []
add_tag (some k) tags = if has_tag k tags then tags else tags ++ some k ∷ []

unfoldable pub add_tags :
    (Record → Option String) → Batch → List (Option String) → List (Option String)
unfolding add_tag
add_tags row_key [] tags = tags
add_tags row_key (row ∷ batch) tags = add_tags row_key batch (add_tag (row_key row) tags)

has_tag-tags_of :
    (k : String) (slots : List Slot)
    → has_tag k (tags_of slots) ≡ elim (find k slots) [ none ↦ false | some r ↦ true ]
unfolding has_tag find
has_tag-tags_of k [] = refl
has_tag-tags_of k (s ∷ slots) = ground (arith, has_tag-tags_of k slots)

tags_of-append : (slots more : List Slot) → tags_of (slots ++ more) ≡ tags_of slots ++ tags_of more
tags_of-append [] more = refl
tags_of-append (s ∷ slots) more = ap (λ t. s.tag ∷ t) (tags_of-append slots more)

tags_of-alter :
    (k : String) (f : Record → Record) (slots : List Slot)
    → tags_of (alter k f slots) ≡ tags_of slots
unfolding alter
tags_of-alter k f [] = refl
tags_of-alter k f (s ∷ slots) = ground (arith, tags_of-alter k f slots)

pub length-tags_of : (slots : List Slot) → length (tags_of slots) ≡ length (rows_of slots)
length-tags_of [] = refl
length-tags_of (s ∷ slots) = ap suc (length-tags_of slots)

module _ (strategy : CoalesceStrategy) (cols : List String) where
  tags_of-place :
      (tag : Option String) (row : Record) (slots : List Slot)
      → tags_of (place strategy cols tag row slots) ≡ add_tag tag (tags_of slots)
  unfolding place fresh add_tag
  tags_of-place none row slots = tags_of-append slots (fresh none row)
  tags_of-place (some k) row slots = ground (
    arith,
    has_tag-tags_of k slots,
    tags_of-append slots (fresh (some k) row),
    tags_of-alter k (combine strategy cols row) slots,
  )

  pub tags_of-place_all :
      (row_key : Record → Option String) (batch : Batch) (slots : List Slot)
      → tags_of (place_all strategy cols row_key batch slots)
        ≡ add_tags row_key batch (tags_of slots)
  unfolding place_all add_tags
  tags_of-place_all row_key [] slots = refl
  tags_of-place_all row_key (row ∷ batch) slots =
      tags_of-place_all row_key batch (place strategy cols (row_key row) row slots)
      ∙ ap (add_tags row_key batch) (tags_of-place (row_key row) row slots)

-- How often a key stands in a list of keys.
unfoldable pub count_tag : String → List (Option String) → ℕ
count_tag k [] = 0
count_tag k (t ∷ tags) = if is_tag k t then suc (count_tag k tags) else count_tag k tags

count_tag-append :
    (k : String) (tags more : List (Option String))
    → count_tag k (tags ++ more) ≡ count_tag k tags + count_tag k more
unfolding count_tag
count_tag-append k [] more = omega arith
count_tag-append k (t ∷ tags) more = ground (arith, count_tag-append k tags more)

count_tag-zero :
    (k : String) (tags : List (Option String)) → has_tag k tags ≡ false → count_tag k tags ≡ 0
unfolding count_tag has_tag
count_tag-zero k [] h = refl
count_tag-zero k (t ∷ tags) h = ground (arith, count_tag-zero k tags)

count_tag-add_tag :
    (k : String) (tag : Option String) (tags : List (Option String))
    → count_tag k tags ≤ 1
    → count_tag k (add_tag tag tags) ≤ 1
unfolding add_tag count_tag
count_tag-add_tag k none tags h = ground (arith, count_tag-append k tags (none ∷ []))
count_tag-add_tag k (some j) tags h = ground (
  arith,
  count_tag-append k tags (some j ∷ []),
  count_tag-zero j tags,
  ap (λ (i : String). count_tag i tags) ((eq_iff j k).0 _),
)

pub count_tag-add_tags :
    (k : String) (row_key : Record → Option String) (batch : Batch) (tags : List (Option String))
    → count_tag k tags ≤ 1
    → count_tag k (add_tags row_key batch tags) ≤ 1
unfolding add_tags
count_tag-add_tags k row_key [] tags h = h
count_tag-add_tags k row_key (row ∷ batch) tags h =
    count_tag-add_tags k row_key batch (add_tag (row_key row) tags)
      (count_tag-add_tag k (row_key row) tags h)
