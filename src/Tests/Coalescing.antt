-- ===== src/Tests/Coalescing.antt =====
-- Coalescing three rows, two of which have one id.
use batchflow.Prelude.{
  ◌≤◌, String, ◌≡◌, ◌↔◌, refl, true, false, [], ◌∷◌, none, some, All, lookup, put, arith, member,
}
use batchflow.Prelude.Int.{pos}
use batchflow.Model.{clone_record}
use batchflow.Context.{background}
use batchflow.Schema.{columns}
use batchflow.Coalescer.{CoalesceStrategy, coalesce, absorb, key, record_key}
use batchflow.Coalescer.Slots.{rows_of, find}
use batchflow.Coalescer.KeyLaws.{SameAt, record_key-eq_iff}
use batchflow.Coalescer.Strategies.{latest, first_of, last_of, copy}
use batchflow.Coalescer.Order.{tags_of, add_tags, count_tag}
use batchflow.Coalescer.Accounting.{IsAccounted, coalesce-IsAccounted}
use batchflow.Coalescer.Results.{slots_of, coalesce-refines-slots}
use batchflow.Coalescer.Survivors.{
  group, column_of, coalesce-keep_first, coalesce-keep_last, coalesce-merge_present_fields,
  coalesce-tags_of,
}
use batchflow.Tests.Data.{formatter, formatter-IsFaithful, users, user, schema, by_id}

abbrev key_of_one : String
key_of_one = record_key formatter (user (pos 1) true) ("id" ∷ [])

coalesce-refines-slots_example :
    ((coalesce formatter (some (by_id CoalesceStrategy.keep_last)) background schema users).0.batch
      ≡ rows_of (slots_of formatter (by_id CoalesceStrategy.keep_last) schema users))
    × ((coalesce formatter (some (by_id CoalesceStrategy.keep_last)) background schema users).1
        ≡ none)
coalesce-refines-slots_example =
    coalesce-refines-slots formatter (by_id CoalesceStrategy.keep_last) schema users tt
      (omega arith) background (λ t. refl)

-- The last of the two rows stands where the first one stood.
kept_last :
    rows_of (slots_of formatter (by_id CoalesceStrategy.keep_last) schema users)
    ≡ clone_record (user (pos 1) false) ∷ clone_record (user (pos 0) true) ∷ []
unfolding slots_of record_key lookup put clone_record
kept_last = refl

coalesce-tags_of_example :
    ((coalesce formatter (some (by_id CoalesceStrategy.keep_first)) background schema users).0.batch
      ≡ rows_of (slots_of formatter (by_id CoalesceStrategy.keep_first) schema users))
    × (tags_of (slots_of formatter (by_id CoalesceStrategy.keep_first) schema users)
        ≡ add_tags (key formatter (by_id CoalesceStrategy.keep_first) schema) users [])
    × ((k : String)
        → count_tag k
            (tags_of (slots_of formatter (by_id CoalesceStrategy.keep_first) schema users))
          ≤ 1)
coalesce-tags_of_example =
    coalesce-tags_of formatter (by_id CoalesceStrategy.keep_first) schema users background
      (omega arith) (λ t. refl) tt

coalesce-IsAccounted_example :
    IsAccounted users
      (coalesce formatter (some (by_id CoalesceStrategy.keep_first)) background schema users).0
unfolding coalesce absorb lookup put record_key
coalesce-IsAccounted_example =
    coalesce-IsAccounted formatter (some (by_id CoalesceStrategy.keep_first)) background schema
      users refl

record_key-eq_iff_example :
    (record_key formatter (user (pos 1) true) ("id" ∷ [])
      ≡ record_key formatter (user (pos 1) false) ("id" ∷ []))
    ↔ All (SameAt formatter (user (pos 1) true) (user (pos 1) false)) ("id" ∷ [])
record_key-eq_iff_example =
    record_key-eq_iff formatter (user (pos 1) true) (user (pos 1) false) ("id" ∷ [])
      formatter-IsFaithful

coalesce-keep_first_example :
    ((coalesce formatter (some (by_id CoalesceStrategy.keep_first)) background schema users).0.batch
      ≡ rows_of (slots_of formatter (by_id CoalesceStrategy.keep_first) schema users))
    × (find key_of_one (slots_of formatter (by_id CoalesceStrategy.keep_first) schema users)
        ≡ copy (
            first_of (group formatter (by_id CoalesceStrategy.keep_first) schema key_of_one users)))
coalesce-keep_first_example =
    coalesce-keep_first formatter (by_id CoalesceStrategy.keep_first) schema users background
      (omega arith) (λ t. refl) key_of_one refl

coalesce-keep_last_example :
    ((coalesce formatter (some (by_id CoalesceStrategy.keep_last)) background schema users).0.batch
      ≡ rows_of (slots_of formatter (by_id CoalesceStrategy.keep_last) schema users))
    × (find key_of_one (slots_of formatter (by_id CoalesceStrategy.keep_last) schema users)
        ≡ copy
            (last_of (group formatter (by_id CoalesceStrategy.keep_last) schema key_of_one users)))
coalesce-keep_last_example =
    coalesce-keep_last formatter (by_id CoalesceStrategy.keep_last) schema users background
      (omega arith) (λ t. refl) key_of_one refl

coalesce-merge_present_fields_example :
    ((coalesce formatter
        (some (by_id CoalesceStrategy.merge_present_fields))
        background
        schema
        users).0.batch
      ≡ rows_of (slots_of formatter (by_id CoalesceStrategy.merge_present_fields) schema users))
    × (column_of "active" (
          find key_of_one
            (slots_of formatter (by_id CoalesceStrategy.merge_present_fields) schema users))
        ≡ latest "active"
            (group formatter (by_id CoalesceStrategy.merge_present_fields) schema key_of_one users))
unfolding member columns
coalesce-merge_present_fields_example =
    coalesce-merge_present_fields formatter (by_id CoalesceStrategy.merge_present_fields) schema
      users background (omega arith) (λ t. refl) key_of_one "active" refl refl
