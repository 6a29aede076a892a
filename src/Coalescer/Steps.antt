-- ===== src/Coalescer/Steps.antt =====
-- One row of the loop of Coalesce in coalescer.go, with its map of indices, on the list of slots.
use batchflow.Prelude.{
  ℕ, zero, suc, ◌+◌, String, ◌≡◌, refl, ap, sym, ◌∙◌, List, [], ◌∷◌, ◌++◌, Option, none, some,
  arith, length, length-append, lookup, put, lookup-put, Option-cases, inl, inr,
}
use batchflow.Model.{Record, Batch, clone_record}
use batchflow.Errors.{Result, ok}
use batchflow.Coalescer.{
  CoalesceStrategy, Loop, modify, merge_present, absorb, absorb_duplicate, append_row,
}
use batchflow.Coalescer.Slots.{
  Slot, rows_of, locate, find, alter, combine, fresh, place, IsSupported, rows_of-append,
  length-rows_of, locate-find, rows_of-alter, locate-alter, locate-fresh, locate-fresh-none,
}

-- The loop's variables stand for the slots.
pub record Simulates (slots : List Slot) (l : Loop) : Type 0 where
  pub same_rows : l.rows ≡ rows_of slots
  pub same_seen : (k : String) → lookup k l.seen ≡ locate k slots

find-locate : (k : String) (slots : List Slot) → locate k slots ≡ none → find k slots ≡ none
unfolding find locate
find-locate k [] h = refl
find-locate k (s ∷ slots) h = ground (arith, find-locate k slots)

pub length-modify :
    (f : Record → Record) (rows : Batch) (i : ℕ) → length (modify f rows i) ≡ length rows
unfolding modify
length-modify f [] i = refl
length-modify f (r ∷ rows) zero = refl
length-modify f (r ∷ rows) (suc i) = ap suc (length-modify f rows i)

alter-id :
    (k : String) (f : Record → Record) (slots : List Slot)
    → ((r : Record) → f r ≡ r)
    → alter k f slots ≡ slots
unfolding alter
alter-id k f [] h = refl
alter-id k f (s ∷ slots) h = ground (arith, alter-id k f slots, h s.row)

-- The rows that are kept and those that are absorbed, together.
abbrev pub processed : Loop → ℕ
processed l = length l.rows + l.deduplicated + l.merged

-- One row: the loop's body does not fail, and one row more is kept or absorbed.
pub record Steps (slots : List Slot) (n : ℕ) (r : Result Loop) : Type 0 where
  pub next : Loop
  pub returns : r ≡ ok next
  pub simulates : Simulates slots next
  pub counts : processed next ≡ suc n

module _ (cols : List String) (row : Record) (slots : List Slot) (l : Loop)
    (sim : Simulates slots l) where
  append-Steps : Steps (slots ++ fresh none row) (processed l) (ok (append_row l row))
  unfolding append_row fresh
  append-Steps = record {
    next = append_row l row;
    returns = refl;
    simulates = record {
      same_rows =
          rw (rows_of-append slots (fresh none row))
            (ap (λ (rows : Batch). rows ++ clone_record row ∷ []) sim.same_rows);
      same_seen = λ k. sim.same_seen k ∙ sym (locate-fresh-none k row slots);
    };
    counts = omega (arith, length-append l.rows (clone_record row ∷ []));
  }

  append_new-Steps :
      (k : String)
      → find k slots ≡ none
      → Steps
          (slots ++ fresh (some k) row)
          (processed l)
          (ok (append_row (record l { seen = put k (length l.rows) l.seen }) row))
  unfolding append_row fresh
  append_new-Steps k unseen = record {
    next = append_row (record l { seen = put k (length l.rows) l.seen }) row;
    returns = refl;
    simulates = record {
      same_rows =
          rw (rows_of-append slots (fresh (some k) row))
            (ap (λ (rows : Batch). rows ++ clone_record row ∷ []) sim.same_rows);
      same_seen = λ j. ground (
        arith,
        lookup-put k j (length l.rows) l.seen,
        locate-fresh j k row slots,
        ap length sim.same_rows,
        length-rows_of slots,
        sim.same_seen j,
      );
    };
    counts = omega (arith, length-append l.rows (clone_record row ∷ []));
  }

  overwrite-Simulates :
      (f : Record → Record) (k : String) (i : ℕ)
      → locate k slots ≡ some i
      → (dedup merges : ℕ)
      → Simulates (alter k f slots) (record {
        rows = modify f l.rows i;
        seen = l.seen;
        deduplicated = dedup;
        merged = merges;
      })
  overwrite-Simulates f k i at dedup merges = record {
    same_rows =
        ap (λ (rows : Batch). modify f rows i) sim.same_rows ∙ sym (rows_of-alter k f slots i at);
    same_seen = λ j. sim.same_seen j ∙ sym (locate-alter j k f slots);
  }

  absorb_duplicate-Steps :
      (strategy : CoalesceStrategy)
      → IsSupported strategy
      → (k : String) (i : ℕ) → locate k slots ≡ some i
      → Steps
          (alter k (combine strategy cols row) slots)
          (processed l)
          (absorb_duplicate strategy cols l row i)
  unfolding absorb_duplicate combine
  absorb_duplicate-Steps CoalesceStrategy.keep_first h k i at = record {
    next = record l { deduplicated = l.deduplicated + 1 };
    returns = refl;
    simulates =
        rw (alter-id k (combine CoalesceStrategy.keep_first cols row) slots (λ r. refl))
          (record { same_rows = sim.same_rows; same_seen = sim.same_seen });
    counts = omega arith;
  }
  absorb_duplicate-Steps CoalesceStrategy.keep_last h k i at = record {
    next = record l {
      rows = modify (λ _. clone_record row) l.rows i;
      deduplicated = l.deduplicated + 1;
    };
    returns = refl;
    simulates = overwrite-Simulates (λ _. clone_record row) k i at (l.deduplicated + 1) l.merged;
    counts = omega (arith, length-modify (λ _. clone_record row) l.rows i);
  }
  absorb_duplicate-Steps CoalesceStrategy.merge_present_fields h k i at = record {
    next = record l { rows = modify (merge_present cols row) l.rows i; merged = l.merged + 1 };
    returns = refl;
    simulates = overwrite-Simulates (merge_present cols row) k i at l.deduplicated (l.merged + 1);
    counts = omega (arith, length-modify (merge_present cols row) l.rows i);
  }
  absorb_duplicate-Steps CoalesceStrategy.disabled h k i at = absurd h
  absorb_duplicate-Steps (CoalesceStrategy.unsupported s) h k i at = absurd h

  -- The loop's body on one row, whatever its key.
  pub absorb-Steps :
      (strategy : CoalesceStrategy) (tag : Option String)
      → IsSupported strategy
      → Steps (place strategy cols tag row slots) (processed l) (absorb strategy cols tag row l)
  unfolding absorb place
  absorb-Steps strategy none h = append-Steps
  absorb-Steps strategy (some k) h = elim (Option-cases (locate k slots)) [
    | inl e ↦
        rw (find-locate k slots e, place, sim.same_seen k, absorb, e)
          (append_new-Steps k (find-locate k slots e))
    | inr (i, e) ↦ elim (Option-cases (find k slots)) [
      | inl absent ↦ absurd (ground (arith, locate-find k slots absent))
      | inr (old, found) ↦
          rw (found, place, sim.same_seen k, absorb, e) (absorb_duplicate-Steps strategy h k i e)
    ]
  ]
