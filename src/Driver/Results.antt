-- ===== src/Driver/Results.antt =====
-- GenerateInsertSQL of driver.go as a whole: its rows, its arguments, its placeholders, its cache.
use batchflow.Prelude.{
  ℕ, ◌≤◌, ◌<◌, ◌≡◌, refl, sym, ◌∙◌, subst, String, List, [], Option, none, some, is_empty, length,
  count_char, arith, Bool-cases, inl, inr,
}
use batchflow.Model.{Value, Batch}
use batchflow.Schema.{SchemaInterface, SqlSchema, ConflictStrategy, with_defaults}
use batchflow.Context.{Context, later}
use batchflow.Errors.{Result, Result-cases, ok, err, Error}
use batchflow.Coalescer.{
  Formatter, CoalesceResult, Coalescer, CoalesceStrategy, new_coalesce_result, new_key_coalescer,
}
use batchflow.Coalescer.Accounting.{IsAccounted, coalesce-IsAccounted}
use batchflow.Driver.{
  new_sql_coalescer, coalescer_for, keep_all, dedup_outcome, deduplicate_sql_rows_ctx,
  prepare_outcome, prepare_sql_rows_and_args, all_args, sql_conflict_columns,
}
use batchflow.Driver.Columns.{IsLaidOut, all_args-IsLaidOut}
use batchflow.Driver.Placeholders.{Cache, generate_placeholders, question_marks, dollar_marks}
use batchflow.Driver.Caching.{word, plain, IsSound, generate_placeholders-eq-plain}
use batchflow.Driver.Counts.{count_question_marks, count_dollar_marks}
use batchflow.Driver.Statements.{Renderer, Switch, build, generate_insert_sql}

keep_all-IsAccounted :
    (ctx : Context) (s : SchemaInterface) (batch : Batch)
    → IsAccounted batch (keep_all ctx s batch).0
unfolding keep_all new_coalesce_result
keep_all-IsAccounted ctx s batch = record {
  input_counted = refl;
  output_counted = refl;
  balanced = omega arith;
}

abbrev Accounts : Coalescer → Type 0
Accounts c =
    (ctx : Context) (s : SchemaInterface) (batch : Batch)
    → (c ctx s batch).1 ≡ none
    → IsAccounted batch (c ctx s batch).0

coalescer_for-Accounts :
    (fmt : Formatter) (strategy : ConflictStrategy) (cols : List String)
    → Accounts (coalescer_for fmt strategy cols)
unfolding coalescer_for
coalescer_for-Accounts fmt ConflictStrategy.ignore cols ctx s batch h =
    coalesce-IsAccounted fmt (some (new_key_coalescer CoalesceStrategy.keep_first cols)) ctx s batch
      h
coalescer_for-Accounts fmt ConflictStrategy.replace cols ctx s batch h =
    coalesce-IsAccounted fmt (some (new_key_coalescer CoalesceStrategy.keep_last cols)) ctx s batch
      h
coalescer_for-Accounts fmt ConflictStrategy.update cols ctx s batch h =
    coalesce-IsAccounted fmt (some (new_key_coalescer CoalesceStrategy.merge_present_fields cols))
      ctx s batch h
coalescer_for-Accounts fmt (ConflictStrategy.other n) cols ctx s batch h =
    keep_all-IsAccounted ctx s batch

new_sql_coalescer-Accounts :
    (fmt : Formatter) (schema : SqlSchema) → Accounts (new_sql_coalescer fmt (some schema))
unfolding new_sql_coalescer
new_sql_coalescer-Accounts fmt schema ctx s batch =
    elim (Bool-cases (with_defaults schema.operation_config).deduplicate_by_conflict_columns) [
      | inl on ↦
          rw (on, new_sql_coalescer)
            (coalescer_for-Accounts fmt (with_defaults schema.operation_config).conflict_strategy
              (sql_conflict_columns schema) ctx s batch)
      | inr off ↦ rw (off, new_sql_coalescer) (λ h. keep_all-IsAccounted ctx s batch)
    ]

-- What a successful preparation says of the rows and of the arguments.
pub record IsPrepared (schema : SqlSchema) (batch rows : Batch) (args : List Value) : Type 0 where
  pub fewer : length rows ≤ length batch
  pub laid : IsLaidOut schema.columns rows args

pair_of : {p q : Batch × List Value} → ok p ≡ ok q → p ≡ q
pair_of e = cc

prepare_outcome-IsPrepared :
    (schema : SqlSchema) (batch rows : Batch) (args : List Value) (ctx : Context)
    (r : CoalesceResult × Option Error)
    → (r.1 ≡ none → IsAccounted batch r.0)
    → prepare_outcome ctx schema.columns (dedup_outcome batch r) ≡ ok (rows, args)
    → IsPrepared schema batch rows args
unfolding prepare_outcome dedup_outcome
prepare_outcome-IsPrepared schema batch rows args ctx (result, some e) acc h = cc
prepare_outcome-IsPrepared schema batch rows args ctx (result, none) acc h =
    elim (Result-cases (all_args ctx schema.columns result.batch)) [
      | inr (e, failed) ↦ cc (rw (failed, prepare_outcome) at h)
      | inl (all, done) ↦
          let counted = acc refl in
          subst (λ (p : Batch × List Value). IsPrepared schema batch p.0 p.1)
            (pair_of (rw (done, prepare_outcome) at h))
            (record {
              fewer =
                  omega (arith, counted.input_counted, counted.output_counted, counted.balanced);
              laid = all_args-IsLaidOut ctx schema.columns result.batch all done;
            })
    ]

-- A successful prepareSQLRowsAndArgs never has more rows than the batch, and its arguments are the
-- rows' values in the order of the columns, row after row.
pub prepare-IsPrepared :
    (fmt : Formatter) (ctx : Context) (schema : SqlSchema) (batch rows : Batch) (args : List Value)
    → prepare_sql_rows_and_args fmt ctx schema batch ≡ ok (rows, args)
    → IsPrepared schema batch rows args
unfolding prepare_sql_rows_and_args deduplicate_sql_rows_ctx
prepare-IsPrepared fmt ctx schema batch rows args h =
    prepare_outcome-IsPrepared schema batch rows args (later (length batch) ctx)
      (new_sql_coalescer fmt (some schema) ctx (SchemaInterface.sql schema) batch)
      (new_sql_coalescer-Accounts fmt schema ctx (SchemaInterface.sql schema) batch) h

-- For a schema with columns and a successful prepareSQLRowsAndArgs, the placeholders that the MySQL
-- and SQLite drivers write for the rows are as many as the arguments, and so are PostgreSQL's.
pub placeholders-match-args :
    (fmt : Formatter) (ctx : Context) (schema : SqlSchema) (batch rows : Batch) (args : List Value)
    → 0 < length schema.columns
    → prepare_sql_rows_and_args fmt ctx schema batch ≡ ok (rows, args)
    → (count_char "?" (question_marks (length schema.columns) (length rows)) ≡ length args)
      × (count_char "$" (dollar_marks (length schema.columns) (length rows)) ≡ length args)
placeholders-match-args fmt ctx schema batch rows args pos h =
    let prepared = prepare-IsPrepared fmt ctx schema batch rows args h in
    (
      count_question_marks (length schema.columns) (length rows) pos ∙ sym prepared.laid.count,
      count_dollar_marks (length schema.columns) (length rows) ∙ sym prepared.laid.count,
    )

-- A driver without a cache: it computes its placeholders each time.
unfoldable pub uncached : (ℕ → ℕ → String) → Renderer
uncached render columns rows cache = (plain render columns rows, cache)

module _ (render : ℕ → ℕ → String) (switch : Switch) (schema : SqlSchema) (batch : Batch)
    (narrow : length schema.columns < word) (short : length batch < word) where
  build-eq-uncached :
      (cache : Cache) (r : Result (Batch × List Value))
      → ((rows : Batch) (args : List Value) → r ≡ ok (rows, args) → length rows ≤ length batch)
      → IsSound render cache
      → ((build (generate_placeholders render) switch schema cache r).0
          ≡ (build (uncached render) switch schema [] r).0)
        × IsSound render (build (generate_placeholders render) switch schema cache r).1
  unfolding build uncached
  build-eq-uncached cache (err e) fewer sound = (refl, sound)
  build-eq-uncached cache (ok (rows, args)) fewer sound =
      let fits : length rows < word = omega (arith, fewer rows args refl) in
      let (same, kept) =
        generate_placeholders-eq-plain render (length schema.columns) (length rows) cache narrow
          fits sound in
      (rw same refl, kept)

  -- With fewer than 2^32 columns and rows, a driver with a sound cache returns what it would return
  -- without one, error or statement, and leaves the cache sound.
  pub generate_insert_sql-eq-uncached :
      (fmt : Formatter) (ctx : Context) (cache : Cache)
      → IsSound render cache
      → ((generate_insert_sql (generate_placeholders render) switch fmt ctx schema batch cache).0
          ≡ (generate_insert_sql (uncached render) switch fmt ctx schema batch []).0)
        × IsSound render
            (generate_insert_sql (generate_placeholders render) switch fmt ctx schema batch cache).1
  unfolding generate_insert_sql
  generate_insert_sql-eq-uncached fmt ctx cache sound = elim (Bool-cases (is_empty batch)) [
    | inl empty ↦ rw (empty, generate_insert_sql) (refl, sound)
    | inr rows ↦ elim (Bool-cases (is_empty schema.columns)) [
      | inl bare ↦ rw (rows, generate_insert_sql, bare) (refl, sound)
      | inr cols ↦
          rw (rows, generate_insert_sql, cols)
            (build-eq-uncached cache (prepare_sql_rows_and_args fmt ctx schema batch)
              (λ rows args h. (prepare-IsPrepared fmt ctx schema batch rows args h).fewer) sound)
    ]
  ]
