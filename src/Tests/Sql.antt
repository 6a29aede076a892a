-- ===== src/Tests/Sql.antt =====
-- A statement for three rows, two of which have one id.
use batchflow.Prelude.{
  String, some, ◌≡◌, refl, true, false, List, [], ◌∷◌, count_char, arith, lookup, put,
}
use batchflow.Prelude.Int.{pos}
use batchflow.Model.{Value, Batch}
use batchflow.Context.{background}
use batchflow.Schema.{columns, ConflictStrategy}
use batchflow.Errors.{ok}
use batchflow.Coalescer.{record_key, absorb}
use batchflow.Driver.{prepare_sql_rows_and_args}
use batchflow.Driver.Placeholders.{question_marks, dollar_marks, generate_placeholders}
use batchflow.Driver.Caching.{IsSound, empty-IsSound}
use batchflow.Driver.Statements.{generate_insert_sql, mysql_statement}
use batchflow.Driver.Results.{
  IsPrepared, prepare-IsPrepared, placeholders-match-args, uncached,
  generate_insert_sql-eq-uncached,
}
use batchflow.Driver.Redis.{RedisCmd, IsCommanded, generate_cmds, generate_cmds-live}
use batchflow.Observability.{Library}
use batchflow.Executor.Reports.{sql_preview_from_operation}
use batchflow.SqlObservability.{SqlPreview, operation_preview}
use batchflow.SqlObservability.RoundTrip.{sql_preview_from_operation-operation_preview}
use batchflow.Tests.Data.{formatter, users, table, schema}

-- The row of id 1 has the last value of `active`.
abbrev rows : Batch
rows =
    (("active", Value.bool false) ∷ ("id", Value.int (pos 1)) ∷ [])
    ∷ (("active", Value.bool true) ∷ ("id", Value.int (pos 0)) ∷ [])
    ∷ []

abbrev args : List Value
args = Value.int (pos 1) ∷ Value.bool false ∷ Value.int (pos 0) ∷ Value.bool true ∷ []

prepared : prepare_sql_rows_and_args formatter background table users ≡ ok (rows, args)
unfolding prepare_sql_rows_and_args absorb lookup put record_key columns
prepared = refl

prepare-IsPrepared_example : IsPrepared table users rows args
prepare-IsPrepared_example = prepare-IsPrepared formatter background table users rows args prepared

placeholders-match-args_example :
    (count_char "?" (question_marks 2 2) ≡ 4) × (count_char "$" (dollar_marks 2 2) ≡ 4)
placeholders-match-args_example =
    placeholders-match-args formatter background table users rows args (omega arith) prepared

generate_insert_sql-eq-uncached_example :
    ((generate_insert_sql
        (generate_placeholders question_marks)
        mysql_statement
        formatter
        background
        table
        users
        []).0
      ≡ (generate_insert_sql
          (uncached question_marks)
          mysql_statement
          formatter
          background
          table
          users
          []).0)
    × IsSound question_marks
        (generate_insert_sql
          (generate_placeholders question_marks)
          mysql_statement
          formatter
          background
          table
          users
          []).1
generate_insert_sql-eq-uncached_example =
    generate_insert_sql-eq-uncached question_marks mysql_statement table users (omega arith)
      (omega arith) formatter background [] (empty-IsSound question_marks)

generate_cmds-live_example :
    (cmds : List RedisCmd) × (generate_cmds background schema users ≡ ok cmds)
    × IsCommanded (columns schema) users cmds
unfolding columns
generate_cmds-live_example = generate_cmds-live background schema users (λ t. refl) (omega arith)

abbrev preview : SqlPreview
preview = record {
  table = "users";
  sql = "";
  args = args;
  args_count = 4;
  columns = "id" ∷ "active" ∷ [];
  conflict_strategy = ConflictStrategy.update;
  conflict_columns = "id" ∷ [];
  update_columns = "active" ∷ [];
  dedup_stats = record { input_rows = 3; output_rows = 2; deduplicated_rows = 0; merged_rows = 1 };
  fingerprint = "";
}

abbrev printed : Value → String
printed (Value.string s) = s
printed _ = "..."

abbrev library : Library
library = record {
  fields = λ text. text ∷ [];
  fnv64a = λ text. 0;
  hex16 = λ n. "0000000000000000";
  sprint = printed;
  float_to_int = λ bits. pos 0;
}

sql_preview_from_operation-operation_preview_example :
    sql_preview_from_operation library (operation_preview preview)
    ≡ some (record {
      table = "users";
      args_count = 4;
      conflict_strategy = ConflictStrategy.update;
      input_rows = 3;
      output_rows = 2;
      deduplicated_rows = pos 0;
      merged_rows = pos 1;
      fingerprint = "";
    })
sql_preview_from_operation-operation_preview_example =
    sql_preview_from_operation-operation_preview library preview tt (λ s. refl)
