-- ===== src/Tests/Classifying.antt =====
-- A deadlock of MySQL inside a BatchError, and two registered classifiers.
use batchflow.Prelude.{◌≡◌, refl, true, false, [], ◌∷◌, some, arith}
use batchflow.Schema.{ConflictStrategy}
use batchflow.Context.{deadline_exceeded}
use batchflow.Errors.{Error, BatchInfo, SqlInfo}
use batchflow.Classify.{Classifier, classify_error, find_batch, find_sql}
use batchflow.Classify.Decisions.{IsCoherent, classify_error-IsCoherent, classify_error-unwrap}
use batchflow.Classify.Chains.{EndsWith, context_reason, classify_error-context}
use batchflow.Classify.Registry.{Registry, IsValid}

abbrev batch_info : BatchInfo
batch_info = record {
  stage = "execute";
  backend = "sql";
  schema = "users";
  batch_size = 2;
  fingerprint = "";
  attributes = [];
}

abbrev sql_info : SqlInfo
sql_info = record {
  stage = "execute";
  table = "users";
  batch_size = 2;
  conflict_strategy = ConflictStrategy.ignore;
  conflict_columns = [];
  update_columns = [];
  sql_fingerprint = "";
  args_count = 4;
}

abbrev deadlock : Error
deadlock = Error.mysql 1213 "Deadlock found when trying to get lock"

classify_error-IsCoherent_example :
    IsCoherent (classify_error [] (some (Error.batch batch_info deadlock)))
classify_error-IsCoherent_example =
    classify_error-IsCoherent (some (Error.batch batch_info deadlock))

-- A classifier that would retry everything.
abbrev eager : Classifier
eager e = some (true, "eager")

abbrev late : Error
late =
    Error.batch batch_info
      (Error.wrap "query" (Error.sql sql_info (Error.context deadline_exceeded)))

classify_error-context_example :
    classify_error (eager ∷ []) (some late) ≡ (false, context_reason deadline_exceeded)
classify_error-context_example = classify_error-context (eager ∷ []) deadline_exceeded late (
    EndsWith.in_batch batch_info _
      (EndsWith.wrapped "query" _ (EndsWith.in_sql sql_info _ EndsWith.itself)))

classify_error-unwrap_example :
    (classify_error [] (some (Error.batch batch_info deadlock)) ≡ classify_error [] (some deadlock))
    × (classify_error [] (some (Error.sql sql_info deadlock)) ≡ classify_error [] (some deadlock))
    × (classify_error [] (some (Error.batch batch_info (Error.sql sql_info deadlock)))
        ≡ classify_error [] (some deadlock))
unfolding find_batch find_sql
classify_error-unwrap_example = classify_error-unwrap [] batch_info sql_info deadlock refl refl

abbrev registry : Registry
registry = record { next_id = 1; custom = record { id = 1; classifier = eager } ∷ [] }

registry-IsValid : IsValid registry
registry-IsValid = record { in_use = (omega arith, tt) }
