-- ===== src/Executor/Reports.antt =====
-- The reports of executor.go to a metrics reporter, which may be nil and may have more methods.
use batchflow.Prelude.{
  ℕ, String, ◌=~◌, Bool, true, false, List, [], ◌∷◌, Option, none, some, length, itoa, Map,
  if◌then◌else◌,
}
use batchflow.Prelude.Int.{ℤ, pos}
use batchflow.Model.{Value, value_at}
use batchflow.Schema.{ConflictStrategy}
use batchflow.Errors.{Error, BatchInfo, SqlInfo}
use batchflow.Classify.{Classifier, classify_error, find_batch, find_sql}
use batchflow.Observability.{
  OperationPreview, Library, operation_fingerprint, backend_custom, backend_sql, operation_custom,
}
use batchflow.Executor.Actions.{Action, History, Operations}

-- The further interfaces that a reporter has: OperationMetricsReporter and SQLMetricsReporter.
pub record Capabilities : Type 0 where
  pub operation : Bool
  pub sql : Bool

unfoldable pub report_metric : Option Capabilities → Action → History → History
report_metric none action h = h
report_metric (some c) action h = action ∷ h

unfoldable pub report_operation_metric : Option Capabilities → Action → History → History
report_operation_metric none action h = h
report_operation_metric (some c) action h = if c.operation then action ∷ h else h

unfoldable pub report_sql_metric : Option Capabilities → Action → History → History
report_sql_metric none action h = h
report_sql_metric (some c) action h = if c.sql then action ∷ h else h

-- The preview for a processor that makes none.
unfoldable pub custom_preview : Library → String → ℕ → ℕ → OperationPreview
unfolding operation_fingerprint itoa
custom_preview lib table items operations = record {
  backend = backend_custom;
  operation = operation_custom;
  schema = table;
  input_items = items;
  output_items = operations;
  arg_count = operations;
  fingerprint = operation_fingerprint lib (backend_custom ∷ table ∷ itoa operations ∷ []);
  attributes = [];
}

unfoldable pub conflict_strategy_from_name : String → ConflictStrategy
conflict_strategy_from_name s =
    if s =~ "replace"
    then ConflictStrategy.replace
    else (if s =~ "update" then ConflictStrategy.update else ConflictStrategy.ignore)

abbrev as_int : Library → Value → ℤ
as_int lib (Value.int n) = n
as_int lib (Value.int64 n) = n
as_int lib (Value.float64 bits) = lib.float_to_int bits
as_int lib _ = pos 0

unfoldable pub int_attribute : Library → Map Value → String → ℤ
unfolding value_at
int_attribute lib attrs key = as_int lib (value_at attrs key)

-- The parts of a SQLPreview that sqlPreviewFromOperation fills in.
pub record SqlSummary : Type 0 where
  pub table : String
  pub args_count : ℕ
  pub conflict_strategy : ConflictStrategy
  pub input_rows : ℕ
  pub output_rows : ℕ
  pub deduplicated_rows : ℤ
  pub merged_rows : ℤ
  pub fingerprint : String

unfoldable pub sql_preview_from_operation : Library → OperationPreview → Option SqlSummary
unfolding int_attribute conflict_strategy_from_name value_at
sql_preview_from_operation lib p =
    if p.backend =~ backend_sql
    then some (record {
      table = p.schema;
      args_count = p.arg_count;
      conflict_strategy =
          conflict_strategy_from_name (lib.sprint (value_at p.attributes "conflict_strategy"));
      input_rows = p.input_items;
      output_rows = p.output_items;
      deduplicated_rows = int_attribute lib p.attributes "deduplicated_rows";
      merged_rows = int_attribute lib p.attributes "merged_rows";
      fingerprint = p.fingerprint;
    })
    else none

unfoldable pub report_operation_generated :
    Library
    → Option Capabilities
    → String
    → Operations
    → ℕ
    → OperationPreview
    → Bool
    → History
    → History
unfolding report_operation_metric report_sql_metric custom_preview sql_preview_from_operation
report_operation_generated lib reporter table ops items preview has_preview h =
    let seen = if has_preview then preview else custom_preview lib table items (length ops) in
    let h = report_operation_metric reporter (Action.observe_operation_generated seen) h in
    elim (sql_preview_from_operation lib preview) [
      | none ↦ h
      | some p ↦
          let h =
            report_sql_metric reporter
              (Action.observe_sql_generated table p.input_rows p.output_rows p.args_count) h in
          report_sql_metric reporter
            (Action.observe_sql_deduplicated table p.conflict_strategy p.deduplicated_rows
              p.merged_rows)
            h
    ]

-- defaultOperationErrorReason
unfoldable pub default_operation_error_reason : List Classifier → Option Error → String
unfolding classify_error
default_operation_error_reason custom none = "unknown"
default_operation_error_reason custom (some e) = (classify_error custom (some e)).1

-- isSQLError
unfoldable pub is_sql_error : Error → Bool
unfolding find_sql find_batch
is_sql_error e = elim (find_sql e) [
  | some found ↦ true
  | none ↦ elim (find_batch e) [ none ↦ false | some (info, cause) ↦ info.backend =~ backend_sql ]
]

abbrev backend_of : Option (BatchInfo × Option Error) → String
backend_of none = ""
backend_of (some (info, cause)) = info.backend

-- The stage and the reason that reportOperationError gives to IncSQLError.
abbrev pub sql_cause :
    List Classifier → String → String → Option (SqlInfo × Option Error) → String × String
sql_cause custom stage reason none = (stage, reason)
sql_cause custom stage reason (some (info, cause)) =
    (info.stage, default_operation_error_reason custom cause)

unfoldable pub report_operation_error :
    List Classifier → Option Capabilities → String → String → Error → History → History
unfolding default_operation_error_reason report_operation_metric report_sql_metric is_sql_error
report_operation_error custom reporter table stage e h =
    let reason = default_operation_error_reason custom (some e) in
    let h =
      report_operation_metric reporter
        (Action.inc_operation_error table (backend_of (find_batch e)) stage reason) h in
    if is_sql_error e
    then (let (sql_stage, sql_reason) = sql_cause custom stage reason (find_sql e) in
        report_sql_metric reporter (Action.inc_sql_error table sql_stage sql_reason) h)
    else h
