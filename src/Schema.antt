-- ===== src/Schema.antt =====
-- schema.go: tables with their columns, and the SQL conflict options. A nil slice and an empty one
-- are both `[]`: the code tells them apart nowhere but in a test that also asks for the length.
use batchflow.Prelude.{ℕ, String, Bool, true, false, List, [], if◌then◌else◌}

-- `uint8` with three named values; `other` is a value that has no name.
pub data ConflictStrategy : Type 0 where
  ignore replace update : ConflictStrategy
  other : ℕ → ConflictStrategy

pub record SqlOperationConfig : Type 0 where
  pub conflict_strategy : ConflictStrategy
  pub conflict_columns : List String
  pub update_columns : List String
  pub deduplicate_by_conflict_columns : Bool
  pub deduplicate_configured : Bool

pub record Schema : Type 0 where
  pub name : String
  pub columns : List String

unfoldable pub new_schema : String → List String → Schema
new_schema name columns = record { name = name; columns = columns }

pub record SqlSchema : Type 0 where
  pub schema : Schema
  pub open schema use *
  pub operation_config : SqlOperationConfig

unfoldable pub with_defaults : SqlOperationConfig → SqlOperationConfig
with_defaults c =
    if c.deduplicate_configured then c else record c { deduplicate_by_conflict_columns = true }

unfoldable pub new_sql_schema : String → SqlOperationConfig → List String → SqlSchema
unfolding with_defaults new_schema
new_sql_schema name config columns = record {
  schema = new_schema name columns;
  operation_config = with_defaults config;
}

unfoldable pub with_conflict_columns : SqlOperationConfig → List String → SqlOperationConfig
unfolding with_defaults
with_conflict_columns c cols = with_defaults (record c { conflict_columns = cols })

unfoldable pub with_update_columns : SqlOperationConfig → List String → SqlOperationConfig
unfolding with_defaults
with_update_columns c cols = with_defaults (record c { update_columns = cols })

unfoldable pub with_deduplicate_by_conflict_columns : SqlOperationConfig → Bool → SqlOperationConfig
with_deduplicate_by_conflict_columns c enabled = record c {
  deduplicate_by_conflict_columns = enabled;
  deduplicate_configured = true;
}

-- A Go literal that names only the strategy.
abbrev pub strategy_config : ConflictStrategy → SqlOperationConfig
strategy_config s = record {
  conflict_strategy = s;
  conflict_columns = [];
  update_columns = [];
  deduplicate_by_conflict_columns = false;
  deduplicate_configured = false;
}

abbrev pub default_operation_config : SqlOperationConfig
default_operation_config = strategy_config ConflictStrategy.ignore

abbrev pub conflict_ignore_operation_config : SqlOperationConfig
conflict_ignore_operation_config = strategy_config ConflictStrategy.ignore

abbrev pub conflict_replace_operation_config : SqlOperationConfig
conflict_replace_operation_config = strategy_config ConflictStrategy.replace

abbrev pub conflict_update_operation_config : SqlOperationConfig
conflict_update_operation_config = strategy_config ConflictStrategy.update

-- A value of the interface: one of the two types of this file, or a type of the caller's.
pub data SchemaInterface : Type 0 where
  plain custom : Schema → SchemaInterface
  sql : SqlSchema → SchemaInterface

unfoldable pub name : SchemaInterface → String
name (SchemaInterface.plain s) = s.name
name (SchemaInterface.custom s) = s.name
name (SchemaInterface.sql s) = s.name

unfoldable pub columns : SchemaInterface → List String
columns (SchemaInterface.plain s) = s.columns
columns (SchemaInterface.custom s) = s.columns
columns (SchemaInterface.sql s) = s.columns
