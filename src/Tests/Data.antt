-- ===== src/Tests/Data.antt =====
-- A table, rows and a formatter that stand in for real ones.
use batchflow.Prelude.{zero, suc, String, ◌≡◌, refl, Bool, true, false, [], ◌∷◌, none}
use batchflow.Prelude.Int.{ℤ, pos}
use batchflow.Model.{Value, Record, Batch}
use batchflow.Schema.{SqlSchema, SchemaInterface, ConflictStrategy}
use batchflow.Coalescer.{Formatter, CoalesceStrategy, KeyCoalescer}
use batchflow.Coalescer.KeyLaws.{IsFaithful, has_char}

abbrev type_verb : Value → String
type_verb (Value.int n) = "int"
type_verb (Value.bool b) = "bool"
type_verb Value.null = "<nil>"
type_verb _ = "main.Opaque"

abbrev syntax_verb : Value → String
syntax_verb (Value.int (pos zero)) = "0"
syntax_verb (Value.int (pos (suc zero))) = "1"
syntax_verb (Value.bool true) = "true"
syntax_verb (Value.bool false) = "false"
syntax_verb Value.null = "<nil>"
syntax_verb _ = "..."

abbrev pub formatter : Formatter
formatter = record { type_verb = type_verb; syntax_verb = syntax_verb }

pub formatter-IsFaithful : IsFaithful formatter
unfolding has_char
formatter-IsFaithful = record { no_colon = no_colon; no_zero = no_zero }
  where
    no_colon : (v : Value) → has_char ":" (type_verb v) ≡ false
    no_colon (Value.int n) = refl
    no_colon (Value.bool b) = refl
    no_colon Value.null = refl
    no_colon _ = refl

    no_zero : (v : Value) → has_char "\0" (syntax_verb v) ≡ false
    no_zero (Value.int (pos zero)) = refl
    no_zero (Value.int (pos (suc zero))) = refl
    no_zero (Value.bool true) = refl
    no_zero (Value.bool false) = refl
    no_zero Value.null = refl
    no_zero _ = refl

abbrev pub user : ℤ → Bool → Record
user id active = ("id", Value.int id) ∷ ("active", Value.bool active) ∷ []

-- Two rows with one id, and one with another.
abbrev pub users : Batch
users = user (pos 1) true ∷ user (pos 0) true ∷ user (pos 1) false ∷ []

abbrev pub table : SqlSchema
table = record {
  schema = record { name = "users"; columns = "id" ∷ "active" ∷ [] };
  operation_config = record {
    conflict_strategy = ConflictStrategy.update;
    conflict_columns = "id" ∷ [];
    update_columns = [];
    deduplicate_by_conflict_columns = true;
    deduplicate_configured = true;
  };
}

abbrev pub schema : SchemaInterface
schema = SchemaInterface.sql table

abbrev pub by_id : CoalesceStrategy → KeyCoalescer
by_id strategy = record { strategy = strategy; key_columns = "id" ∷ []; key_func = none }
