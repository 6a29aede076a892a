-- ===== src/Driver/Statements.antt =====
-- GenerateInsertSQL of the four drivers of driver.go.
use batchflow.Prelude.{
  ℕ, String, ◌^^◌, ◌=~◌, List, [], ◌∷◌, true, false, map, length, join, is_empty, if◌then◌else◌,
}
use batchflow.Model.{Value, Batch}
use batchflow.Schema.{SqlSchema, ConflictStrategy}
use batchflow.Context.{Context}
use batchflow.Errors.{Error, Result, ok, err}
use batchflow.Coalescer.{Formatter}
use batchflow.Driver.{sql_conflict_columns, sql_update_columns, prepare_sql_rows_and_args}
use batchflow.Driver.Placeholders.{
  Cache, mysql_placeholders, postgres_placeholders, sqlite_placeholders, mock_placeholders,
}

pub record Statement : Type 0 where
  pub sql : String
  pub args : List Value

-- The texts that the switch of a driver puts together.
pub record Parts : Type 0 where
  pub base_sql : String
  pub columns_text : String
  pub placeholders : String

unfoldable pub mysql_update_pairs : List String → List String
mysql_update_pairs = map (λ col. col ^^ (" = VALUES(" ^^ (col ^^ ")")))

unfoldable pub postgres_update_pairs : List String → List String
postgres_update_pairs = map (λ col. col ^^ (" = EXCLUDED." ^^ col))

unfoldable pub sqlite_update_pairs : List String → List String
sqlite_update_pairs = map (λ col. col ^^ (" = excluded." ^^ col))

-- <head> INTO <name> (<columns>) VALUES <placeholders>
unfoldable pub insert_into : String → SqlSchema → String → String → String
insert_into head schema columns_text placeholders =
    head ^^ (schema.name ^^ (" (" ^^ (columns_text ^^ (") VALUES " ^^ placeholders))))

abbrev pub finish : String → List Value → Result Statement
finish sql args = ok (record { sql = sql; args = args })

-- The part after the base statement, for a list of update columns that may not be empty.
unfoldable pub with_updates :
    String → List String → String → (List String → List String) → List Value → Result Statement
unfolding join
with_updates action [] prefix pairs args =
    err (Error.text ("no update columns defined for conflict " ^^ action))
with_updates action (c ∷ cs) prefix pairs args = finish (prefix ^^ join (pairs (c ∷ cs)) ", ") args

unfoldable pub mysql_statement :
    SqlSchema → Parts → List Value → ConflictStrategy → Result Statement
unfolding insert_into mysql_update_pairs sql_update_columns with_updates
mysql_statement schema p args ConflictStrategy.ignore =
    finish (insert_into "INSERT IGNORE INTO " schema p.columns_text p.placeholders) args
mysql_statement schema p args ConflictStrategy.replace =
    finish (insert_into "REPLACE INTO " schema p.columns_text p.placeholders) args
mysql_statement schema p args ConflictStrategy.update =
    with_updates "update" (sql_update_columns schema false)
      (p.base_sql ^^ " ON DUPLICATE KEY UPDATE ") mysql_update_pairs args
mysql_statement schema p args (ConflictStrategy.other n) = finish p.base_sql args

unfoldable pub on_conflict : SqlSchema → Parts → String
unfolding sql_conflict_columns join
on_conflict schema p =
    p.base_sql ^^ (" ON CONFLICT (" ^^ (join (sql_conflict_columns schema) ", " ^^ ")"))

unfoldable pub postgres_statement :
    SqlSchema → Parts → List Value → ConflictStrategy → Result Statement
unfolding on_conflict postgres_update_pairs sql_update_columns with_updates
postgres_statement schema p args ConflictStrategy.ignore =
    finish (on_conflict schema p ^^ " DO NOTHING") args
postgres_statement schema p args ConflictStrategy.replace =
    with_updates "replace" (sql_update_columns schema true)
      (on_conflict schema p ^^ " DO UPDATE SET ") postgres_update_pairs args
postgres_statement schema p args ConflictStrategy.update =
    with_updates "update" (sql_update_columns schema false)
      (on_conflict schema p ^^ " DO UPDATE SET ") postgres_update_pairs args
postgres_statement schema p args (ConflictStrategy.other n) = finish p.base_sql args

unfoldable pub sqlite_statement :
    SqlSchema → Parts → List Value → ConflictStrategy → Result Statement
unfolding insert_into sqlite_update_pairs sql_update_columns with_updates
sqlite_statement schema p args ConflictStrategy.ignore =
    finish (insert_into "INSERT OR IGNORE INTO " schema p.columns_text p.placeholders) args
sqlite_statement schema p args ConflictStrategy.replace =
    finish (insert_into "INSERT OR REPLACE INTO " schema p.columns_text p.placeholders) args
sqlite_statement schema p args ConflictStrategy.update =
    with_updates "update" (sql_update_columns schema false)
      (p.base_sql ^^ " ON CONFLICT DO UPDATE SET ") sqlite_update_pairs args
sqlite_statement schema p args (ConflictStrategy.other n) = finish p.base_sql args

-- The switch of MockDriver on its database type.
unfoldable pub mock_statement :
    String → SqlSchema → Parts → List Value → ConflictStrategy → Result Statement
unfolding mysql_statement postgres_statement sqlite_statement
mock_statement database_type schema p args strategy =
    if database_type =~ "mysql"
    then mysql_statement schema p args strategy
    else if database_type =~ "postgresql"
    then postgres_statement schema p args strategy
    else if database_type =~ "sqlite"
    then sqlite_statement schema p args strategy
    else finish p.base_sql args

abbrev pub Renderer : Type 0
Renderer = ℕ → ℕ → Cache → String × Cache

abbrev pub Switch : Type 0
Switch = SqlSchema → Parts → List Value → ConflictStrategy → Result Statement

-- From the rows and arguments to the statement, with the driver's cache.
unfoldable pub build :
    Renderer → Switch → SqlSchema → Cache → Result (Batch × List Value) → Result Statement × Cache
unfolding insert_into join
build render switch schema cache (err e) = (err e, cache)
build render switch schema cache (ok (rows, args)) =
    let (placeholders, cache') = render (length schema.columns) (length rows) cache in
    let columns_text = join schema.columns ", " in
    (
      switch schema
          (record {
            base_sql = insert_into "INSERT INTO " schema columns_text placeholders;
            columns_text = columns_text;
            placeholders = placeholders;
          })
          args schema.operation_config.conflict_strategy,
      cache',
    )

-- The part of GenerateInsertSQL that the drivers have in common: its guards and its composition.
unfoldable pub generate_insert_sql :
    Renderer → Switch → Formatter → Context → SqlSchema → Batch → Cache → Result Statement × Cache
unfolding build prepare_sql_rows_and_args
generate_insert_sql render switch fmt ctx schema batch cache =
    if is_empty batch
    then (finish "" [], cache)
    else if is_empty schema.columns
    then (err (Error.text "no columns defined in schema"), cache)
    else build render switch schema cache (prepare_sql_rows_and_args fmt ctx schema batch)

abbrev pub SqlDriver : Type 0
SqlDriver = Context → SqlSchema → Batch → Cache → Result Statement × Cache

unfoldable pub mysql_driver : Formatter → SqlDriver
unfolding generate_insert_sql mysql_placeholders mysql_statement
mysql_driver = generate_insert_sql mysql_placeholders mysql_statement

unfoldable pub postgres_driver : Formatter → SqlDriver
unfolding generate_insert_sql postgres_placeholders postgres_statement
postgres_driver = generate_insert_sql postgres_placeholders postgres_statement

unfoldable pub sqlite_driver : Formatter → SqlDriver
unfolding generate_insert_sql sqlite_placeholders sqlite_statement
sqlite_driver = generate_insert_sql sqlite_placeholders sqlite_statement

unfoldable pub mock_driver : String → Formatter → SqlDriver
unfolding generate_insert_sql mock_placeholders mock_statement
mock_driver database_type = generate_insert_sql mock_placeholders (mock_statement database_type)
