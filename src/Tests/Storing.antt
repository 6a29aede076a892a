-- ===== src/Tests/Storing.antt =====
-- A flush of two requests for one table, over a database that takes everything.
use batchflow.Prelude.{◌≡◌, refl, true, List, [], ◌∷◌, Option, none, some, map, lookup, put}
use batchflow.Prelude.Int.{pos}
use mathlib.Core.List.{Permᴰ}
use mathlib.Core.List.Permᴰ
use batchflow.Coalescer.{absorb}
use batchflow.Coalescer.Key.{record_key}
use batchflow.Driver.Statements.{mysql_driver}
use batchflow.Executor.Actions.{History, Surroundings}
use batchflow.Executor.{execute_batch}
use batchflow.Processor.Sql.{sql_generate_operation_preview, sql_execute_operations}
use batchflow.BatchFlow.Flush.{
  QueuedRequest, FlushHistory, FlushSurroundings, requests_of, group_requests, flush,
}
use batchflow.BatchFlow.Flushed.{calls_of}
use batchflow.BatchFlow.Handed.{rows_of, handed}
use batchflow.BatchFlow.Setup.{new_sql_batch_flow_with_driver, sql_processor_for}
use batchflow.BatchFlow.Stored.{IsStored, sql_flow, new_sql_batch_flow-IsStored}
use batchflow.Tests.Data.{formatter, user}
use batchflow.Tests.Executing.{library}
use batchflow.Tests.Executing
use batchflow.Tests.Flushing.{queued}
use batchflow.Tests.Flushing
use batchflow.Tests.Processing.{backend, options}

abbrev items : List (Option QueuedRequest)
items = some (queued (user (pos 1) true)) ∷ some (queued (user (pos 0) true)) ∷ []

abbrev around : FlushHistory → Surroundings
around h = Executing.surroundings

abbrev past : FlushHistory → History
past h = []

abbrev flow : FlushSurroundings
flow =
    sql_flow library formatter backend (mysql_driver formatter) Executing.surroundings options []
      around past Flushing.surroundings

stores : (flush flow items []).0 ≡ none
unfolding flush sql_flow execute_batch mysql_driver sql_generate_operation_preview
    sql_execute_operations absorb record_key lookup put
stores = refl

new_sql_batch_flow-IsStored_example :
    Permᴰ
      (rows_of (calls_of (flush flow items []).1))
      (map (handed Flushing.surroundings) (requests_of items))
    × IsStored backend
        (sql_processor_for Executing.surroundings options (some (mysql_driver formatter)))
        (mysql_driver formatter)
        (new_sql_batch_flow_with_driver Executing.surroundings options library formatter backend
          (some (mysql_driver formatter))
          []).0
        around
        past
        (flush flow items []).1
new_sql_batch_flow-IsStored_example =
    new_sql_batch_flow-IsStored library formatter backend (mysql_driver formatter)
      Executing.surroundings options [] around past Flushing.surroundings items refl
      (Permᴰ.refl (group_requests items)) stores
