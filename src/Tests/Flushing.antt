-- ===== src/Tests/Flushing.antt =====
-- A flush of three requests for two tables, and the logging observer on a secret.
use batchflow.Prelude.{
  ℕ, ◌==◌, ◌≡◌, if◌then◌else◌, refl, true, String, List, [], ◌∷◌, Option, none, some, map, to_lower,
}
use batchflow.Prelude.Int.{pos}
use mathlib.Core.List.{Permᴰ}
use mathlib.Core.List.Permᴰ
use batchflow.Model.{Value, Record}
use batchflow.Schema.{SchemaInterface}
use batchflow.Errors.{Error}
use batchflow.Observability.{BatchEvent, OperationPreview, new_batch_event}
use batchflow.Observability.Observers.{default_fields, on_batch_event}
use batchflow.Observability.Redaction.{
  Holds, IsSecret, SameButSecrets, with_attributes, named_observer, on_batch_event-SameButSecrets,
}
use batchflow.BatchFlow.Flush.{QueuedRequest, FlushSurroundings, requests_of, group_requests, flush}
use batchflow.BatchFlow.Groups.{IsGrouped, group_of, with_address, group_requests-with_address}
use batchflow.BatchFlow.Flushed.{Ending, calls_of, flush-Ending}
use batchflow.BatchFlow.Accepted.{IsAccepted}
use batchflow.BatchFlow.Handed.{rows_of, handed, flush-Perm}
use batchflow.Tests.Data.{schema, user}

abbrev pub queued : Record → QueuedRequest
queued values = record {
  request = some (record { address = 1; values = values });
  enqueued_at = none;
}

abbrev logged : QueuedRequest
logged = record {
  request = some (record { address = 2; values = ("line", Value.string "start") ∷ [] });
  enqueued_at = some 3;
}

abbrev items : List (Option QueuedRequest)
items =
    some (queued (user (pos 1) true)) ∷ none ∷ some logged ∷ some (queued (user (pos 0) true)) ∷ []

abbrev logs : SchemaInterface
logs = SchemaInterface.plain (record { name = "logs"; columns = "line" ∷ "level" ∷ [] })

abbrev pub surroundings : FlushSurroundings
surroundings = record {
  schemas = λ a. if a == 1 then schema else logs;
  ctx_err = λ h n. none;
  now = λ h. 7;
  order = λ gs. gs;
  execute = λ h schema batch. none;
  is_pipeline_reporter = true;
  is_batch_flow_reporter = true;
}

flushes : (flush surroundings items []).0 ≡ none
unfolding flush
flushes = refl

group_requests-with_address_example :
    IsGrouped (group_requests items)
    × ((a : ℕ) → group_of a (group_requests items) ≡ with_address a (requests_of items))
group_requests-with_address_example = group_requests-with_address items

flush-Ending_example :
    Ending surroundings (surroundings.order (group_requests items)) [] (flush surroundings items [])
flush-Ending_example = flush-Ending surroundings items []

flush-Perm_example :
    Permᴰ
      (rows_of (calls_of (flush surroundings items []).1))
      (map (handed surroundings) (requests_of items))
    × IsAccepted surroundings (flush surroundings items []).1
flush-Perm_example = flush-Perm surroundings items (Permᴰ.refl (group_requests items)) flushes

abbrev preview : OperationPreview
preview = record {
  backend = "sql";
  operation = "insert";
  schema = "users";
  input_items = 3;
  output_items = 3;
  arg_count = 6;
  fingerprint = "0000000000000000";
  attributes = [];
}

abbrev event : BatchEvent
unfolding new_batch_event
event = new_batch_event "execute" "fail" 1 3 1000 "users" preview (some (Error.text "deadlock")) ""

abbrev with_token : String → List (String × Value)
with_token token = ("API_Token", Value.string token) ∷ []

secret : IsSecret default_fields "API_Token"
unfolding to_lower
secret =
    IsSecret.held ("password" ∷ "passwd" ∷ "secret" ∷ [])
      ("credential" ∷ "authorization" ∷ "email" ∷ "phone" ∷ []) "token" refl
      (Holds.at "api_" "" refl)

on_batch_event-SameButSecrets_example :
    on_batch_event
      (named_observer default_fields (pos 0))
      (with_attributes event (with_token "abc"))
    ≡ on_batch_event
        (named_observer default_fields (pos 0))
        (with_attributes event (with_token "xyz"))
on_batch_event-SameButSecrets_example =
    on_batch_event-SameButSecrets default_fields (pos 0) event (with_token "abc") (with_token "xyz")
      (SameButSecrets.hidden "API_Token" (Value.string "abc") (Value.string "xyz") [] [] secret
        SameButSecrets.both_empty)
