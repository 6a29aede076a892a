-- ===== src/Tests/Entering.antt =====
-- A configuration without numbers, and a request that enters an open flow.
use batchflow.Prelude.{refl, true, false, [], none, some}
use batchflow.Prelude.Int.{pos}
use batchflow.BatchFlow.{BatchFlow, Submitted, Selected, submit}
use batchflow.BatchFlow.Config.{PipelineConfig}
use batchflow.BatchFlow.Running.{new_flow}
use batchflow.BatchFlow.Running.Entering.{IsRealised, seen_by_submit, submit-IsRealised}
use batchflow.BatchFlow.Entry.{Ending, submit-Ending}
use batchflow.Tests.Data.{schema, user}

abbrev pub config : PipelineConfig
config = record {
  buffer_size = 0;
  flush_size = 0;
  flush_interval = pos 0;
  max_concurrent_flushes = 0;
  drain_on_cancel = false;
  drain_grace_period = pos 0;
  final_flush_on_close_timeout = pos 0;
  retry = record {
    enabled = false;
    max_attempts = pos 0;
    backoff_base = pos 0;
    max_backoff = pos 0;
    classifier = none;
  };
  timeout = pos 0;
  concurrency_limit = pos 0;
}

abbrev flow : BatchFlow
flow = record { closed = false; reports_rejections = true; queue = []; reports = [] }

abbrev submitted : Submitted
submitted = record {
  schema = some schema;
  request = record { schema = schema; values = user (pos 1) true };
}

submit-Ending_example :
    Ending flow (some submitted) (submit none (Selected.sent 5) (some submitted) flow)
submit-Ending_example = submit-Ending flow none (Selected.sent 5) (some submitted)

submit-IsRealised_example :
    IsRealised new_flow
      (some submitted)
      (submit none (Selected.sent 5) (some submitted) (seen_by_submit new_flow true []))
submit-IsRealised_example =
    submit-IsRealised new_flow true [] none (Selected.sent 5) (some submitted) refl
