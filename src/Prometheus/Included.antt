-- ===== src/Prometheus/Included.antt =====
-- For which options the labels of the reporter of examples/metrics/prometheus fit: its hasLabel reads the
-- text that the client library prints for a metric.
use batchflow.Prelude.{String, ◌^^◌, contains, ◌≡◌, false, some, All}
use batchflow.Prometheus.{Metric, Metrics}
use batchflow.Prometheus.Calls.{Call}
use batchflow.Prometheus.Reporter.{report_call}
use batchflow.Prometheus.Aligned.{IsAligned}

-- A text has a name neither in quotes nor before a colon.
unfoldable pub IsBare : String → String → Type 0
IsBare text name =
    (contains text ("\"" ^^ (name ^^ "\"")) ≡ false) × (contains text (name ^^ ":") ≡ false)

-- The descriptions have the names that hasLabel is asked for neither in quotes nor before a colon, as
-- the client library lists the names of variable labels bare.
pub record HasBareLabels (m : Metrics) : Type 0 where
  pub bare_id : (metric : Metric) → IsBare (m.describe metric) "instance_id"
  pub bare_table : (metric : Metric) → IsBare (m.describe metric) "table"
  pub bare_status : IsBare (m.describe Metric.execute_duration) "status"

-- The writes of a Reporter with these metrics all fit, whatever it is called with.
unfoldable pub AllAligned : Metrics → String → String → Type 0
AllAligned m database instance_id =
    (call : Call)
    → All (IsAligned m database instance_id call)
        (report_call (record { m = some m; database = database; instance_id = instance_id }) call)
