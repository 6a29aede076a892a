-- ===== src/Tests/Measuring.antt =====
-- A reporter without the labels that the options can add, whose descriptions list their labels bare.
use batchflow.Prelude.{false}
use batchflow.Prometheus.{Metrics}

abbrev metrics : Metrics
metrics = record {
  options = record {
    include_instance_id = false;
    include_table = false;
    enable_pipeline_metrics = false;
  };
  describe = λ metric.
      "Desc{fqName: \"batchflow_errors_total\", help: \"Errors.\", constLabels: {}, variableLabels: {database,error_type}}";
}
