-- ===== src/Prometheus/Aligned.antt =====
-- Whether the labels that the reporter of examples/metrics/prometheus writes fit those of the metrics.
use batchflow.Prelude.{
  ℕ, String, ◌=~◌, ◌≡◌, refl, sym, ap, ◌∙◌, Bool, true, false, List, [], ◌∷◌, map, if◌then◌else◌,
}
use mathlib.Core.List.{map-append}
use batchflow.Prometheus.{
  Metric, Metrics, Change, Write, has_label, label_names, with_instance_id, with_table,
}
use batchflow.Prometheus.Calls.{
  Call, id_labels, table_labels, execute_labels, label_or_unknown, conflict_strategy_label,
}
use batchflow.Prometheus.Reporter.{asked, flagged, inc_sql_error_write, observe_execute}

-- What a call says of a label that is not the reporter's own.
unfoldable pub field_of : Call → String → String
unfolding label_or_unknown conflict_strategy_label
field_of (Call.inc_error table reason) l = reason
field_of (Call.inc_submit_rejected reason) l = reason
field_of (Call.inc_dropped reason) l = reason
field_of (Call.observe_process_duration d status) l = status
field_of (Call.observe_execute_duration table n d status) l = table
field_of (Call.observe_sql_generated table i o a) l = table
field_of (Call.observe_sql_deduplicated table strategy d m) l =
    if l =~ "table" then table else conflict_strategy_label strategy
field_of (Call.inc_sql_error table stage reason) l =
    if l =~ "table" then table else if l =~ "stage" then stage else reason
field_of (Call.inc_operation_error schema backend stage reason) l =
    if l =~ "table"
    then schema
    else if l =~ "backend"
    then backend
    else if l =~ "stage"
    then stage
    else reason
field_of (Call.observe_operation_generated p) l =
    if l =~ "table"
    then p.schema
    else if l =~ "backend"
    then label_or_unknown p.backend
    else label_or_unknown p.operation
field_of _ l = ""

-- The value that a label has in a write for a call; `kind` is the write's own.
unfoldable pub value_of : String → String → Call → String → String → String
unfolding field_of
value_of database instance_id call kind l =
    if l =~ "database"
    then database
    else if l =~ "instance_id"
    then instance_id
    else if l =~ "kind"
    then kind
    else field_of call l

-- The labels are as many as the metric has, and each has the value that its name asks for.
unfoldable pub IsAligned : Metrics → String → String → Call → Write → Type 0
unfolding value_of label_names
IsAligned m database instance_id call w =
    (kind : String) × (w.labels
      ≡ map (value_of database instance_id call kind)
          (label_names m.include_instance_id m.include_table w.metric))

-- hasLabel answers as the options are.
pub record IsTruthful (m : Metrics) : Type 0 where
  pub instance_id : (metric : Metric) → has_label m metric "instance_id" ≡ m.include_instance_id
  pub sql_table : has_label m Metric.sql_errors_total "table" ≡ m.include_table
  pub execute_table : has_label m Metric.execute_duration "table" ≡ m.include_table
  pub execute_status : has_label m Metric.execute_duration "status" ≡ false

id_labels-map :
    (id : Bool) (f : String → String) (names : List String)
    → id_labels id (f "database") (f "instance_id") (map f names)
      ≡ map f (with_instance_id id names)
unfolding id_labels with_instance_id
id_labels-map true f names = refl
id_labels-map false f names = refl

table_labels-map :
    (id table : Bool) (f : String → String) (names : List String)
    → table_labels id table (f "database") (f "instance_id") (f "table") (map f names)
      ≡ map f (with_table table (with_instance_id id names))
unfolding table_labels with_table with_instance_id
table_labels-map true true f names =
    ap (λ (l : List String). f "database" ∷ f "instance_id" ∷ l)
      (sym (map-append f names ("table" ∷ [])))
table_labels-map true false f names = refl
table_labels-map false true f names =
    ap (λ (l : List String). f "database" ∷ l) (sym (map-append f names ("table" ∷ [])))
table_labels-map false false f names = refl

execute_labels-map :
    (id table : Bool) (f : String → String) (status : String)
    → execute_labels id table false (f "database") (f "instance_id") (f "table") status
      ≡ map f (with_table table (with_instance_id id []))
unfolding execute_labels with_table with_instance_id
execute_labels-map true true f status = refl
execute_labels-map true false f status = refl
execute_labels-map false true f status = refl
execute_labels-map false false f status = refl

module _ (m : Metrics) (t : IsTruthful m) (database instance_id : String) where
  pub asked-IsAligned :
      (call : Call) (kind : String) (metric : Metric) (names : List String) (change : Change)
      → label_names m.include_instance_id m.include_table metric
        ≡ with_instance_id m.include_instance_id names
      → IsAligned m database instance_id call (
          asked m database instance_id metric
            (map (value_of database instance_id call kind) names)
            change)
  unfolding IsAligned asked value_of
  asked-IsAligned call kind metric names change named =
      let f = value_of database instance_id call kind in
      (
        kind,
        ap (λ (id : Bool). id_labels id database instance_id (map f names)) (t.instance_id metric)
            ∙ (id_labels-map m.include_instance_id f names ∙ ap (map f) (sym named)),
      )

  pub flagged-IsAligned :
      (call : Call) (kind : String) (metric : Metric) (names : List String) (change : Change)
      → label_names m.include_instance_id m.include_table metric
        ≡ with_table m.include_table (with_instance_id m.include_instance_id names)
      → IsAligned m database instance_id call (
          flagged m database instance_id metric
            (value_of database instance_id call kind "table")
            (map (value_of database instance_id call kind) names)
            change)
  unfolding IsAligned flagged value_of
  flagged-IsAligned call kind metric names change named =
      let f = value_of database instance_id call kind in
      (
        kind,
        table_labels-map m.include_instance_id m.include_table f names ∙ ap (map f) (sym named),
      )

  pub execute-IsAligned :
      (table : String) (n d : ℕ) (status : String)
      → IsAligned m database instance_id
          (Call.observe_execute_duration table n d status)
          (observe_execute m database instance_id table d status)
  unfolding IsAligned observe_execute value_of field_of label_names
  execute-IsAligned table n d status =
      let f = value_of database instance_id (Call.observe_execute_duration table n d status) "" in
      (
        "",
        rw (t.instance_id Metric.execute_duration, t.execute_table, t.execute_status)
            (execute_labels-map m.include_instance_id m.include_table f status),
      )

  pub sql_error-IsAligned :
      (table stage reason : String)
      → IsAligned m database instance_id
          (Call.inc_sql_error table stage reason)
          (inc_sql_error_write m database instance_id table stage reason)
  unfolding IsAligned inc_sql_error_write value_of field_of label_names
  sql_error-IsAligned table stage reason =
      let f = value_of database instance_id (Call.inc_sql_error table stage reason) "" in
      (
        "",
        rw (t.instance_id Metric.sql_errors_total, t.sql_table)
            (table_labels-map m.include_instance_id m.include_table f ("stage" ∷ "reason" ∷ [])),
      )
