-- ===== src/BatchFlow/Setup.antt =====
-- The constructors of batchflow.go, as far as the executor and the configuration of the pipeline.
use batchflow.Prelude.{ℕ, ◌⊎◌, Bool, Option, none, some, inl, inr, if◌then◌else◌}
use batchflow.Prelude.Int.{ℤ}
use batchflow.Errors.{Error}
use batchflow.Coalescer.{Formatter, Coalescer}
use batchflow.Driver.Redis.{generate_cmds}
use batchflow.Driver.Statements.{SqlDriver, mysql_driver, postgres_driver, sqlite_driver}
use batchflow.Observability.{Library}
use batchflow.Observability.Observers.{ObservabilityConfig, observer_of}
use batchflow.Executor.Actions.{History, Processor, Surroundings}
use batchflow.Executor.Reports.{Capabilities}
use batchflow.Executor.Settings.{
  Executor, new_throttled_batch_executor, with_retry_config, with_metrics_reporter, with_observer,
  with_concurrency_limit, with_coalescer,
}
use batchflow.Processor.{Backend, is_timed}
use batchflow.Processor.Sql.{
  SqlBatchProcessor, new_sql_batch_processor, sql_with_timeout, sql_processor,
}
use batchflow.Processor.Redis.{
  RedisDriver, new_redis_batch_processor, redis_with_timeout, redis_processor,
}
use batchflow.BatchFlow.Config.{PipelineConfig, with_pipeline_defaults, validate_config}

-- The parts of a PipelineConfig that the constructors only hand on.
pub record Options : Type 0 where
  pub config : PipelineConfig
  pub open config use *
  pub metrics_reporter : Option Capabilities
  pub observability : ObservabilityConfig
  pub coalescer : Option Coalescer

-- goPipelineConfig: the configuration of the pipeline's package
pub record GoPipelineConfig : Type 0 where
  pub buffer_size : ℕ
  pub flush_size : ℕ
  pub flush_interval : ℤ
  pub max_concurrent_flushes : ℕ
  pub drain_on_cancel : Bool
  pub drain_grace_period : ℤ
  pub final_flush_on_close_timeout : ℤ

unfoldable pub go_pipeline_config : PipelineConfig → GoPipelineConfig
unfolding with_pipeline_defaults
go_pipeline_config config =
    let c = with_pipeline_defaults config in
    record {
      buffer_size = c.buffer_size;
      flush_size = c.flush_size;
      flush_interval = c.flush_interval;
      max_concurrent_flushes = c.max_concurrent_flushes;
      drain_on_cancel = c.drain_on_cancel;
      drain_grace_period = c.drain_grace_period;
      final_flush_on_close_timeout = c.final_flush_on_close_timeout;
    }

-- NewBatchFlowWithConfig up to its call of newBatchFlow, to which it hands the configuration and the
-- executor, which may be nil.
unfoldable pub new_batch_flow_with_config {ℓ} :
    {E : Type ℓ} → PipelineConfig → Option E → Error ⊎ PipelineConfig × E
unfolding validate_config with_pipeline_defaults
new_batch_flow_with_config config none = inl (Error.config "Executor" "must not be nil")
new_batch_flow_with_config config (some executor) = elim (validate_config config) [
  | some e ↦ inl e
  | none ↦ inr (with_pipeline_defaults config, executor)
]

-- The reporter that newBatchFlow keeps: that of the executor, if it tells and has one, or a Noop.
unfoldable pub reporter_of {ℓ} : {R : Type ℓ} → R → Option (Option R) → R
reporter_of noop none = noop
reporter_of noop (some none) = noop
reporter_of noop (some (some r)) = r

module _ (s : Surroundings) (o : Options) where
  abbrev retried : Executor → Executor
  retried e = if o.config.retry.enabled then with_retry_config s e o.config.retry else e

  abbrev measured : Executor → History → Executor × History
  measured e h = elim o.metrics_reporter [
    | none ↦ (e, h)
    | some r ↦ with_metrics_reporter e (some r) h
  ]

  abbrev observed : Executor → Executor
  observed e = elim (observer_of o.observability) [
    | none ↦ e
    | some observer ↦ with_observer e (some observer)
  ]

  abbrev limited : Executor → History → Executor × History
  limited e h =
      if is_timed o.config.concurrency_limit
      then with_concurrency_limit e o.config.concurrency_limit h
      else (e, h)

  abbrev coalescing : Executor → Executor
  coalescing e = elim o.coalescer [ none ↦ e | some c ↦ with_coalescer e (some c) ]

  -- The calls between NewThrottledBatchExecutor and newBatchFlow in the two constructors.
  unfoldable pub configure : Processor → History → Executor × History
  unfolding new_throttled_batch_executor with_retry_config with_metrics_reporter with_observer
      with_concurrency_limit with_coalescer observer_of
  configure processor h =
      let (e, h) = measured (retried (new_throttled_batch_executor processor)) h in
      let (e, h) = limited (observed e) h in (coalescing e, h)

  unfoldable pub sql_processor_for : Option SqlDriver → SqlBatchProcessor
  unfolding new_sql_batch_processor sql_with_timeout
  sql_processor_for driver =
      let p = new_sql_batch_processor driver in
      if is_timed o.config.timeout then sql_with_timeout p o.config.timeout else p

  -- The executor of NewSQLBatchFlowWithDriver
  unfoldable pub new_sql_batch_flow_with_driver :
      Library → Formatter → Backend → Option SqlDriver → History → Executor × History
  unfolding configure sql_processor_for sql_processor
  new_sql_batch_flow_with_driver lib fmt b driver h =
      configure (sql_processor lib fmt b (sql_processor_for driver)) h

  -- The executor of NewRedisBatchFlowWithDriver
  unfoldable pub new_redis_batch_flow_with_driver :
      Library → Backend → RedisDriver → History → Executor × History
  unfolding configure new_redis_batch_processor redis_with_timeout redis_processor
  new_redis_batch_flow_with_driver lib b driver h =
      let p = new_redis_batch_processor driver in
      let p = if is_timed o.config.timeout then redis_with_timeout p o.config.timeout else p in
      configure (redis_processor lib b p) h

  -- NewMySQLBatchFlow, NewPostgreSQLBatchFlow, NewSQLiteBatchFlow and NewRedisBatchFlow
  unfoldable pub new_mysql_batch_flow : Library → Formatter → Backend → History → Executor × History
  unfolding new_sql_batch_flow_with_driver mysql_driver
  new_mysql_batch_flow lib fmt b h =
      new_sql_batch_flow_with_driver lib fmt b (some (mysql_driver fmt)) h

  unfoldable pub new_postgresql_batch_flow :
      Library → Formatter → Backend → History → Executor × History
  unfolding new_sql_batch_flow_with_driver postgres_driver
  new_postgresql_batch_flow lib fmt b h =
      new_sql_batch_flow_with_driver lib fmt b (some (postgres_driver fmt)) h

  unfoldable pub new_sqlite_batch_flow :
      Library → Formatter → Backend → History → Executor × History
  unfolding new_sql_batch_flow_with_driver sqlite_driver
  new_sqlite_batch_flow lib fmt b h =
      new_sql_batch_flow_with_driver lib fmt b (some (sqlite_driver fmt)) h

  unfoldable pub new_redis_batch_flow : Library → Backend → History → Executor × History
  unfolding new_redis_batch_flow_with_driver generate_cmds
  new_redis_batch_flow lib b h = new_redis_batch_flow_with_driver lib b generate_cmds h
