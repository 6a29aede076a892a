-- ===== src/BatchFlow/Setting.antt =====
-- What the constructors of batchflow.go refuse, which configuration they go on with, and what their
-- executors are set to.
use batchflow.Prelude.{
  ℕ, zero, suc, ◌≡◌, ◌≢◌, ◌⊎◌, refl, false, Option, none, some, arith, Option-cases, inl, inr,
  if◌then◌else◌,
}
use batchflow.Prelude.Int.{ℤ, pos, negsuc}
use batchflow.Errors.{Error}
use batchflow.Driver.Statements.{SqlDriver}
use batchflow.Observability.Observers.{observer_of}
use batchflow.Executor.Actions.{History, Processor, Surroundings}
use batchflow.Executor.Settings.{
  Executor, new_throttled_batch_executor, with_retry_config, with_metrics_reporter, with_observer,
  with_concurrency_limit, with_coalescer, semaphore_for, positive_or, is_given,
}
use batchflow.Processor.{is_timed}
use batchflow.Processor.Sql.{new_sql_batch_processor, sql_with_timeout}
use batchflow.BatchFlow.Config.{
  PipelineConfig, default_size, default_duration, with_pipeline_defaults, validate_config,
  IsValidConfig, validate_config_iff,
}
use batchflow.BatchFlow.Setup.{Options, configure, sql_processor_for, new_batch_flow_with_config}

-- The executor has the processor, and each option of the configuration in its place: a limit that is
-- not positive means none, and numbers for retries count only where retries are enabled.
pub record IsConfigured (o : Options) (processor : Processor) (e : Executor) : Type 0 where
  pub processor_set : e.processor ≡ processor
  pub reporter_set : e.reporter ≡ o.metrics_reporter
  pub observer_set : e.has_observer ≡ is_given (observer_of o.observability)
  pub coalescer_set : e.coalescer ≡ o.coalescer
  pub limit_set : e.semaphore ≡ semaphore_for o.config.concurrency_limit
  pub retry_set : e.retry_enabled ≡ o.config.retry.enabled
  pub attempts_set :
      e.retry_max_attempts
      ≡ (if o.config.retry.enabled then positive_or o.config.retry.max_attempts 1 else 0)

limit-none : (n : ℤ) → is_timed n ≡ false → semaphore_for n ≡ none
limit-none (pos zero) h = refl
limit-none (pos (suc n)) h = absurd (ground arith)
limit-none (negsuc n) h = refl

-- The constructors put every option of the configuration into the executor.
pub configure-IsConfigured :
    (s : Surroundings) (o : Options) (processor : Processor) (h : History)
    → IsConfigured o processor (configure s o processor h).0
unfolding configure new_throttled_batch_executor with_retry_config with_metrics_reporter
    with_observer with_concurrency_limit with_coalescer
configure-IsConfigured s o processor h = record {
  processor_set = ground arith;
  reporter_set = ground arith;
  observer_set = ground arith;
  coalescer_set = ground arith;
  limit_set = ground (arith, limit-none o.config.concurrency_limit);
  retry_set = ground arith;
  attempts_set = ground arith;
}

pub sql_processor_for-driver :
    (s : Surroundings) (o : Options) (driver : SqlDriver)
    → (sql_processor_for s o (some driver)).driver ≡ some driver
unfolding sql_processor_for new_sql_batch_processor sql_with_timeout
sql_processor_for-driver s o driver = ground arith

-- A number that is zero is replaced by the default, any other stays.
pub data IsDefaulted {ℓ} {A : Type ℓ} (nothing default before after : A) : Type ℓ where
  filled : before ≡ nothing → after ≡ default → IsDefaulted nothing default before after
  stays : before ≢ nothing → after ≡ before → IsDefaulted nothing default before after

-- The configuration with DefaultPipelineConfig in the place of zeros.
pub record IsFilled (config c : PipelineConfig) : Type 0 where
  pub buffer_size : IsDefaulted 0 1000 config.buffer_size c.buffer_size
  pub flush_size : IsDefaulted 0 100 config.flush_size c.flush_size
  pub flush_interval : IsDefaulted (pos 0) (pos 100000000) config.flush_interval c.flush_interval
  pub drain_grace_period :
      IsDefaulted (pos 0) (pos 2000000000) config.drain_grace_period c.drain_grace_period
  pub rest : c ≡ record config {
    buffer_size = c.buffer_size;
    flush_size = c.flush_size;
    flush_interval = c.flush_interval;
    drain_grace_period = c.drain_grace_period;
  }

size-IsDefaulted : (n d : ℕ) → IsDefaulted 0 d n (default_size n d)
size-IsDefaulted zero d = IsDefaulted.filled refl refl
size-IsDefaulted (suc n) d = IsDefaulted.stays (λ h. absurd (ground arith)) refl

duration-IsDefaulted : (v : ℤ) (d : ℕ) → IsDefaulted (pos 0) (pos d) v (default_duration v d)
duration-IsDefaulted (pos zero) d = IsDefaulted.filled refl refl
duration-IsDefaulted (pos (suc n)) d = IsDefaulted.stays (λ h. absurd (ground arith)) refl
duration-IsDefaulted (negsuc n) d = IsDefaulted.stays (λ h. absurd (ground arith)) refl

with_pipeline_defaults-IsFilled :
    (config : PipelineConfig) → IsFilled config (with_pipeline_defaults config)
unfolding with_pipeline_defaults
with_pipeline_defaults-IsFilled config = record {
  buffer_size = size-IsDefaulted config.buffer_size 1000;
  flush_size = size-IsDefaulted config.flush_size 100;
  flush_interval = duration-IsDefaulted config.flush_interval 100000000;
  drain_grace_period = duration-IsDefaulted config.drain_grace_period 2000000000;
  rest = refl;
}

-- How NewBatchFlowWithConfig ends: it refuses a missing executor and a configuration with a negative
-- number, and else goes on with the executor and the configuration with the defaults.
pub data Outcome {ℓ} {E : Type ℓ} (config : PipelineConfig)
    : Option E → Error ⊎ PipelineConfig × E → Type ℓ where
  no_executor : (e : Error) → Outcome config none (inl e)
  invalid :
      (executor : E) (e : Error) → ¬ IsValidConfig config → Outcome config (some executor) (inl e)
  goes_on :
      (executor : E) (c : PipelineConfig)
      → IsValidConfig config
      → IsFilled config c
      → Outcome config (some executor) (inr (c, executor))

-- NewBatchFlowWithConfig goes on exactly with an executor and a configuration without a negative
-- number, to which it adds the defaults for the two sizes, the flush interval and the grace period
-- where these are zero, and it changes nothing else; otherwise it returns an error.
pub new_batch_flow_with_config-Outcome {ℓ} :
    {E : Type ℓ} (config : PipelineConfig) (executor : Option E)
    → Outcome config executor (new_batch_flow_with_config config executor)
unfolding new_batch_flow_with_config
new_batch_flow_with_config-Outcome config none = Outcome.no_executor _
new_batch_flow_with_config-Outcome config (some executor) =
    elim (Option-cases (validate_config config)) [
      | inr (e, refused) ↦
          rw (refused, new_batch_flow_with_config)
            (Outcome.invalid executor e
              (λ valid. absurd (ground (arith, (validate_config_iff config).1 valid, refused))))
      | inl valid ↦
          rw (valid, new_batch_flow_with_config)
            (Outcome.goes_on executor (with_pipeline_defaults config)
              ((validate_config_iff config).0 valid) (with_pipeline_defaults-IsFilled config))
    ]
