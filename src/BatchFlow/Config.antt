-- ===== src/BatchFlow/Config.antt =====
-- PipelineConfig of batchflow.go, without the parts that its constructors only hand on.
use batchflow.Prelude.{
  ℕ, zero, suc, ◌≡◌, ◌↔◌, refl, Bool, false, String, Option, none, some, arith, if◌then◌else◌,
}
use batchflow.Prelude.Int.{ℤ, pos, negsuc, is_negative}
use batchflow.Errors.{Error}
use batchflow.Executor.Settings.{RetryConfig}

-- Sizes are of 32 bits without sign, durations are in nanoseconds.
pub record PipelineConfig : Type 0 where
  pub buffer_size : ℕ
  pub flush_size : ℕ
  pub flush_interval : ℤ
  pub max_concurrent_flushes : ℕ
  pub drain_on_cancel : Bool
  pub drain_grace_period : ℤ
  pub final_flush_on_close_timeout : ℤ
  pub retry : RetryConfig
  pub timeout : ℤ
  pub concurrency_limit : ℤ

abbrev pub default_size : ℕ → ℕ → ℕ
default_size zero d = d
default_size (suc n) d = suc n

abbrev pub default_duration : ℤ → ℕ → ℤ
default_duration (pos zero) d = pos d
default_duration (pos (suc n)) d = pos (suc n)
default_duration (negsuc n) d = negsuc n

-- withDefaults, with the values of DefaultPipelineConfig
unfoldable pub with_pipeline_defaults : PipelineConfig → PipelineConfig
with_pipeline_defaults c = record c {
  buffer_size = default_size c.buffer_size 1000;
  flush_size = default_size c.flush_size 100;
  flush_interval = default_duration c.flush_interval 100000000;
  drain_grace_period = default_duration c.drain_grace_period 2000000000;
}

-- if v < 0 { return &ConfigError{...} }
unfoldable pub check : String → ℤ → Option Error → Option Error
check field v rest = if is_negative v then some (Error.config field "must be >= 0") else rest

-- PipelineConfig.Validate
unfoldable pub validate_config : PipelineConfig → Option Error
unfolding check
validate_config c = check "ConcurrencyLimit" c.concurrency_limit (
    check "Retry.MaxAttempts" c.retry.max_attempts (
      check "Retry.BackoffBase" c.retry.backoff_base (
        check "Retry.MaxBackoff" c.retry.max_backoff (
          check "Timeout" c.timeout (
            check "FlushInterval" c.flush_interval (
              check "DrainGracePeriod" c.drain_grace_period
                (check "FinalFlushOnCloseTimeout" c.final_flush_on_close_timeout none)))))))

-- No number of a configuration is negative.
pub record IsValidConfig (c : PipelineConfig) : Type 0 where
  pub concurrency_limit : is_negative c.concurrency_limit ≡ false
  pub max_attempts : is_negative c.retry.max_attempts ≡ false
  pub backoff_base : is_negative c.retry.backoff_base ≡ false
  pub max_backoff : is_negative c.retry.max_backoff ≡ false
  pub timeout : is_negative c.timeout ≡ false
  pub flush_interval : is_negative c.flush_interval ≡ false
  pub drain_grace_period : is_negative c.drain_grace_period ≡ false
  pub final_flush : is_negative c.final_flush_on_close_timeout ≡ false

check-none :
    (field : String) (v : ℤ) (rest : Option Error)
    → (check field v rest ≡ none) ↔ ((is_negative v ≡ false) × (rest ≡ none))
unfolding check
check-none field v rest = ground arith

-- Validate returns nil exactly for a configuration without a negative number.
pub validate_config_iff : (c : PipelineConfig) → (validate_config c ≡ none) ↔ IsValidConfig c
unfolding validate_config
validate_config_iff c = (
  λ h.
      let (a, h) = (check-none _ _ _).0 h in
      let (b, h) = (check-none _ _ _).0 h in
      let (d, h) = (check-none _ _ _).0 h in
      let (e, h) = (check-none _ _ _).0 h in
      let (f, h) = (check-none _ _ _).0 h in
      let (g, h) = (check-none _ _ _).0 h in
      let (i, h) = (check-none _ _ _).0 h in
      let (j, h) = (check-none _ _ _).0 h in
      record {
        concurrency_limit = a;
        max_attempts = b;
        backoff_base = d;
        max_backoff = e;
        timeout = f;
        flush_interval = g;
        drain_grace_period = i;
        final_flush = j;
      },
  λ v. ground (
    arith, v.concurrency_limit, v.max_attempts, v.backoff_base, v.max_backoff, v.timeout,
    v.flush_interval, v.drain_grace_period, v.final_flush,
  ),
)

sign-default_duration : (v : ℤ) (d : ℕ) → is_negative (default_duration v d) ≡ is_negative v
sign-default_duration (pos zero) d = refl
sign-default_duration (pos (suc n)) d = refl
sign-default_duration (negsuc n) d = refl

-- Filling in the defaults changes no verdict of Validate.
pub validate_config-with_pipeline_defaults :
    (c : PipelineConfig) → validate_config (with_pipeline_defaults c) ≡ validate_config c
unfolding validate_config with_pipeline_defaults
validate_config-with_pipeline_defaults c =
    rw
      (
        sign-default_duration c.flush_interval 100000000,
        sign-default_duration c.drain_grace_period 2000000000,
      )
      refl
