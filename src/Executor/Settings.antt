-- ===== src/Executor/Settings.antt =====
-- The executor of executor.go and the methods that set it up.
use batchflow.Prelude.{ℕ, zero, suc, String, Bool, true, false, Option, none, some}
use batchflow.Prelude.Int.{ℤ, pos, negsuc}
use batchflow.Errors.{Error}
use batchflow.Classify.{classify_error}
use batchflow.Coalescer.{Coalescer}
use batchflow.Observability.Observers.{Observer, ObservabilityConfig, observer_of}
use batchflow.Executor.Actions.{Action, History, Processor, Surroundings}
use batchflow.Executor.Reports.{Capabilities, report_metric}

abbrev pub RetryClassifier : Type 0
RetryClassifier = Error → Bool × String

pub record Executor : Type 0 where
  pub processor : Processor
  pub reporter : Option Capabilities  -- metricsReporter
  pub has_observer : Bool
  pub coalescer : Option Coalescer
  pub semaphore : Option ℕ  -- its capacity
  pub retry_enabled : Bool
  pub retry_max_attempts : ℕ
  pub retry_backoff_base : ℕ
  pub retry_max_backoff : ℕ
  pub retry_classifier : Option RetryClassifier

unfoldable pub new_throttled_batch_executor : Processor → Executor
new_throttled_batch_executor processor = record {
  processor = processor;
  reporter = none;
  has_observer = false;
  coalescer = none;
  semaphore = none;
  retry_enabled = false;
  retry_max_attempts = 0;
  retry_backoff_base = 0;
  retry_max_backoff = 0;
  retry_classifier = none;
}

pub record RetryConfig : Type 0 where
  pub enabled : Bool
  pub max_attempts : ℤ
  pub backoff_base : ℤ
  pub max_backoff : ℤ
  pub classifier : Option RetryClassifier

-- if v <= 0 { v = d }
abbrev pub positive_or : ℤ → ℕ → ℕ
positive_or (pos (suc n)) d = suc n
positive_or (pos zero) d = d
positive_or (negsuc n) d = d

-- WithRetryConfig; without a classifier it takes defaultRetryClassifier.
unfoldable pub with_retry_config : Surroundings → Executor → RetryConfig → Executor
unfolding classify_error
with_retry_config s e cfg = record e {
  retry_enabled = cfg.enabled;
  retry_max_attempts = positive_or cfg.max_attempts 1;
  retry_backoff_base = positive_or cfg.backoff_base 20000000;
  retry_max_backoff = positive_or cfg.max_backoff 2000000000;
  retry_classifier = some (elim cfg.classifier [
    | some f ↦ f
    | none ↦ λ (err : Error). classify_error s.custom (some err)
  ]);
}

abbrev pub capacity : Option ℕ → ℕ
capacity none = 0
capacity (some limit) = limit

abbrev pub semaphore_for : ℤ → Option ℕ
semaphore_for (pos (suc n)) = some (suc n)
semaphore_for (pos zero) = none
semaphore_for (negsuc n) = none

-- WithConcurrencyLimit
unfoldable pub with_concurrency_limit : Executor → ℤ → History → Executor × History
unfolding report_metric
with_concurrency_limit e limit h = (
  record e { semaphore = semaphore_for limit },
  report_metric e.reporter (Action.set_concurrency (capacity (semaphore_for limit))) h,
)

-- WithMetricsReporter
unfoldable pub with_metrics_reporter : Executor → Option Capabilities → History → Executor × History
unfolding report_metric
with_metrics_reporter e reporter h = (
  record e { reporter = reporter },
  report_metric reporter (Action.set_concurrency (capacity e.semaphore)) h,
)

abbrev pub is_given : Option Observer → Bool
is_given none = false
is_given (some o) = true

-- WithObserver
unfoldable pub with_observer : Executor → Option Observer → Executor
with_observer e observer = record e { has_observer = is_given observer }

-- WithObservability
unfoldable pub with_observability : Executor → ObservabilityConfig → Executor
unfolding observer_of
with_observability e config = record e { has_observer = is_given (observer_of config) }

-- WithCoalescer
unfoldable pub with_coalescer : Executor → Option Coalescer → Executor
with_coalescer e coalescer = record e { coalescer = coalescer }
