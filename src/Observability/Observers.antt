-- ===== src/Observability/Observers.antt =====
-- The samplers, the redactors and the logging observer of observability.go. An interface that may be
-- nil is an option. The library that compares floats and hashes is a parameter.
use batchflow.Prelude.{
  ℕ, zero, suc, ◌/◌, ◌%◌, String, ◌^^◌, ◌=~◌, Bool, true, false, ◌||◌, leb, List, [], ◌∷◌, ◌++◌,
  Option, none, some, map, Map, member, contains_any, to_lower, if◌then◌else◌,
}
use batchflow.Prelude.Int.{ℤ, pos, negsuc}
use batchflow.Model.{Value}
use batchflow.Errors.{Error, error_text}
use batchflow.Observability.{BatchEvent, Library}

-- Sampler: its method ShouldSample
abbrev pub Sampler : Type 0
Sampler = BatchEvent → Bool

-- Redactor: its method Redact
abbrev pub Redactor : Type 0
Redactor = String → Value → Value

-- SamplerFunc and RedactorFunc, which may be nil
unfoldable pub sampler_func : Option Sampler → Sampler
sampler_func none event = false
sampler_func (some f) event = f event

unfoldable pub redactor_func : Option Redactor → Redactor
redactor_func none key value = value
redactor_func (some f) key value = f key value

abbrev has_failed : BatchEvent → Bool
has_failed event = elim event.err [ some e ↦ true | none ↦ event.status =~ "fail" ]

-- slowThreshold > 0 && event.Duration >= slowThreshold
abbrev is_slow : ℤ → ℕ → Bool
is_slow (pos (suc n)) d = leb (suc n) d
is_slow (pos zero) d = false
is_slow (negsuc n) d = false

-- NewErrorAndSlowSampler
unfoldable pub new_error_and_slow_sampler : ℤ → Sampler
new_error_and_slow_sampler slow_threshold event =
    if has_failed event then true else is_slow slow_threshold event.duration

-- A float64 in comparisons: with 0, with 1, and with n / 10000.
pub record Ratio : Type 0 where
  pub at_most_zero : Bool
  pub at_least_one : Bool
  pub is_above : ℕ → Bool

-- hashStringRatio, times 10000
unfoldable pub hash_string_ratio : Library → String → ℕ
hash_string_ratio lib s = lib.fnv64a s % 10000

-- NewRatioSampler
unfoldable pub new_ratio_sampler : Library → Ratio → Sampler
unfolding hash_string_ratio
new_ratio_sampler lib ratio event =
    if ratio.at_most_zero
    then false
    else if ratio.at_least_one
    then true
    else ratio.is_above (
        hash_string_ratio lib
          (event.schema ^^ ("|" ^^ (event.fingerprint ^^ ("|" ^^ event.stage)))))

abbrev pub redacted : Value
redacted = Value.string "[REDACTED]"

-- The test of the redactor on the lower-case key.
unfoldable pub is_sensitive : List String → String → Bool
unfolding member contains_any to_lower
is_sensitive fields key =
    let set = map to_lower fields in member (to_lower key) set || contains_any (to_lower key) set

-- NewFieldNameRedactor
unfoldable pub new_field_name_redactor : List String → Redactor
unfolding is_sensitive
new_field_name_redactor fields key value = if is_sensitive fields key then redacted else value

abbrev pub default_fields : List String
default_fields =
    "password" ∷ "passwd" ∷ "secret" ∷ "token" ∷ "credential" ∷ "authorization" ∷ "email" ∷ "phone"
    ∷ []

-- DefaultRedactor
unfoldable pub default_redactor : Redactor
unfolding new_field_name_redactor
default_redactor = new_field_name_redactor default_fields

-- What a record of the log holds under a key; a duration is in microseconds, where the source has
-- a float64 of milliseconds.
pub data LogValue : Type 0 where
  text : String → LogValue
  number : ℕ → LogValue
  duration : ℕ → LogValue
  value : Value → LogValue

pub data Level : Type 0 where
  error info : Level

-- A call of ErrorContext or InfoContext, all of which have the same message.
pub record LogRecord : Type 0 where
  pub level : Level
  pub attrs : List (String × LogValue)

-- slogObserver; its logger is the caller of these functions.
pub record SlogObserver : Type 0 where
  pub sampler : Option Sampler
  pub redactor : Option Redactor

-- NewSlogObserver
unfoldable pub new_slog_observer : Option Sampler → Option Redactor → ℤ → SlogObserver
unfolding new_error_and_slow_sampler default_redactor
new_slog_observer sampler redactor slow_batch_threshold = record {
  sampler =
      some (elim sampler [ some s ↦ s | none ↦ new_error_and_slow_sampler slow_batch_threshold ]);
  redactor = some (elim redactor [ some r ↦ r | none ↦ default_redactor ]);
}

-- redact
unfoldable pub redact : SlogObserver → String → Value → Value
redact o key v = elim o.redactor [ none ↦ v | some r ↦ r key v ]

unfoldable pub redact_attributes : SlogObserver → Map Value → List (String × LogValue)
unfolding redact
redact_attributes o [] = []
redact_attributes o ((key, v) ∷ attrs) =
    (key, LogValue.value (redact o key v)) ∷ redact_attributes o attrs

abbrev pub event_attrs : BatchEvent → List (String × LogValue)
event_attrs event =
    ("stage", LogValue.text event.stage)
    ∷ ("backend", LogValue.text event.backend)
    ∷ ("operation", LogValue.text event.operation)
    ∷ ("schema", LogValue.text event.schema)
    ∷ ("status", LogValue.text event.status)
    ∷ ("attempt", LogValue.number event.attempt)
    ∷ ("batch_size", LogValue.number event.batch_size)
    ∷ ("input_items", LogValue.number event.input_items)
    ∷ ("output_items", LogValue.number event.output_items)
    ∷ ("arg_count", LogValue.number event.arg_count)
    ∷ ("duration_ms", LogValue.duration (event.duration / 1000))
    ∷ ("fingerprint", LogValue.text event.fingerprint)
    ∷ ("reason", LogValue.text event.reason)
    ∷ []

unfoldable pub log_with : Option Error → List (String × LogValue) → LogRecord
unfolding error_text
log_with none attrs = record { level = Level.info; attrs = attrs }
log_with (some e) attrs = record {
  level = Level.error;
  attrs = attrs ++ ("error", LogValue.text (error_text e)) ∷ [];
}

unfoldable pub log_event : SlogObserver → BatchEvent → LogRecord
unfolding redact_attributes log_with
log_event o event = log_with event.err (event_attrs event ++ redact_attributes o event.attributes)

abbrev is_sampled : SlogObserver → BatchEvent → Bool
is_sampled o event = elim o.sampler [ none ↦ true | some s ↦ s event ]

-- OnBatchEvent: what the logger is given, if anything
unfoldable pub on_batch_event : SlogObserver → BatchEvent → Option LogRecord
unfolding log_event
on_batch_event o event = if is_sampled o event then some (log_event o event) else none

-- ObservabilityConfig; an observer of the caller's is a number.
pub record ObservabilityConfig : Type 0 where
  pub observer : Option ℕ
  pub has_logger : Bool
  pub sampler : Option Sampler
  pub redactor : Option Redactor
  pub slow_batch_threshold : ℤ

pub data Observer : Type 0 where
  given : ℕ → Observer
  slog : SlogObserver → Observer

-- ObservabilityConfig.observer
unfoldable pub observer_of : ObservabilityConfig → Option Observer
unfolding new_slog_observer
observer_of c = elim c.observer [
  | some o ↦ some (Observer.given o)
  | none ↦
      if c.has_logger
      then some (Observer.slog (new_slog_observer c.sampler c.redactor c.slow_batch_threshold))
      else none
]
