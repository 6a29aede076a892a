-- ===== src/Observability/Redaction.antt =====
-- What the logging observer of observability.go lets through, and what it holds back.
use batchflow.Prelude.{
  ◌≡◌, refl, ap, true, String, ◌^^◌, contains, contains_any, has_prefix, to_lower, map, arith, List,
  [], ◌∷◌, ◌++◌, Option, none, some, Map, if◌then◌else◌,
}
use mathlib.Core.List.{map-append}
use text.Mathlib.TextLemmas.{nil-append, cons-append}
use batchflow.Prelude.Int.{ℤ}
use batchflow.Model.{Value}
use batchflow.Errors.{Error, error_text}
use batchflow.Observability.{BatchEvent}
use batchflow.Observability.Observers.{
  SlogObserver, Redactor, LogValue, Level, new_slog_observer, new_field_name_redactor,
  new_error_and_slow_sampler, is_sensitive, redact, redact_attributes, log_event, log_with,
  event_attrs, on_batch_event,
}

-- The key holds the name of a field, both in lower case.
pub data Holds (field key : String) : Type 0 where
  at :
      (before after : String) → to_lower key ≡ before ^^ (to_lower field ^^ after) → Holds field key

-- The key holds the name of one of the fields.
pub data IsSecret (fields : List String) (key : String) : Type 0 where
  held :
      (before after : List String) (field : String)
      → fields ≡ before ++ field ∷ after
      → Holds field key
      → IsSecret fields key

has_prefix-empty : (s : String) → has_prefix s "" ≡ true
unfolding has_prefix
has_prefix-empty String.[] = refl
has_prefix-empty (String.◌∷◌ c s) = refl

has_prefix-append : (s after : String) → has_prefix (s ^^ after) s ≡ true
unfolding has_prefix
has_prefix-append String.[] after = rw (nil-append after) (has_prefix-empty after)
has_prefix-append (String.◌∷◌ c s) after =
    rw (cons-append c s after) (ground (arith, has_prefix-append s after))

contains-prefix : (s t : String) → has_prefix s t ≡ true → contains s t ≡ true
unfolding contains
contains-prefix String.[] t h = h
contains-prefix (String.◌∷◌ c s) t h = rw h refl

contains-infix : (before s after : String) → contains (before ^^ (s ^^ after)) s ≡ true
unfolding contains
contains-infix String.[] s after =
    rw (nil-append (s ^^ after)) (contains-prefix (s ^^ after) s (has_prefix-append s after))
contains-infix (String.◌∷◌ c before) s after =
    rw (cons-append c before (s ^^ after)) (ground (arith, contains-infix before s after))

contains_any-append :
    (s needle : String) (before after : List String)
    → contains s needle ≡ true
    → contains_any s (before ++ needle ∷ after) ≡ true
unfolding contains_any
contains_any-append s needle [] after h = ground (arith, h)
contains_any-append s needle (other ∷ before) after h =
    ground (arith, contains_any-append s needle before after h)

is_sensitive-IsSecret :
    (fields : List String) (key : String) → IsSecret fields key → is_sensitive fields key ≡ true
unfolding is_sensitive
is_sensitive-IsSecret fields key
      (IsSecret.held before after field same (Holds.at start end lowered)) =
    let found : contains (to_lower key) (to_lower field) ≡ true =
      rw lowered (contains-infix start (to_lower field) end) in
    let set : map to_lower fields ≡ map to_lower before ++ to_lower field ∷ map to_lower after =
      rw same (map-append to_lower before (field ∷ after)) in
    let any =
      contains_any-append (to_lower key) (to_lower field) (map to_lower before) (map to_lower after)
        found in
    rw set (ground (arith, any))

-- Two lists of attributes that differ only in the values under secret keys.
pub data SameButSecrets (fields : List String) : Map Value → Map Value → Type 0 where
  both_empty : SameButSecrets fields [] []
  kept :
      (key : String) (v : Value) (a b : Map Value)
      → SameButSecrets fields a b
      → SameButSecrets fields ((key, v) ∷ a) ((key, v) ∷ b)
  hidden :
      (key : String) (v w : Value) (a b : Map Value)
      → IsSecret fields key
      → SameButSecrets fields a b
      → SameButSecrets fields ((key, v) ∷ a) ((key, w) ∷ b)

abbrev pub with_attributes : BatchEvent → Map Value → BatchEvent
with_attributes event attributes = record event { attributes = attributes }

-- The observer with the sampler that NewSlogObserver chooses, and a redactor of field names.
unfoldable pub named_observer : List String → ℤ → SlogObserver
unfolding new_slog_observer
named_observer fields threshold =
    new_slog_observer none (some (new_field_name_redactor fields)) threshold

redact_attributes-SameButSecrets :
    (fields : List String) (threshold : ℤ) (a b : Map Value)
    → SameButSecrets fields a b
    → redact_attributes (named_observer fields threshold) a
      ≡ redact_attributes (named_observer fields threshold) b
unfolding redact_attributes redact named_observer new_field_name_redactor
redact_attributes-SameButSecrets fields threshold _ _ SameButSecrets.both_empty = refl
redact_attributes-SameButSecrets fields threshold _ _ (SameButSecrets.kept key v a b same) =
    rw (redact_attributes-SameButSecrets fields threshold a b same) refl
redact_attributes-SameButSecrets fields threshold _ _
      (SameButSecrets.hidden key v w a b secret same) =
    rw
      (
        redact_attributes-SameButSecrets fields threshold a b same,
        is_sensitive-IsSecret fields key secret,
      )
      refl

-- What the logging observer with the sampler that it chooses itself writes does not depend on a value
-- under a key that holds one of the redactor's field names, in capitals or not.
pub on_batch_event-SameButSecrets :
    (fields : List String) (threshold : ℤ) (event : BatchEvent) (a b : Map Value)
    → SameButSecrets fields a b
    → on_batch_event (named_observer fields threshold) (with_attributes event a)
      ≡ on_batch_event (named_observer fields threshold) (with_attributes event b)
unfolding on_batch_event log_event new_error_and_slow_sampler named_observer
on_batch_event-SameButSecrets fields threshold event a b same =
    let o = named_observer fields threshold in
    let attrs : redact_attributes o a ≡ redact_attributes o b =
      redact_attributes-SameButSecrets fields threshold a b same in
    ap
      (λ (l : List (String × LogValue)).
        if new_error_and_slow_sampler threshold event
        then some (log_with event.err (event_attrs event ++ l))
        else none)
      attrs

-- Whatever the redactor and the threshold for slow batches, the observer with the sampler that it
-- chooses itself writes every event that has an error, as an error with the error's text at its end.
pub on_batch_event-error :
    (redactor : Option Redactor) (threshold : ℤ) (event : BatchEvent) (e : Error)
    → event.err ≡ some e
    → (attrs : List (String × LogValue)) × (on_batch_event
          (new_slog_observer none redactor threshold)
          event
        ≡ some (record {
          level = Level.error;
          attrs = attrs ++ ("error", LogValue.text (error_text e)) ∷ [];
        }))
unfolding on_batch_event log_event new_error_and_slow_sampler new_slog_observer
on_batch_event-error redactor threshold event e failed = (
  event_attrs event
      ++ redact_attributes (new_slog_observer none redactor threshold) event.attributes,
  rw failed refl,
)
