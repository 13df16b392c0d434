-- ===== src/Telemetry/Counts.antt =====
-- `makeOtelTelemetry` of sdk/src/telemetry.mjs: what its counters and spans add up to.
use zed_sync.Prelude.{
  ℕ, ◌+◌, Bool, true, false, ◌&&◌, length, if◌then◌else◌, Option, List, [], ◌∷◌, ◌++◌, JsString,
  str_eq, ◌≡◌, arith,
}
use zed_sync.Telemetry.Combine.{Event}
use zed_sync.Telemetry.Otel.{
  Host, OtelDeps, OtelCall, count_event, count_error, start_span, set_error_status, end_span,
  or_empty, event_fails, otel_event, span_calls, log_call,
}

unfoldable pub otel_run : Host → OtelDeps → List Event → List OtelCall
unfolding otel_event
otel_run host deps [] = []
otel_run host deps ((name, given) ∷ es) = otel_event host deps name given ++ otel_run host deps es

-- How many calls pass a test.
unfoldable pub tally : (OtelCall → Bool) → List OtelCall → ℕ
tally test [] = 0
tally test (c ∷ cs) = if test c then tally test cs + 1 else tally test cs

abbrev pub counts_event : JsString → OtelCall → Bool
counts_event n (count_event m) = str_eq m n
counts_event n _ = false

abbrev pub counts_error : JsString → OtelCall → Bool
counts_error n (count_error m) = str_eq m n
counts_error n _ = false

abbrev pub starts_span : OtelCall → Bool
starts_span (start_span n fs) = true
starts_span _ = false

abbrev pub ends_span : OtelCall → Bool
ends_span end_span = true
ends_span _ = false

abbrev pub marks_error : OtelCall → Bool
marks_error (set_error_status m) = true
marks_error _ = false

-- The events of a name, those among them that carry an error, and all that carry one.
unfoldable pub named : JsString → List Event → ℕ
named n [] = 0
named n ((m, given) ∷ es) = if str_eq m n then named n es + 1 else named n es

unfoldable pub failed_named : JsString → List Event → ℕ
failed_named n [] = 0
failed_named n ((m, given) ∷ es) =
    if str_eq m n && event_fails (or_empty given) then failed_named n es + 1 else failed_named n es

unfoldable pub failed_events : List Event → ℕ
failed_events [] = 0
failed_events ((m, given) ∷ es) =
    if event_fails (or_empty given) then failed_events es + 1 else failed_events es

tally-append :
    (test : OtelCall → Bool) (xs ys : List OtelCall)
    → tally test (xs ++ ys) ≡ tally test xs + tally test ys
unfolding tally
tally-append test [] ys = omega arith
tally-append test (x ∷ xs) ys = ground (arith, tally-append test xs ys)

tally-event :
    (host : Host) (deps : OtelDeps) (m n : JsString) (given : Option _)
    → tally (counts_event n) (otel_event host deps m given)
      ≡ (if deps.has_meter && str_eq m n then 1 else 0)
unfolding otel_event span_calls log_call tally
tally-event host deps m n given = ground arith

tally-error :
    (host : Host) (deps : OtelDeps) (m n : JsString) (given : Option _)
    → tally (counts_error n) (otel_event host deps m given)
      ≡ (if deps.has_meter && (str_eq m n && event_fails (or_empty given)) then 1 else 0)
unfolding otel_event span_calls log_call tally
tally-error host deps m n given = ground arith

tally-starts :
    (host : Host) (deps : OtelDeps) (m : JsString) (given : Option _)
    → tally starts_span (otel_event host deps m given) ≡ (if deps.has_tracer then 1 else 0)
unfolding otel_event span_calls log_call tally
tally-starts host deps m given = ground arith

tally-ends :
    (host : Host) (deps : OtelDeps) (m : JsString) (given : Option _)
    → tally ends_span (otel_event host deps m given) ≡ (if deps.has_tracer then 1 else 0)
unfolding otel_event span_calls log_call tally
tally-ends host deps m given = ground arith

tally-marks :
    (host : Host) (deps : OtelDeps) (m : JsString) (given : Option _)
    → tally marks_error (otel_event host deps m given)
      ≡ (if deps.has_tracer && (deps.sets_status && event_fails (or_empty given)) then 1 else 0)
unfolding otel_event span_calls log_call tally
tally-marks host deps m given = ground arith

abbrev pub when_n : Bool → ℕ → ℕ
when_n b n = if b then n else 0

-- With a meter, after any events, `zed_sync_events_total` has counted each name as often as there
-- were events of it, and `zed_sync_errors_total` as often as such events carried an error. With a
-- tracer, as many spans are started as there were events and as many are ended, and where a span
-- can have a status, as many are marked ERROR as there were events that carried an error. Without
-- them nothing of it happens.
pub otel_counts :
    (host : Host) (deps : OtelDeps) (n : JsString) (es : List Event)
    → (tally (counts_event n) (otel_run host deps es) ≡ when_n deps.has_meter (named n es))
      × (tally (counts_error n) (otel_run host deps es) ≡ when_n deps.has_meter (failed_named n es))
      × (tally starts_span (otel_run host deps es) ≡ when_n deps.has_tracer (length es))
      × (tally ends_span (otel_run host deps es) ≡ when_n deps.has_tracer (length es))
      × (tally marks_error (otel_run host deps es)
          ≡ when_n (deps.has_tracer && deps.sets_status) (failed_events es))
unfolding otel_run named failed_named failed_events tally
otel_counts host deps n [] = ground arith
otel_counts host deps n ((m, given) ∷ es) =
    let now = otel_event host deps m given in
    let rest = otel_run host deps es in
    let (a, b, c, d, e) = otel_counts host deps n es in
    (
      ground (arith, a, tally-append (counts_event n) now rest, tally-event host deps m n given),
      ground (arith, b, tally-append (counts_error n) now rest, tally-error host deps m n given),
      ground (arith, c, tally-append starts_span now rest, tally-starts host deps m given),
      ground (arith, d, tally-append ends_span now rest, tally-ends host deps m given),
      ground (arith, e, tally-append marks_error now rest, tally-marks host deps m given),
    )
