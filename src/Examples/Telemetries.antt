-- ===== src/Examples/Telemetries.antt =====
-- Telemetry at concrete events.
use zed_sync.Prelude.{true, false, none, some, List, [], ◌∷◌, ◌++◌, codes, ◌≡◌, refl}
use zed_sync.Json.{Value, undefined, string, object, Fields, end, field}
use zed_sync.Telemetry.{Sink, live_sinks, combine_telemetry}
use zed_sync.Telemetry.Combine.{Event, tell_all, combined_sink_hears_all}
use zed_sync.Telemetry.Otel.{Host, OtelDeps}

-- The host keeps the events that one sink was told; another one throws.
abbrev recorder : Sink (List Event)
recorder n a w = record { threw = false; after = w ++ (n, a) ∷ [] }

abbrev thrower : Sink (List Event)
thrower n a w = record { threw = true; after = w }

abbrev flush_events : List Event
flush_events =
    (codes "sync.flush.start", some end)
    ∷ (codes "sync.flush.failed", some (field (codes "error") (string (codes "offline")) end))
    ∷ (codes "sync.flush.start", none)
    ∷ []

combined_sink_hears_all_example :
    ((tell_all
        (combine_telemetry ((some thrower ∷ []) ++ some recorder ∷ none ∷ some thrower ∷ []))
        flush_events
        []).threw
      ≡ false)
    × ((tell_all
          (combine_telemetry ((some thrower ∷ []) ++ some recorder ∷ none ∷ some thrower ∷ []))
          flush_events
          []).after
        ≡ flush_events)
unfolding live_sinks
combined_sink_hears_all_example =
    combined_sink_hears_all (λ w. w) (some thrower ∷ []) (none ∷ some thrower ∷ []) recorder
      flush_events [] (λ n a w. refl) (λ n a w. refl, tt) (λ n a w. refl, tt)

-- No foreign value is a function, and the text of everything is "{}".
abbrev stringify : Value → Value
stringify undefined = undefined
stringify v = string (codes "{}")

abbrev host : Host
host = record {
  callable = λ n. false;
  stringify = stringify;
  message_of = λ v. codes "offline";
  exception_of = λ v. v;
}

abbrev attributes : Fields
attributes =
    field (codes "table") (string (codes "notes"))
      (field (codes "row") (object end) (field (codes "outcome") undefined end))

abbrev all_deps : OtelDeps
all_deps = record {
  has_tracer = true;
  has_meter = true;
  has_logger = true;
  sets_attributes = true;
  records_exceptions = true;
  sets_status = true;
}
