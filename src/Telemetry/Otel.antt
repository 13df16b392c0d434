-- ===== src/Telemetry/Otel.antt =====
-- `makeOtelTelemetry` and `flatten` of sdk/src/telemetry.mjs. The calls of the injected tracer,
-- meter and logger are listed in order; these objects, JSON.stringify, String and Error are the
-- host's.
use zed_sync.Prelude.{
  ℕ, Bool, true, false, not, ◌&&◌, if◌then◌else◌, Option, none, some, List, [], ◌∷◌, ◌++◌, JsString,
  codes, str_eq,
}
use zed_sync.Json.{
  Value, undefined, null, string, array, object, foreign, Fields, end, field, get, set,
  is_undefined,
}

-- What the host has: `callable` tells which foreign values `typeof` does not call "object", as it
-- does not a function; `stringify` is JSON.stringify on values on which it does not throw, `message_of` is
-- `String(error?.message ?? error)`, `exception_of` is the error itself or a new one of its text.
pub record Host : Type 0 where
  pub callable : ℕ → Bool
  pub stringify : Value → Value
  pub message_of : Value → JsString
  pub exception_of : Value → Value

-- `v == null || typeof v === "object"`
unfoldable pub must_stringify : Host → Value → Bool
must_stringify host undefined = true
must_stringify host null = true
must_stringify host (array vs) = true
must_stringify host (object fs) = true
must_stringify host (foreign n) = not (host.callable n)
must_stringify host _ = false

unfoldable pub flat_value : Host → Value → Value
unfolding must_stringify
flat_value host v = if must_stringify host v then host.stringify v else v

-- The loop over `Object.entries(attrs)`. Of an own key `__proto__` the assignment makes no key.
unfoldable pub flatten_into : Host → Fields → Fields → Fields
unfolding flat_value
flatten_into host out end = out
flatten_into host out (field k v fs) =
    flatten_into host (if str_eq k (codes "__proto__") then out else set k (flat_value host v) out)
      fs

unfoldable pub flatten : Host → Fields → Fields
unfolding flatten_into
flatten host attrs = flatten_into host end attrs

-- `const { error, ...attrs } = attributes`
unfoldable pub without : JsString → Fields → Fields
without key end = end
without key (field k v fs) = if str_eq k key then without key fs else field k v (without key fs)

-- Which of the optional dependencies there are; a span's methods but `end` are optional as well.
pub record OtelDeps : Type 0 where
  pub has_tracer : Bool
  pub has_meter : Bool
  pub has_logger : Bool
  pub sets_attributes : Bool
  pub records_exceptions : Bool
  pub sets_status : Bool

pub data OtelCall : Type 0 where
  -- `add(1, { event })` of the two counters.
  count_event count_error : JsString → OtelCall
  start_span : JsString → Fields → OtelCall
  set_attributes : Fields → OtelCall
  record_exception : Value → OtelCall
  -- `setStatus` with the code ERROR.
  set_error_status : JsString → OtelCall
  end_span : OtelCall
  -- `emit`, with the severity's number and text.
  emit_record : ℕ → JsString → JsString → Fields → OtelCall

abbrev pub when_so {ℓ} : {A : Type ℓ} → Bool → List A → List A
when_so b xs = if b then xs else []

-- `const isError = error !== undefined`
unfoldable pub event_fails : Fields → Bool
event_fails attributes = not (is_undefined (get (codes "error") attributes))

unfoldable pub span_calls : Host → OtelDeps → JsString → Fields → List OtelCall
unfolding event_fails flatten without
span_calls host deps name attributes =
    let error = get (codes "error") attributes in
    let is_error = event_fails attributes in
    let flat = flatten host (without (codes "error") attributes) in
    start_span name flat
    ∷ (when_so deps.sets_attributes (set_attributes flat ∷ [])
        ++ (when_so (is_error && deps.records_exceptions)
              (record_exception (host.exception_of error) ∷ [])
            ++ (when_so (is_error && deps.sets_status)
                  (set_error_status (host.message_of error) ∷ [])
                ++ end_span ∷ [])))

unfoldable pub log_call : Host → JsString → Fields → OtelCall
unfolding event_fails flatten without
log_call host name attributes =
    let attrs = without (codes "error") attributes in
    if event_fails attributes
    then emit_record 17 (codes "ERROR") name (
        flatten host
          (set (codes "error") (string (host.message_of (get (codes "error") attributes))) attrs))
    else emit_record 9 (codes "INFO") name (flatten host attrs)

abbrev pub or_empty : Option Fields → Fields
or_empty none = end
or_empty (some fs) = fs

-- `event(name, attributes = {})`
unfoldable pub otel_event : Host → OtelDeps → JsString → Option Fields → List OtelCall
unfolding span_calls log_call event_fails
otel_event host deps name given =
    let attributes = or_empty given in
    when_so deps.has_meter (count_event name ∷ [])
    ++ (when_so (deps.has_meter && event_fails attributes) (count_error name ∷ [])
        ++ (when_so deps.has_tracer (span_calls host deps name attributes)
            ++ when_so deps.has_logger (log_call host name attributes ∷ [])))
