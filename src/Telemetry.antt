-- ===== src/Telemetry.antt =====
-- sdk/src/telemetry.mjs: sinks of events, and their combination. A sink is a function of what the
-- host keeps, the console included.
pub mod Combine
pub mod Otel
pub mod Counts
use zed_sync.Prelude.{
  ℕ, Bool, true, false, not, if◌then◌else◌, Option, none, some, List, [], ◌∷◌, ◌++◌, JsString,
  codes,
}
use zed_sync.Json.{Fields, get, is_undefined}

-- What a call of a sink ends with: whether it threw, and what the host keeps then.
pub record Heard {ℓ} (W : Type ℓ) : Type ℓ where
  pub threw : Bool
  pub after : W

-- `event(name, attributes)`, where the attributes may be missing.
abbrev pub Sink {ℓ} : Type ℓ → Type ℓ
Sink W = JsString → Option Fields → W → Heard W

abbrev pub returned {ℓ} : {W : Type ℓ} → W → Heard W
returned w = record { threw = false; after = w }

unfoldable pub noop_telemetry {ℓ} : {W : Type ℓ} → Sink W
noop_telemetry name attributes w = returned w

-- `attributes && attributes.error !== undefined`
unfoldable pub tells_error : Option Fields → Bool
tells_error none = false
tells_error (some fs) = not (is_undefined (get (codes "error") fs))

-- `makeConsoleTelemetry(prefix)`, with the two methods of the console.
unfoldable pub make_console_telemetry {ℓ} : {W : Type ℓ} → JsString → Sink W → Sink W → Sink W
unfolding tells_error
make_console_telemetry prefix warn debug name attributes w =
    let line = prefix ++ (32 ∷ name) in
    if tells_error attributes then warn line attributes w else debug line attributes w

-- `sinks.filter(Boolean)`
unfoldable pub live_sinks {ℓ} : {W : Type ℓ} → List (Option (Sink W)) → List (Sink W)
live_sinks [] = []
live_sinks (none ∷ sinks) = live_sinks sinks
live_sinks (some sink ∷ sinks) = sink ∷ live_sinks sinks

-- The loop of `event`: whether a sink throws is dropped.
unfoldable pub tell_each {ℓ} : {W : Type ℓ} → List (Sink W) → Sink W
tell_each [] name attributes w = returned w
tell_each (sink ∷ sinks) name attributes w =
    tell_each sinks name attributes (sink name attributes w).after

unfoldable pub combine_telemetry {ℓ} : {W : Type ℓ} → List (Option (Sink W)) → Sink W
unfolding live_sinks tell_each
combine_telemetry sinks = tell_each (live_sinks sinks)
