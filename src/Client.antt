-- ===== src/Client.antt =====
-- `SyncClient` of sdk/src/client.mjs: its state, and the effects that its methods are made of.
-- A method is a function of the state; what it wrote before it threw stays written. Telemetry and
-- `onError` are recorded in order. `now` is the present reading of `Date.now()`.
pub mod Incoming
pub mod Drafts
pub mod Outgoing
pub mod Flush
pub mod Calm
pub mod Slots
pub mod Views
pub mod Converge
pub mod Keeps
pub mod Local
pub mod Ends
pub mod RoundTrip
pub mod Alias
pub mod Copies
pub mod Accepted
pub mod Orders
pub mod Drains
pub mod Keys
pub mod Threads
use zed_sync.Prelude.{
  ℕ, suc, ◌+◌, Bool, true, false, ◌||◌, if◌then◌else◌, Option, none, some, List, [], ◌∷◌, ◌++◌,
  JsString, codes, str_eq,
}
use zed_sync.Result.{JsError, Result, ok, err, lifecycle_error, queue_overflow, no_transport}
use zed_sync.Hlc.{Hlc, Clock, new_clock}
use zed_sync.Json.{Value}
use zed_sync.Policy.{WriteMode, ErrorPolicy, ConflictResolution, should_throw, should_emit}
use zed_sync.Core.{Op, QueuedWrite}
use zed_sync.Store.{Store}
use zed_sync.Lifecycle.{Snapshot, AppPhase}
use zed_sync.Lifecycle.Capabilities.{Capabilities, app_capabilities}
use zed_sync.Radix.{to_radix}

-- The context object of an error report or a telemetry event.
pub record Context : Type 0 where
  pub table : JsString
  pub id : JsString
  pub op : Option Op
  pub mode : Option WriteMode

pub data ChangeOutcome : Type 0 where
  applied ignored conflict_resolved refreshed : ChangeOutcome

pub data TelemetryEvent : Type 0 where
  lifecycle_rejected : JsString → AppPhase → TelemetryEvent
  change_rejected : JsString → JsString → TelemetryEvent
  change : JsString → JsString → ChangeOutcome → TelemetryEvent
  write_start write_local write_acked : Context → TelemetryEvent
  write_queued write_failed : Context → JsError → TelemetryEvent
  flush_start : TelemetryEvent
  flush_failed : JsString → JsString → JsError → TelemetryEvent
  flush_done : ℕ → TelemetryEvent
  hydrate_start : ℕ → TelemetryEvent

pub record Client : Type 0 where
  pub store : Store
  pub actor : JsString
  pub write_mode : WriteMode
  pub error_policy : ErrorPolicy
  pub conflict_resolution : ConflictResolution
  pub tables : Option (List JsString)
  pub lifecycle : Option Snapshot
  pub clock : Clock
  -- The module's counter `seq` of keys.
  pub key_seq : ℕ
  pub now : ℕ
  pub telemetry : List TelemetryEvent
  pub errors : List (JsError × Context)

-- A method, or the part of one between two points where the event loop may run something else.
abbrev pub Exec : Type 0 → Type 0
Exec A = Client → Result A × Client

abbrev pub continue : {A B : Type 0} → Result A → (A → Exec B) → Exec B
continue (ok a) f c = f a c
continue (err e) f c = (err e, c)

infixl 10 ◌>>=◌ ◌>>◌
abbrev pub ◌>>=◌ : {A B : Type 0} → Exec A → (A → Exec B) → Exec B
◌>>=◌ m f c = continue (m c).0 f (m c).1

abbrev pub ◌>>◌ : {A B : Type 0} → Exec A → Exec B → Exec B
m >> n = m >>= λ _. n

abbrev pub pure : {A : Type 0} → A → Exec A
pure a c = (ok a, c)

abbrev pub raise : {A : Type 0} → JsError → Exec A
raise e c = (err e, c)

abbrev pub lift : {A : Type 0} → Result A → Exec A
lift r c = (r, c)

abbrev pub gets : {A : Type 0} → (Client → A) → Exec A
gets f c = (ok (f c), c)

abbrev pub recover : {A : Type 0} → Result A → (JsError → Exec A) → Exec A
recover (ok a) handler c = (ok a, c)
recover (err e) handler c = handler e c

-- `try { m } catch (e) { handler(e) }`
abbrev pub catch : {A : Type 0} → Exec A → (JsError → Exec A) → Exec A
catch m handler c = recover (m c).0 handler (m c).1

-- `telemetry.event(...)`
unfoldable pub emit : TelemetryEvent → Exec (Unit {0})
emit e c = (ok tt, record c { telemetry = c.telemetry ++ e ∷ [] })

unfoldable pub modify_store : (Store → Store) → Exec (Unit {0})
modify_store f c = (ok tt, record c { store = f c.store })

-- `onError?.(err, ctx)`
unfoldable pub report : JsError → Context → Exec (Unit {0})
report e ctx c = (ok tt, record c { errors = c.errors ++ (e, ctx) ∷ [] })

-- `#surface`
unfoldable pub surface : JsError → Context → ErrorPolicy → Exec (Unit {0})
unfolding emit report should_emit should_throw
surface e ctx policy = do
  (if should_emit policy then (do emit (write_failed ctx e); report e ctx) else pure tt)
  (if should_throw policy then raise e else pure tt)

-- Which capability a method asks for.
pub data Capability : Type 0 where
  may_write may_receive_changes : Capability

unfoldable pub grants : Capabilities → Capability → Bool
grants k may_write = k.can_write
grants k may_receive_changes = k.can_receive_changes

-- `#requireCapability`; without a lifecycle everything is allowed.
unfoldable pub require_capability : Capability → JsString → Exec (Unit {0})
unfolding emit grants
require_capability capability operation c = elim c.lifecycle [
  | none ↦ (ok tt, c)
  | some s ↦
      if grants (app_capabilities s) capability
      then (ok tt, c)
      else (emit (lifecycle_rejected operation s.phase) >> raise (lifecycle_error operation)) c
]

-- `nextKey(actor)`: the actor, the time and the counter in radix 36, joined by '-'.
unfoldable pub key_of : JsString → ℕ → ℕ → JsString
key_of actor now seq = actor ++ 45 ∷ (to_radix 36 now ++ 45 ∷ to_radix 36 seq)

unfoldable pub next_key : Exec JsString
unfolding key_of
next_key c = (ok (key_of c.actor c.now c.key_seq), record c { key_seq = c.key_seq + 1 })

-- The constructor, on options that passed its checks.
unfoldable pub new_client :
    Store
    → JsString
    → WriteMode
    → ErrorPolicy
    → ConflictResolution
    → Option (List JsString)
    → Option Snapshot
    → ℕ
    → Client
unfolding new_clock
new_client store actor mode policy resolution tables lifecycle now = record {
  store = store;
  actor = actor;
  write_mode = mode;
  error_policy = policy;
  conflict_resolution = resolution;
  tables = tables;
  lifecycle = lifecycle;
  clock = new_clock actor;
  key_seq = 0;
  now = now;
  telemetry = [];
  errors = [];
}
