-- ===== src/Core.antt =====
-- sdk/src/core.mjs: the pure decisions of reconciliation and of ack settlement. `loadWasmCore`
-- calls the WebAssembly build of the Rust core and is not modelled.
pub mod Settle
pub mod Decide
use zed_sync.Prelude.{
  ℕ, Ordering, Bool, true, false, not, ◌&&◌, ◌||◌, if◌then◌else◌, Option, none, some, JsString,
  str_eq,
}
use zed_sync.Hlc.{Hlc, compare_hlc}
use zed_sync.Json.{Value}
use zed_sync.Policy.{ConflictResolution, server_wins, last_write_wins}

pub data Op : Type 0 where
  upsert delete : Op

unfoldable pub op_eq : Op → Op → Bool
op_eq upsert upsert = true
op_eq delete delete = true
op_eq _ _ = false

pub record ChangeEvent : Type 0 where
  pub table : JsString
  pub op : Op
  pub id : JsString
  pub version : Hlc
  pub row : Value
  pub at_ms : ℕ
  pub write_key : Option JsString
  pub sync_sequence : Option ℕ

pub record LocalRow : Type 0 where
  pub version : Hlc
  pub dirty : Bool

pub data Reconcile : Type 0 where
  apply : Reconcile
  ignore_stale ignore_already_applied : Reconcile
  conflict : Reconcile

reconcile_local : LocalRow → Ordering → Reconcile
reconcile_local local Ordering.lt = ignore_stale
reconcile_local local Ordering.eq = ignore_already_applied
reconcile_local local Ordering.gt = if local.dirty then conflict else apply

unfoldable pub reconcile : Option LocalRow → ChangeEvent → Reconcile
unfolding reconcile_local op_eq
reconcile none incoming = if op_eq incoming.op upsert then apply else ignore_already_applied
reconcile (some local) incoming = reconcile_local local (compare_hlc incoming.version local.version)

pub record WriteAck : Type 0 where
  pub id : JsString
  pub committed_version : Hlc

-- `some` is `{ Adopt: version }`, `none` is "Superseded".
unfoldable pub on_ack : LocalRow → WriteAck → Option Hlc
on_ack local ack = elim (compare_hlc local.version ack.committed_version) [
  | Ordering.gt ↦ none
  | _ ↦ some ack.committed_version
]

-- A record of the durable write queue.
pub record QueuedWrite : Type 0 where
  pub table : JsString
  pub id : JsString
  pub op : Op
  pub payload : Value
  pub base_version : Hlc
  pub key : JsString
  pub seq : ℕ

pub record Settlement : Type 0 where
  pub adopt : Option Hlc
  pub retire_current_slot : Bool

unfoldable pub is_eq : Ordering → Bool
is_eq Ordering.eq = true
is_eq _ = false

unfoldable pub is_some {ℓ} : {A : Type ℓ} → Option A → Bool
is_some none = false
is_some (some a) = true

unfoldable pub settle_queued_ack : LocalRow → QueuedWrite → JsString → Hlc → WriteAck → Settlement
unfolding on_ack is_eq is_some
settle_queued_ack local current_queued settling_key base_version ack =
    let exact_slot = str_eq current_queued.id ack.id && str_eq current_queued.key settling_key in
    let adopt = on_ack local ack in
    if not exact_slot || not (is_eq (compare_hlc local.version base_version))
    then record { adopt = none; retire_current_slot = false }
    else record { adopt = adopt; retire_current_slot = is_some adopt }

-- `incoming.write_key === queued.key`, false on a missing key.
unfoldable pub key_is : Option JsString → JsString → Bool
key_is none k = false
key_is (some j) k = str_eq j k

unfoldable pub is_own_echo : QueuedWrite → ChangeEvent → Bool
is_own_echo queued incoming =
    str_eq incoming.table queued.table
    && str_eq incoming.id queued.id
    && op_eq incoming.op queued.op
    && key_is incoming.write_key queued.key

unfoldable pub resolve_conflict : ConflictResolution → LocalRow → ChangeEvent → Bool
resolve_conflict server_wins local incoming = true
resolve_conflict last_write_wins local incoming =
    elim (compare_hlc incoming.version local.version) [ Ordering.gt ↦ true | _ ↦ false ]
