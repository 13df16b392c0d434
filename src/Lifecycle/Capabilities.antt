-- ===== src/Lifecycle/Capabilities.antt =====
-- `appCapabilities` of sdk/src/lifecycle.mjs: what a snapshot allows.
use zed_sync.Prelude.{Bool, true, false, ◌||◌}
use zed_sync.Result.{ok, err}
use zed_sync.Lifecycle.{
  AppPhase, stopped, starting, online, offline, stopping, failed, Snapshot,
  assert_app_lifecycle_invariant,
}

pub record Capabilities : Type 0 where
  pub can_start : Bool
  pub can_stop : Bool
  pub can_write : Bool
  pub can_receive_changes : Bool
  pub can_flush : Bool
  pub can_reconcile : Bool
  pub busy : Bool
  pub running : Bool

abbrev pub closed_capabilities : Capabilities
closed_capabilities = record {
  can_start = false;
  can_stop = false;
  can_write = false;
  can_receive_changes = false;
  can_flush = false;
  can_reconcile = false;
  busy = false;
  running = false;
}

abbrev pub is_stopped : AppPhase → Bool
is_stopped stopped = true
is_stopped _ = false

abbrev pub is_starting : AppPhase → Bool
is_starting starting = true
is_starting _ = false

-- `[STARTING, ONLINE, OFFLINE].includes(phase)`
abbrev pub is_active : AppPhase → Bool
is_active starting = true
is_active online = true
is_active offline = true
is_active _ = false

-- `[ONLINE, OFFLINE].includes(phase)`
abbrev pub is_running : AppPhase → Bool
is_running online = true
is_running offline = true
is_running _ = false

abbrev pub phase_is_online : AppPhase → Bool
phase_is_online online = true
phase_is_online _ = false

abbrev pub is_stopping : AppPhase → Bool
is_stopping stopping = true
is_stopping _ = false

abbrev pub is_failed : AppPhase → Bool
is_failed failed = true
is_failed _ = false

-- The capabilities of a snapshot that passed the check.
unfoldable pub open_capabilities : AppPhase → Capabilities
open_capabilities phase = record {
  can_start = is_stopped phase;
  can_stop = is_active phase;
  can_write = is_running phase;
  can_receive_changes = is_active phase;
  can_flush = phase_is_online phase;
  can_reconcile = is_failed phase;
  busy = is_starting phase || is_stopping phase;
  running = is_running phase;
}

unfoldable pub app_capabilities : Snapshot → Capabilities
unfolding open_capabilities
app_capabilities s = elim (assert_app_lifecycle_invariant s) [
  | err e ↦ closed_capabilities
  | ok s' ↦ open_capabilities s.phase
]
