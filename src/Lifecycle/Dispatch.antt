-- ===== src/Lifecycle/Dispatch.antt =====
-- `AppLifecycleMachine` of sdk/src/lifecycle.mjs: `dispatch` and the helpers that it calls.
use zed_sync.Prelude.{◌+◌, Bool, true, false, not, ◌&&◌, ◌||◌, ltb, leb, if◌then◌else◌, none, some}
use zed_sync.Json.{Value, boolean}
use zed_sync.Result.{Result, ok, err}
use zed_sync.Lifecycle.{
  AppPhase, stopped, starting, online, offline, stopping, failed, LifecycleOperation, none_running,
  start, stop, reconcile, LifecycleFailure, start_failure, runtime_failure, stop_failure,
  TransitionOutcome, applied, stuttered, stale, rejected, TokenRelation, current, superseded,
  invalid, Token, integer, malformed, LifecycleEvent, start_requested, stop_requested,
  reconcile_requested, start_succeeded, start_failed, runtime_failed, stop_succeeded, stop_failed,
  connectivity_changed, unknown_event, Snapshot, max_safe_integer, initial_snapshot, token_is,
  assert_app_lifecycle_invariant,
}
use zed_sync.Lifecycle.Capabilities.{is_active, is_stopped, is_starting, is_stopping, is_failed}

unfoldable pub token_relation : Snapshot → Token → TokenRelation
unfolding token_is
token_relation s malformed = invalid
token_relation s (integer t) =
    if not (leb t max_safe_integer) || not (ltb 0 t)
    then invalid
    else if token_is s.active_token t
    then current
    else if leb t s.generation
    then superseded
    else invalid

-- The pair `{ next, outcome }` that a case of the switch leaves.
abbrev pub Plan : Type 0
Plan = Snapshot × TransitionOutcome

unfoldable pub begin_stop : Snapshot → LifecycleOperation → Plan
begin_stop s operation = if leb max_safe_integer s.generation then (s, rejected) else (
  record {
    phase = stopping;
    operation = operation;
    generation = s.generation + 1;
    active_token = some (s.generation + 1);
    desired_running = false;
    is_online = false;
    failure = none;
  },
  applied,
)

unfoldable pub fail_with : Snapshot → LifecycleFailure → Snapshot
fail_with s failure = record {
  phase = failed;
  operation = none_running;
  generation = s.generation;
  active_token = none;
  desired_running = false;
  is_online = false;
  failure = some failure;
}

-- The first two lines of each case that carries a token: a superseded one returns STALE.
abbrev pub if_current : TokenRelation → Snapshot → Plan → Plan
if_current current s p = p
if_current superseded s p = (s, stale)
if_current invalid s p = (s, rejected)

abbrev pub phase_eq : AppPhase → AppPhase → Bool
phase_eq stopped stopped = true
phase_eq starting starting = true
phase_eq online online = true
phase_eq offline offline = true
phase_eq stopping stopping = true
phase_eq failed failed = true
phase_eq _ _ = false

abbrev pub bool_eq : Bool → Bool → Bool
bool_eq true b = b
bool_eq false b = not b

unfoldable pub connect : Snapshot → Value → Plan
connect s (boolean online') =
    let phase' = (if is_starting s.phase then starting else if online' then online else offline) in
    if bool_eq s.is_online online' && phase_eq s.phase phase'
    then (s, stuttered)
    else (record s { phase = phase'; is_online = online' }, applied)
connect s _ = (s, rejected)

-- The switch of `dispatch`.
unfoldable pub plan : Snapshot → LifecycleEvent → Plan
unfolding token_relation begin_stop fail_with connect initial_snapshot
plan s start_requested =
    if not (is_stopped s.phase) || leb max_safe_integer s.generation then (s, rejected) else (
      record {
        phase = starting;
        operation = start;
        generation = s.generation + 1;
        active_token = some (s.generation + 1);
        desired_running = true;
        is_online = false;
        failure = none;
      },
      applied,
    )
plan s (start_succeeded token) = if_current (token_relation s token) s (
    if not (is_starting s.phase) then (s, rejected) else (
      record s { phase = if s.is_online then online else offline; operation = none_running },
      applied,
    ))
plan s (start_failed token) =
    if_current (token_relation s token) s
      (if not (is_starting s.phase) then (s, rejected) else (fail_with s start_failure, applied))
plan s (connectivity_changed token online') =
    if_current (token_relation s token) s
      (if not (is_active s.phase) then (s, rejected) else connect s online')
plan s (runtime_failed token) =
    if_current (token_relation s token) s
      (if not (is_active s.phase) then (s, rejected) else (fail_with s runtime_failure, applied))
plan s stop_requested =
    if is_stopped s.phase || is_stopping s.phase
    then (s, stuttered)
    else if not (is_active s.phase)
    then (s, rejected)
    else begin_stop s stop
plan s (stop_succeeded token) =
    if_current (token_relation s token) s (
      if not (is_stopping s.phase) then (s, rejected) else (initial_snapshot s.generation, applied))
plan s (stop_failed token) =
    if_current (token_relation s token) s
      (if not (is_stopping s.phase) then (s, rejected) else (fail_with s stop_failure, applied))
plan s reconcile_requested =
    if not (is_failed s.phase) then (s, rejected) else begin_stop s reconcile
plan s unknown_event = (s, rejected)

-- `#commit` throws, and leaves the machine as it was, where the next snapshot is not coherent.
unfoldable pub commit : Snapshot → Result Plan
commit next = elim (assert_app_lifecycle_invariant next) [
  | ok s ↦ ok (next, applied)
  | err e ↦ err e
]

unfoldable pub settle : Snapshot → Plan → Result Plan
unfolding commit
settle before (next, applied) = commit next
settle before (next, outcome) = ok (before, outcome)

unfoldable pub dispatch : Snapshot → LifecycleEvent → Result Plan
unfolding plan settle
dispatch before event = settle before (plan before event)
