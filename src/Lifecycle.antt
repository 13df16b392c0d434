-- ===== src/Lifecycle.antt =====
-- sdk/src/lifecycle.mjs: the application lifecycle as a total state machine.
-- A token that an event carries is an integer, or `malformed` (a negative number, a fraction, any
-- other value). The children have the capabilities, `dispatch` and the listeners.
pub mod Dispatch
pub mod Capabilities
pub mod Coherent
pub mod Tokens
pub mod Authority
pub mod Listeners
pub mod Hearings
pub mod Quiet
pub mod Reentrant
pub mod Regress
use zed_sync.Prelude.{
  ℕ, ◌+◌, ◌-◌, ◌^◌, Bool, true, false, not, ◌&&◌, ◌||◌, ltb, leb, ◌==◌, if◌then◌else◌, Option, none,
  some, List, [], ◌∷◌, map,
}
use zed_sync.Json.{Value, boolean}
use zed_sync.Result.{Result, ok, err, type_error}

pub data AppPhase : Type 0 where
  stopped starting online offline stopping failed : AppPhase

pub data LifecycleOperation : Type 0 where
  none_running start stop reconcile : LifecycleOperation

pub data LifecycleFailure : Type 0 where
  start_failure runtime_failure stop_failure : LifecycleFailure

pub data TransitionOutcome : Type 0 where
  applied stuttered stale rejected : TransitionOutcome

pub data TokenRelation : Type 0 where
  current superseded invalid : TokenRelation

pub data Token : Type 0 where
  integer : ℕ → Token
  malformed : Token

pub data LifecycleEvent : Type 0 where
  start_requested stop_requested reconcile_requested : LifecycleEvent
  start_succeeded start_failed runtime_failed stop_succeeded stop_failed : Token → LifecycleEvent
  connectivity_changed : Token → Value → LifecycleEvent
  unknown_event : LifecycleEvent

pub record Snapshot : Type 0 where
  pub phase : AppPhase
  pub operation : LifecycleOperation
  pub generation : ℕ
  pub active_token : Option ℕ
  pub desired_running : Bool
  pub is_online : Bool
  pub failure : Option LifecycleFailure

-- `Number.MAX_SAFE_INTEGER`
abbrev pub max_safe_integer : ℕ
max_safe_integer = 2 ^ 53 - 1

unfoldable pub initial_snapshot : ℕ → Snapshot
initial_snapshot generation = record {
  phase = stopped;
  operation = none_running;
  generation = generation;
  active_token = none;
  desired_running = false;
  is_online = false;
  failure = none;
}

unfoldable pub no_failure : Option LifecycleFailure → Bool
no_failure none = true
no_failure (some f) = false

-- `activeToken === null`
unfoldable pub no_token : Option ℕ → Bool
no_token none = true
no_token (some t) = false

-- `activeToken === n`
unfoldable pub token_is : Option ℕ → ℕ → Bool
token_is none n = false
token_is (some t) n = t == n

unfoldable pub token_valid : Option ℕ → ℕ → Bool
token_valid none generation = true
token_valid (some t) generation = leb t max_safe_integer && ltb 0 t && leb t generation

unfoldable pub operation_is_none : LifecycleOperation → Bool
operation_is_none none_running = true
operation_is_none _ = false

unfoldable pub operation_is_start : LifecycleOperation → Bool
operation_is_start start = true
operation_is_start _ = false

unfoldable pub operation_ends : LifecycleOperation → Bool
operation_ends stop = true
operation_ends reconcile = true
operation_ends _ = false

-- The entry of the table `coherent` for a phase.
unfoldable pub coherent : AppPhase → Snapshot → Bool
unfolding no_failure no_token token_is operation_is_none operation_is_start operation_ends
coherent stopped s =
    operation_is_none s.operation
    && no_token s.active_token
    && not s.desired_running
    && not s.is_online
    && no_failure s.failure
coherent starting s =
    operation_is_start s.operation
    && token_is s.active_token s.generation
    && s.desired_running
    && no_failure s.failure
coherent online s =
    operation_is_none s.operation
    && token_is s.active_token s.generation
    && s.desired_running
    && s.is_online
    && no_failure s.failure
coherent offline s =
    operation_is_none s.operation
    && token_is s.active_token s.generation
    && s.desired_running
    && not s.is_online
    && no_failure s.failure
coherent stopping s =
    operation_ends s.operation
    && token_is s.active_token s.generation
    && not s.desired_running
    && not s.is_online
    && no_failure s.failure
coherent failed s =
    operation_is_none s.operation
    && no_token s.active_token
    && not s.desired_running
    && not s.is_online
    && not (no_failure s.failure)

unfoldable pub assert_app_lifecycle_invariant : Snapshot → Result Snapshot
unfolding token_valid coherent
assert_app_lifecycle_invariant s =
    if not (leb s.generation max_safe_integer) || not (token_valid s.active_token s.generation)
    then err type_error
    else if not (coherent s.phase s)
    then err type_error
    else ok s
