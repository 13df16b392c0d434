-- ===== src/Session.antt =====
-- The session that `startSync` of sdk/src/start.mjs brings up: which lifecycle events its callbacks
-- dispatch, and what a failed startup and `stop` release. A function ends where the source awaits;
-- what the transports and the lease call in between are calls of their own. Stopping a transport
-- and the listeners of the lifecycle are taken not to throw.
pub mod Ends
pub mod Startup
use zed_sync.Prelude.{
  ℕ, Bool, true, false, not, ◌&&◌, ◌||◌, if◌then◌else◌, Option, none, some, List, [], ◌∷◌,
}
use zed_sync.Json.{boolean}
use zed_sync.Result.{Result, ok, err}
use zed_sync.Lifecycle.{
  Snapshot, LifecycleEvent, start_requested, start_succeeded, start_failed, runtime_failed,
  stop_requested, stop_succeeded, reconcile_requested, connectivity_changed, Token, integer,
  malformed, TransitionOutcome, applied, stuttered, initial_snapshot,
}
use zed_sync.Lifecycle.Capabilities.{is_failed, is_stopped}
use zed_sync.Lifecycle.Dispatch.{dispatch}

pub data Transport : Type 0 where
  backend supabase : Transport

-- What a session holds outside the lifecycle.
pub record Effects : Type 0 where
  -- The transports whose `stop` is in `stoppers`.
  pub stoppers : List Transport
  -- The backend stream was started and is not stopped.
  pub backend_runs : Bool
  -- A realtime channel was made and is not removed.
  pub supabase_runs : Bool
  -- The variable `lease` is set.
  pub has_lease : Bool
  -- The lease has its grant, which acquiring gives, and losing or releasing it takes away.
  pub lease_held : Bool

-- The variables that the closures of `startSync` share.
pub record Session : Type 0 where
  pub machine : Snapshot
  -- `lifecycle.snapshot.activeToken` after the start request.
  pub session_token : Option ℕ
  -- `onlineTransports`, a set of at most two names.
  pub backend_online : Bool
  pub supabase_online : Bool
  pub effects : Effects
  -- `stopPromise` is set.
  pub is_stopping : Bool

abbrev pub token_of : Option ℕ → Token
token_of none = malformed
token_of (some t) = integer t

-- `lifecycle.dispatch(event)`, and its outcome.
unfoldable pub send_event : LifecycleEvent → Session → Result (Session × TransitionOutcome)
send_event e s = elim (dispatch s.machine e) [
  | ok p ↦ ok (record s { machine = p.0 }, p.1)
  | err x ↦ err x
]

-- A dispatch whose outcome is not looked at.
unfoldable pub notify : LifecycleEvent → Session → Result Session
unfolding send_event
notify e s = elim (send_event e s) [ ok p ↦ ok (p.0) | err x ↦ err x ]

abbrev pub fresh_session : Session
fresh_session = record {
  machine = initial_snapshot 0;
  session_token = none;
  backend_online = false;
  supabase_online = false;
  effects = record {
    stoppers = [];
    backend_runs = false;
    supabase_runs = false;
    has_lease = false;
    lease_held = false;
  };
  is_stopping = false;
}

-- The start request; `none` is the error that no startup operation could be allocated.
unfoldable pub begin_session : Result (Option Session)
unfolding send_event
begin_session = elim (send_event start_requested fresh_session) [
  | ok (s, applied) ↦ ok (some (record s { session_token = s.machine.active_token }))
  | ok (s, outcome) ↦ ok none
  | err x ↦ err x
]

unfoldable pub set_online : Transport → Bool → Session → Session
set_online backend online s = record s { backend_online = online }
set_online supabase online s = record s { supabase_online = online }

-- `reportTransport(name, online)`
unfoldable pub report_transport : Transport → Bool → Session → Result Session
unfolding set_online notify
report_transport name online s =
    let s' = set_online name online s in
    notify
      (connectivity_changed (token_of s'.session_token)
        (boolean (s'.backend_online || s'.supabase_online)))
      s'

unfoldable pub set_runs : Transport → Bool → Effects → Effects
set_runs backend runs x = record x { backend_runs = runs }
set_runs supabase runs x = record x { supabase_runs = runs }

-- `s.stop()` of each.
unfoldable pub stop_each : List Transport → Effects → Effects
unfolding set_runs
stop_each [] x = x
stop_each (t ∷ ts) x = stop_each ts (set_runs t false x)

unfoldable pub stop_all : Effects → Effects
unfolding stop_each
stop_all x = stop_each x.stoppers (record x { stoppers = [] })

unfoldable pub stop_transports : Session → Session
unfolding stop_all
stop_transports s = record s { effects = stop_all s.effects }

-- `lease.release()`, where there is a lease.
unfoldable pub release_lease : Effects → Effects
release_lease x = if x.has_lease then record x { lease_held = false } else x

-- What is left once the lease is lost and the transports are stopped.
unfoldable pub revoke : Effects → Effects
unfolding stop_all
revoke x = record (stop_all x) { lease_held = false }

-- `onLost` of the lease, which is not held any more.
unfoldable pub lease_lost : Session → Result Session
unfolding revoke notify
lease_lost s =
    notify (runtime_failed (token_of s.session_token)) (record s { effects = revoke s.effects })

-- The last step of a startup that succeeded.
unfoldable pub finish_startup : Session → Result Session
unfolding notify
finish_startup s = notify (start_succeeded (token_of s.session_token)) s

-- The `catch` of `startSync`, up to its `await`.
unfoldable pub abandon_startup : Session → Session
unfolding stop_all release_lease
abandon_startup s = record s { effects = release_lease (stop_all s.effects) }

-- Its last step.
unfoldable pub fail_startup : Session → Result Session
unfolding notify
fail_startup s = notify (start_failed (token_of s.session_token)) s

-- What `stop` has done when it first awaits.
pub data Stopping : Type 0 where
  already_stopping already_stopped refused : Stopping
  -- With the token of the stop operation.
  under_way : Option ℕ → Stopping

unfoldable pub after_stop_event : Session × TransitionOutcome → Stopping × Session
unfolding stop_transports
after_stop_event (s, applied) =
    (under_way s.machine.active_token, stop_transports (record s { is_stopping = true }))
after_stop_event (s, stuttered) =
    (if is_stopped s.machine.phase then already_stopped else refused, s)
after_stop_event (s, outcome) = (refused, s)

unfoldable pub begin_stop_session : Session → Result (Stopping × Session)
unfolding send_event after_stop_event
begin_stop_session s =
    if s.is_stopping
    then ok (already_stopping, s)
    else elim (send_event
        (if is_failed s.machine.phase then reconcile_requested else stop_requested) s) [
          | ok p ↦ ok (after_stop_event p)
          | err x ↦ err x
        ]

-- The rest of `stop`, once the lease is released.
unfoldable pub finish_stop_session : Option ℕ → Session → Result Session
unfolding notify release_lease
finish_stop_session stop_token s =
    notify (stop_succeeded (token_of stop_token)) (record s { effects = release_lease s.effects })
