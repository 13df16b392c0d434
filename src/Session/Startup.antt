-- ===== src/Session/Startup.antt =====
-- `startSync` of sdk/src/start.mjs from its call to its end, against what its parts answer and what
-- they call while it waits. Before the lease is acquired and the transports are started nothing calls
-- back.
pub mod Alive
pub mod Settles
pub mod Stops
pub mod Wiring
use zed_sync.Prelude.{
  Bool, true, false, ◌&&◌, if◌then◌else◌, Option, none, some, List, [], ◌∷◌, ◌++◌,
}
use zed_sync.Result.{JsError, Result, ok, err}
use zed_sync.Lifecycle.Capabilities.{app_capabilities}
use zed_sync.Session.{
  Transport, backend, supabase, set_runs, Session, begin_session, finish_startup, abandon_startup,
  fail_startup,
}
use zed_sync.Session.Ends.{Callback, calls}

-- Which of its options `startSync` was given.
pub record StartOptions : Type 0 where
  pub has_lease : Bool
  pub has_backend : Bool
  pub has_supabase : Bool
  pub flush_on_acquire : Bool

-- How the start of a transport ends: `startSupabase` may throw before or after it makes its channel.
pub data Launch : Type 0 where
  launched : Launch
  threw_first threw_with_channel : JsError → Launch

-- What the parts answer (none if they do not throw), and what they call at the waits.
pub record Environment : Type 0 where
  -- `IndexedDbStore.open`
  pub store_opens : Option JsError
  -- `new SyncClient`
  pub client_made : Option JsError
  -- `flusherLeaseKey` and `new SyncLease`
  pub lease_made : Option JsError
  -- `lease.acquire`
  pub lease_acquired : Option JsError
  -- `startBackendStream`
  pub backend_started : Option JsError
  pub supabase_started : Launch
  pub while_hydrating : List Callback
  pub while_flushing : List Callback
  pub while_releasing : List Callback

-- A part of the startup: the session as it left it, with what it threw.
abbrev pub Stage : Type 0
Stage = Session → Option JsError × Session

unfoldable pub attempt_part : Option JsError → (Session → Session) → Stage
attempt_part none f s = (none, f s)
attempt_part (some x) f s = (some x, s)

unfoldable pub go_on : Option JsError × Session → Stage → Option JsError × Session
go_on (none, s) f = f s
go_on (some x, s) f = (some x, s)

abbrev pub skip : Stage
skip s = (none, s)

-- `lease = new SyncLease(…)`
unfoldable pub set_lease : Session → Session
set_lease s = record s { effects = record s.effects { has_lease = true } }

unfoldable pub hold_lease : Session → Session
hold_lease s = record s { effects = record s.effects { lease_held = true } }

-- `stoppers.push(…)`
unfoldable pub push_stopper : Transport → Session → Session
push_stopper t s = record s {
  effects = record s.effects { stoppers = s.effects.stoppers ++ t ∷ [] };
}

unfoldable pub run_transport : Transport → Session → Session
unfolding set_runs
run_transport t s = record s { effects = set_runs t true s.effects }

unfoldable pub launch : Transport → Launch → Stage
unfolding push_stopper run_transport
launch t launched s = (none, push_stopper t (run_transport t s))
launch t (threw_first x) s = (some x, s)
launch t (threw_with_channel x) s = (some x, run_transport t s)

-- `startBackendStream` leaves nothing if it throws.
unfoldable pub backend_launch : Option JsError → Launch
backend_launch none = launched
backend_launch (some x) = threw_first x

unfoldable pub make_parts : Environment → Stage
unfolding attempt_part go_on
make_parts env s =
    go_on (attempt_part env.store_opens (λ s'. s') s) (attempt_part env.client_made (λ s'. s'))

unfoldable pub take_lease : StartOptions → Environment → Stage
unfolding attempt_part go_on set_lease hold_lease
take_lease o env s =
    if o.has_lease
    then go_on (attempt_part env.lease_made set_lease s)
        (attempt_part env.lease_acquired hold_lease)
    else skip s

unfoldable pub start_transport : Bool → Launch → Transport → Stage
unfolding launch
start_transport wanted answer t s = if wanted then launch t answer s else skip s

-- Up to the first wait of `hydrateAll`.
unfoldable pub gather : StartOptions → Environment → Stage
unfolding make_parts take_lease start_transport backend_launch go_on
gather o env s =
    go_on
      (go_on (go_on (make_parts env s) (take_lease o env))
        (start_transport o.has_backend (backend_launch env.backend_started) backend))
      (start_transport o.has_supabase env.supabase_started supabase)

pub data Started : Type 0 where
  -- With whether the inherited queue was flushed.
  resolved : Session → Bool → Started
  rejected : JsError → Session → Started
  not_allocated : Started

-- The flush of a promoted flusher; `flushQueue` refuses unless the client may write, and what it
-- throws is swallowed.
unfoldable pub flush_inherited : StartOptions → Environment → Session → Result Started
unfolding calls
flush_inherited o env s =
    if o.has_lease && (o.flush_on_acquire && o.has_backend)
    then elim (calls env.while_flushing s) [
      | ok s' ↦ ok (resolved s' (app_capabilities s.machine).can_write)
      | err x ↦ err x
    ]
    else ok (resolved s false)

-- From `hydrateAll`, which throws nothing, to the end.
unfoldable pub complete_startup : StartOptions → Environment → Session → Result Started
unfolding calls finish_startup flush_inherited
complete_startup o env s = elim (calls env.while_hydrating s) [
  | err x ↦ err x
  | ok s1 ↦ elim (finish_startup s1) [ err x ↦ err x | ok s2 ↦ flush_inherited o env s2 ]
]

-- The `catch`.
unfoldable pub reject_startup : Environment → JsError → Session → Result Started
unfolding abandon_startup calls fail_startup
reject_startup env x s = elim (calls env.while_releasing (abandon_startup s)) [
  | err y ↦ err y
  | ok s1 ↦ elim (fail_startup s1) [ err y ↦ err y | ok s2 ↦ ok (rejected x s2) ]
]

unfoldable pub after_gathering :
    StartOptions → Environment → Option JsError × Session → Result Started
unfolding complete_startup reject_startup
after_gathering o env (none, s) = complete_startup o env s
after_gathering o env (some x, s) = reject_startup env x s

unfoldable pub start_session : StartOptions → Environment → Result Started
unfolding begin_session gather after_gathering
start_session o env = elim begin_session [
  | ok (some s) ↦ after_gathering o env (gather o env s)
  | ok none ↦ ok not_allocated
  | err x ↦ err x
]
