-- ===== src/Examples/Sessions.antt =====
-- Sessions at concrete inputs.
use zed_sync.Prelude.{Bool, true, false, none, some, List, [], ◌∷◌, ◌≡◌, refl}
use zed_sync.Result.{ok, type_error}
use zed_sync.Lifecycle.{AppPhase, LifecycleOperation, initial_snapshot}
use zed_sync.Session.{Session, Transport, under_way}
use zed_sync.Session.Ends.{Callback, status, lost, IsReleased, stop_with}
use zed_sync.Session.Startup.{
  launched, threw_with_channel, StartOptions, Environment, Started, resolved, start_session,
}
use zed_sync.Session.Startup.Settles.{Settled, start_session-Settled}
use zed_sync.Session.Startup.Wiring.{first_thrown, launch_error}
use zed_sync.Session.Startup.Stops.{started_session_stops}

abbrev running_session : Session
running_session = record {
  machine = record {
    phase = AppPhase.online;
    operation = LifecycleOperation.none_running;
    generation = 1;
    active_token = some 1;
    desired_running = true;
    is_online = true;
    failure = none;
  };
  session_token = some 1;
  backend_online = true;
  supabase_online = false;
  effects = record {
    stoppers = Transport.backend ∷ [];
    backend_runs = true;
    supabase_runs = false;
    has_lease = true;
    lease_held = true;
  };
  is_stopping = false;
}

-- While it stops, its transport closes and opens again, and its lease is lost.
abbrev late_callbacks : List Callback
late_callbacks = status Transport.backend false ∷ status Transport.backend true ∷ lost ∷ []

abbrev all_options : StartOptions
all_options = record {
  has_lease = true;
  has_backend = true;
  has_supabase = true;
  flush_on_acquire = true;
}

-- The backend opens while the session hydrates, and closes while it flushes.
abbrev smooth : Environment
smooth = record {
  store_opens = none;
  client_made = none;
  lease_made = none;
  lease_acquired = none;
  backend_started = none;
  supabase_started = launched;
  while_hydrating = status Transport.backend true ∷ [];
  while_flushing = status Transport.backend false ∷ [];
  while_releasing = [];
}

-- The realtime client throws when it subscribes to its channel; the stream that was started before it closes late.
abbrev rough : Environment
rough = record smooth {
  supabase_started = threw_with_channel type_error;
  while_releasing = status Transport.backend false ∷ [];
}

start_session-Settled_example :
    (r : Started) × (start_session all_options rough ≡ ok r) × Settled all_options rough r
start_session-Settled_example = start_session-Settled all_options rough

started_session_stops_example :
    (s : Session) × (flushed : Bool) × (s' : Session) × (start_session all_options smooth
      ≡ ok (resolved s flushed))
    × (stop_with late_callbacks s ≡ ok (under_way (some 2), s'))
    × (s'.machine ≡ initial_snapshot 2)
    × IsReleased s'.effects
unfolding first_thrown launch_error
started_session_stops_example = started_session_stops all_options smooth late_callbacks refl
