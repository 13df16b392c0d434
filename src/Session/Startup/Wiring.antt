-- ===== src/Session/Startup/Wiring.antt =====
-- What `startSync` of sdk/src/start.mjs has started when it is through, and what is left of it when
-- it throws.
use zed_sync.Prelude.{
  Bool, true, false, if◌then◌else◌, Option, none, some, [], ◌∷◌, ◌++◌, ◌≡◌, inl, inr, refl, arith,
}
use zed_sync.Result.{JsError}
use zed_sync.Lifecycle.{start_requested, initial_snapshot}
use zed_sync.Lifecycle.Dispatch.{plan}
use zed_sync.Session.{
  backend, supabase, set_runs, Effects, stop_each, stop_all, release_lease, revoke, Session,
  fresh_session,
}
use zed_sync.Session.Ends.{IsQuiet}
use zed_sync.Session.Startup.{
  Launch, launched, threw_first, threw_with_channel, StartOptions, Environment, attempt_part, go_on,
  make_parts, take_lease, launch, backend_launch, start_transport, set_lease, hold_lease,
  push_stopper, run_transport, gather,
}

-- The session after its start request.
abbrev pub started_session : Session
started_session = record fresh_session {
  machine = (plan (initial_snapshot 0) start_requested).0;
  session_token = some 1;
}

-- What a session holds when its startup is through.
abbrev pub wired : Bool → Bool → Bool → Effects
wired has_lease has_backend has_supabase = record {
  stoppers =
      (if has_backend then backend ∷ [] else []) ++ (if has_supabase then supabase ∷ [] else []);
  backend_runs = has_backend;
  supabase_runs = has_supabase;
  has_lease = has_lease;
  lease_held = has_lease;
}

-- Nothing runs and nothing is held but, if `left` is true, a realtime channel.
abbrev pub IsClean : Bool → Effects → Type 0
IsClean left x =
    (x.stoppers ≡ []) × (x.backend_runs ≡ false) × (x.supabase_runs ≡ left) × (x.lease_held ≡ false)

abbrev first_of : Option JsError → Option JsError → Option JsError
first_of none y = y
first_of (some x) y = some x

unfoldable pub launch_error : Launch → Option JsError
launch_error launched = none
launch_error (threw_first x) = some x
launch_error (threw_with_channel x) = some x

-- What the startup throws: the first error among the parts that the options ask for.
unfoldable pub first_thrown : StartOptions → Environment → Option JsError
unfolding launch_error
first_thrown o env = first_of env.store_opens (
    first_of env.client_made (
      first_of (if o.has_lease then first_of env.lease_made env.lease_acquired else none) (
        first_of (if o.has_backend then env.backend_started else none)
          (if o.has_supabase then launch_error env.supabase_started else none))))

pub gather-first_thrown :
    (o : StartOptions) (env : Environment) (s : Session) → (gather o env s).0 ≡ first_thrown o env
unfolding gather make_parts take_lease start_transport launch backend_launch attempt_part go_on
    first_thrown launch_error
gather-first_thrown o env s = ground arith

keeps_channel : Launch → Bool
keeps_channel (threw_with_channel x) = true
keeps_channel answer = false

-- `startSupabase` is reached, and throws with its channel made.
unfoldable pub leaves_channel : StartOptions → Environment → Bool
unfolding keeps_channel
leaves_channel o env =
    elim (first_of env.store_opens (
      first_of env.client_made (
        first_of (if o.has_lease then first_of env.lease_made env.lease_acquired else none)
          (if o.has_backend then env.backend_started else none)))) [
            | none ↦ if o.has_supabase then keeps_channel env.supabase_started else false
            | some x ↦ false
          ]

pub gather-wired :
    (o : StartOptions) (env : Environment)
    → first_thrown o env ≡ none
    → (gather o env started_session).1.effects ≡ wired o.has_lease o.has_backend o.has_supabase
unfolding gather make_parts take_lease start_transport launch backend_launch attempt_part go_on
    set_lease hold_lease push_stopper run_transport set_runs first_thrown launch_error
gather-wired o env h = ground arith

pub gather-abandoned :
    (o : StartOptions) (env : Environment)
    → IsClean
        (leaves_channel o env)
        (release_lease (stop_all (gather o env started_session).1.effects))
unfolding gather make_parts take_lease start_transport launch backend_launch attempt_part go_on
    set_lease hold_lease push_stopper run_transport set_runs leaves_channel keeps_channel
    release_lease stop_all stop_each
gather-abandoned o env = ground arith

pub wired-revoke : (l b p : Bool) → IsClean false (revoke (wired l b p))
unfolding revoke stop_all stop_each set_runs
wired-revoke l true true = (refl, refl, refl, refl)
wired-revoke l true false = (refl, refl, refl, refl)
wired-revoke l false true = (refl, refl, refl, refl)
wired-revoke l false false = (refl, refl, refl, refl)

pub IsClean-revoke : (k : Bool) (x : Effects) → IsClean k x → IsClean k (revoke x)
unfolding revoke stop_all stop_each
IsClean-revoke k x (a, b, c, d) = (rw a refl, rw a b, rw a c, refl)

pub wired-IsQuiet : (l b p : Bool) → IsQuiet (stop_all (wired l b p))
unfolding stop_all stop_each set_runs
wired-IsQuiet true true true = record {
  stoppers = refl;
  backend_runs = refl;
  supabase_runs = refl;
  lease = inl refl;
}
wired-IsQuiet true true false = record {
  stoppers = refl;
  backend_runs = refl;
  supabase_runs = refl;
  lease = inl refl;
}
wired-IsQuiet true false true = record {
  stoppers = refl;
  backend_runs = refl;
  supabase_runs = refl;
  lease = inl refl;
}
wired-IsQuiet true false false = record {
  stoppers = refl;
  backend_runs = refl;
  supabase_runs = refl;
  lease = inl refl;
}
wired-IsQuiet false true true = record {
  stoppers = refl;
  backend_runs = refl;
  supabase_runs = refl;
  lease = inr refl;
}
wired-IsQuiet false true false = record {
  stoppers = refl;
  backend_runs = refl;
  supabase_runs = refl;
  lease = inr refl;
}
wired-IsQuiet false false true = record {
  stoppers = refl;
  backend_runs = refl;
  supabase_runs = refl;
  lease = inr refl;
}
wired-IsQuiet false false false = record {
  stoppers = refl;
  backend_runs = refl;
  supabase_runs = refl;
  lease = inr refl;
}

pub IsClean-IsQuiet : (x : Effects) → IsClean false x → IsQuiet (stop_all x)
unfolding stop_all stop_each
IsClean-IsQuiet x (a, b, c, d) = record {
  stoppers = rw a refl;
  backend_runs = rw a b;
  supabase_runs = rw a c;
  lease = inr (rw a d);
}
