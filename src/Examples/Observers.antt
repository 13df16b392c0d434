-- ===== src/Examples/Observers.antt =====
-- Listeners and observers of a lifecycle at a concrete machine.
use zed_sync.Prelude.{
  ◌==◌, if◌then◌else◌, Bool, true, false, none, some, List, [], ◌∷◌, ◌++◌, map, ◌≡◌, refl, arith,
}
use zed_sync.Result.{ok}
use zed_sync.Lifecycle.{
  Snapshot, integer, LifecycleEvent, runtime_failed, reconcile_requested, stop_requested, applied,
  AppPhase, failed, stopping, none_running, reconcile, runtime_failure,
}
use zed_sync.Lifecycle.Capabilities.{Capabilities, app_capabilities}
use zed_sync.Lifecycle.Dispatch.{plan}
use zed_sync.Lifecycle.Listeners.{
  Machine, Listening, Reaction, dispatches, machine_dispatch, machine_run,
}
use zed_sync.Lifecycle.Hearings.{heard_by, times}
use zed_sync.Lifecycle.Quiet.{transitions}
use zed_sync.Lifecycle.Reentrant.{IsVetted}
use zed_sync.Lifecycle.Regress.{answering_listener_regresses}
use zed_sync.Observe.{
  Stream, Subscriber, Operators, observe_source, observe_lifecycle, observe_capabilities,
  assert_lifecycle_view,
}
use zed_sync.Observe.Streams.{stream_of, IsSubscriber, Observed, observe_source-Observed}
use zed_sync.Observe.Faithful.{keep_changes, IsDocumented, view_of}
use zed_sync.Observe.Follows.{last_of, observed_lifecycle, observed_capabilities_current}
use zed_sync.Examples.Lifecycles.{on_air, on_air-IsCoherent}

abbrev machine : Machine
machine = record { snapshot = on_air; listeners = 1 ∷ 2 ∷ []; heard = [] }

abbrev silent : Listening
silent k m s e = []

abbrev events : List LifecycleEvent
events = runtime_failed (integer 3) ∷ stop_requested ∷ reconcile_requested ∷ []

-- The first listener reconciles at once where the session has failed.
abbrev answers_failure : AppPhase → List Reaction
answers_failure failed = dispatches reconcile_requested ∷ []
answers_failure _ = []

abbrev reconciling : Listening
reconciling k m s e = if k == 1 then answers_failure s.phase else []

abbrev has_failed : Snapshot
has_failed = record {
  phase = failed;
  operation = none_running;
  generation = 3;
  active_token = none;
  desired_running = false;
  is_online = false;
  failure = some runtime_failure;
}

abbrev is_reconciling : Snapshot
is_reconciling = record {
  phase = stopping;
  operation = reconcile;
  generation = 4;
  active_token = some 4;
  desired_running = false;
  is_online = false;
  failure = none;
}

fails : plan on_air (runtime_failed (integer 3)) ≡ (has_failed, applied)
unfolding plan
fails = refl

reconciles : plan has_failed reconcile_requested ≡ (is_reconciling, applied)
unfolding plan
reconciles = refl

answering_listener_regresses_example :
    (m' : Machine) × (machine_dispatch 2 reconciling machine (runtime_failed (integer 3))
      ≡ some (ok applied, m'))
    × (m'.snapshot ≡ is_reconciling)
    × (heard_by 2 m'.heard ≡ heard_by 2 [] ++ is_reconciling ∷ has_failed ∷ [])
answering_listener_regresses_example =
    answering_listener_regresses 0 reconciling 1 2 (runtime_failed (integer 3)) reconcile_requested
      has_failed is_reconciling machine (λ e. omega arith) refl on_air-IsCoherent fails reconciles
      (λ m. refl) (λ m. refl) (λ m. refl) (λ m. refl)

machine-IsVetted : IsVetted machine
machine-IsVetted = record { coherent_now = on_air-IsCoherent; coherent_heard = tt }

-- A subscriber that is its stream, and whether it is closed.
abbrev Sub : Type 0
Sub = Bool × Stream Snapshot

abbrev subscriber : Subscriber Sub
subscriber = record {
  next = λ s st. (st.0, stream_of (st.1.emitted ++ s ∷ []) st.1.failed_with);
  fail = λ e st. (true, stream_of st.1.emitted (some e));
  is_closed = λ st. st.0;
  received = λ st. st.1;
}

subscriber-IsSubscriber : IsSubscriber subscriber
subscriber-IsSubscriber = record {
  next_received = λ s st o. refl;
  next_open = λ s st o. o;
  fail_received = λ e st o. refl;
  fail_closes = λ e st o. refl;
}

abbrev fresh : Sub
fresh = (false, stream_of [] none)

abbrev operators {ℓ} : {A : Type ℓ} → Operators A
operators = record {
  distinct_until_changed = λ eq s. stream_of (keep_changes eq s.emitted) s.failed_with;
  share_replay = λ s. s;
}

operators-IsDocumented {ℓ} : {A : Type ℓ} → IsDocumented (operators {A = A})
operators-IsDocumented = record { distinct = λ eq s. refl; shared = λ s. refl }

abbrev map_stream : (Snapshot → Capabilities) → Stream Snapshot → Stream Capabilities
map_stream f s = stream_of (map f s.emitted) s.failed_with

-- A foreign lifecycle tells of a snapshot that no machine can be in.
abbrev malformed : Snapshot
malformed = record on_air { desired_running = false }

observe_source-Observed_example :
    (st' : Sub) × (observe_source subscriber
        (view_of machine)
        (has_failed ∷ malformed ∷ on_air ∷ [])
        fresh
      ≡ ok st')
    × Observed [] (on_air ∷ has_failed ∷ malformed ∷ on_air ∷ []) st'.1
unfolding assert_lifecycle_view
observe_source-Observed_example =
    observe_source-Observed subscriber (view_of machine) (has_failed ∷ malformed ∷ on_air ∷ [])
      fresh subscriber-IsSubscriber refl refl refl

observed_lifecycle_example :
    (m' : Machine) × (st' : Sub) × (machine_run 1 silent machine events ≡ some m')
    × (observe_source subscriber (view_of machine) (heard_by 2 m'.heard) fresh ≡ ok st')
    × (observe_lifecycle operators st'.1 ≡ stream_of (on_air ∷ transitions on_air events) none)
unfolding times heard_by
observed_lifecycle_example =
    observed_lifecycle subscriber operators fresh 0 silent 2 events machine subscriber-IsSubscriber
      operators-IsDocumented refl refl (λ j m s e. tt) refl refl on_air-IsCoherent

observed_capabilities_current_example :
    (m' : Machine) × (st' : Sub) × (cs : List Capabilities) × (machine_run 1 silent machine events
      ≡ some m')
    × (observe_source subscriber (view_of machine) (heard_by 2 m'.heard) fresh ≡ ok st')
    × (observe_capabilities operators operators map_stream st'.1
        ≡ stream_of (app_capabilities on_air ∷ cs) none)
    × (last_of (app_capabilities on_air) cs ≡ app_capabilities m'.snapshot)
unfolding times heard_by
observed_capabilities_current_example =
    observed_capabilities_current subscriber operators operators map_stream fresh 0 silent 2 events
      machine subscriber-IsSubscriber operators-IsDocumented operators-IsDocumented (λ f s. refl)
      refl refl (λ j m s e. tt) refl refl on_air-IsCoherent
