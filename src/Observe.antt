-- ===== src/Observe.antt =====
-- sdk/src/rxjs.mjs: the snapshots of a lifecycle as a stream. RxJS is a third party's: its
-- subscriber and its operators are parameters, and IsSubscriber and IsDocumented are what its
-- documentation says of them. An observer that throws is RxJS's to report, so `next` does not throw.
pub mod Equal
pub mod Streams
pub mod Faithful
pub mod Follows
use zed_sync.Prelude.{
  ℕ, Bool, true, false, not, ◌&&◌, ◌||◌, ◌==◌, if◌then◌else◌, Option, none, some, List, [], ◌∷◌,
  ◌++◌, ◌≡◌, map,
}
use zed_sync.Result.{Result, ok, err, JsError, type_error}
use zed_sync.Lifecycle.{
  Snapshot, LifecycleOperation, none_running, start, stop, reconcile, LifecycleFailure,
  start_failure, runtime_failure, stop_failure, assert_app_lifecycle_invariant,
}
use zed_sync.Lifecycle.Capabilities.{Capabilities, app_capabilities}
use zed_sync.Lifecycle.Dispatch.{phase_eq, bool_eq}

-- `===` on the fields of a snapshot.
abbrev pub operation_eq : LifecycleOperation → LifecycleOperation → Bool
operation_eq none_running none_running = true
operation_eq start start = true
operation_eq stop stop = true
operation_eq reconcile reconcile = true
operation_eq _ _ = false

abbrev pub failure_eq : Option LifecycleFailure → Option LifecycleFailure → Bool
failure_eq none none = true
failure_eq (some start_failure) (some start_failure) = true
failure_eq (some runtime_failure) (some runtime_failure) = true
failure_eq (some stop_failure) (some stop_failure) = true
failure_eq _ _ = false

abbrev pub token_eq : Option ℕ → Option ℕ → Bool
token_eq none none = true
token_eq (some t) (some u) = t == u
token_eq _ _ = false

-- `equalFields(SNAPSHOT_KEYS)`
unfoldable pub equal_snapshots : Snapshot → Snapshot → Bool
equal_snapshots left right =
    phase_eq left.phase right.phase
    && (operation_eq left.operation right.operation
        && (left.generation == right.generation
            && (token_eq left.active_token right.active_token
                && (bool_eq left.desired_running right.desired_running
                    && (bool_eq left.is_online right.is_online
                        && failure_eq left.failure right.failure)))))

-- `equalFields(CAPABILITY_KEYS)`
unfoldable pub equal_capabilities : Capabilities → Capabilities → Bool
equal_capabilities left right =
    bool_eq left.can_start right.can_start
    && (bool_eq left.can_stop right.can_stop
        && (bool_eq left.can_write right.can_write
            && (bool_eq left.can_receive_changes right.can_receive_changes
                && (bool_eq left.can_flush right.can_flush
                    && (bool_eq left.can_reconcile right.can_reconcile
                        && (bool_eq left.busy right.busy && bool_eq left.running right.running))))))

-- The argument, as far as `assertLifecycleView` looks at it.
pub record LifecycleView : Type 0 where
  pub is_truthy : Bool
  pub has_subscribe : Bool
  pub has_snapshot : Bool
  pub snapshot : Snapshot

unfoldable pub assert_lifecycle_view : LifecycleView → Result LifecycleView
assert_lifecycle_view view =
    if not view.is_truthy || (not view.has_subscribe || not view.has_snapshot)
    then err type_error
    else ok view

-- What an observer has got: the values, and the error that ended them.
pub record Stream {ℓ} (A : Type ℓ) : Type ℓ where
  pub emitted : List A
  pub failed_with : Option JsError

-- RxJS's subscriber of the source, with a state of its own.
pub record Subscriber {ℓ} (S : Type ℓ) : Type ℓ where
  pub next : Snapshot → S → S
  pub fail : JsError → S → S
  pub is_closed : S → Bool
  pub received : S → Stream Snapshot

unfoldable pub publish {ℓ} : {S : Type ℓ} → Subscriber S → Snapshot → S → S
publish sub snapshot st = elim (assert_app_lifecycle_invariant snapshot) [
  | ok s ↦ sub.next s st
  | err e ↦ sub.fail e st
]

-- The listener that is subscribed to the view.
unfoldable pub on_snapshot {ℓ} : {S : Type ℓ} → Subscriber S → Snapshot → S → S
unfolding publish
on_snapshot sub snapshot st = if sub.is_closed st then st else publish sub snapshot st

unfoldable pub on_snapshots {ℓ} : {S : Type ℓ} → Subscriber S → List Snapshot → S → S
unfolding on_snapshot
on_snapshots sub [] st = st
on_snapshots sub (s ∷ ss) st = on_snapshots sub ss (on_snapshot sub s st)

-- The function given to `new Observable`, and then the snapshots that the view tells of: where the
-- first one closed the subscriber, nothing is subscribed to the view.
unfoldable pub observe_source {ℓ} :
    {S : Type ℓ} → Subscriber S → LifecycleView → List Snapshot → S → Result S
unfolding publish on_snapshots assert_lifecycle_view
observe_source sub lifecycle told st = elim (assert_lifecycle_view lifecycle) [
  | err e ↦ err e
  | ok view ↦
      let st' = publish sub view.snapshot st in
      let rest = on_snapshots sub told st' in ok (if sub.is_closed st' then st' else rest)
]

-- RxJS's operators, for an observer that is there from the start.
pub record Operators {ℓ} (A : Type ℓ) : Type ℓ where
  pub distinct_until_changed : (A → A → Bool) → Stream A → Stream A
  pub share_replay : Stream A → Stream A

-- `observeLifecycle(lifecycle)`, on what the source emits.
unfoldable pub observe_lifecycle : Operators Snapshot → Stream Snapshot → Stream Snapshot
unfolding equal_snapshots
observe_lifecycle ops source = ops.share_replay (ops.distinct_until_changed equal_snapshots source)

-- `observeCapabilities(lifecycle)`, with RxJS's `map`.
unfoldable pub observe_capabilities :
    Operators Snapshot
    → Operators Capabilities
    → ((Snapshot → Capabilities) → Stream Snapshot → Stream Capabilities)
    → Stream Snapshot
    → Stream Capabilities
unfolding observe_lifecycle equal_capabilities
observe_capabilities ops ops' map_stream source = ops'.share_replay (
    ops'.distinct_until_changed equal_capabilities
      (map_stream app_capabilities (observe_lifecycle ops source)))
