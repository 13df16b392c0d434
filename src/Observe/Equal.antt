-- ===== src/Observe/Equal.antt =====
-- The comparisons of sdk/src/rxjs.mjs look at all there is, and see every applied transition.
use zed_sync.Prelude.{true, false, ==_iff, ◌≡◌, arith}
use zed_sync.Lifecycle.{
  Snapshot, LifecycleEvent, applied, assert_app_lifecycle_invariant, start_requested,
}
use zed_sync.Lifecycle.Capabilities.{Capabilities}
use zed_sync.Lifecycle.Dispatch.{plan}
use zed_sync.Lifecycle.Coherent.{IsCoherent}
use zed_sync.Observe.{equal_snapshots, equal_capabilities}

pub equal_snapshots_refl : (s : Snapshot) → equal_snapshots s s ≡ true
unfolding equal_snapshots
equal_snapshots_refl s = ground (arith, ==_iff s.generation s.generation)

pub equal_capabilities_eq : (c d : Capabilities) → equal_capabilities c d ≡ true → c ≡ d
unfolding equal_capabilities
equal_capabilities_eq c d h = ground arith

-- An applied transition of a coherent machine changes the snapshot.
pub plan_applied-equal_snapshots :
    (s : Snapshot) (e : LifecycleEvent)
    → IsCoherent s
    → (plan s e).1 ≡ applied
    → equal_snapshots s (plan s e).0 ≡ false
unfolding equal_snapshots plan assert_app_lifecycle_invariant
plan_applied-equal_snapshots s start_requested c a = ground arith
plan_applied-equal_snapshots s _ c a = ground arith
