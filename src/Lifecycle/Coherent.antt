-- ===== src/Lifecycle/Coherent.antt =====
-- Every snapshot that the machine of sdk/src/lifecycle.mjs reaches passes its own check.
use zed_sync.Prelude.{ℕ, ◌≤◌, ◌≡◌, ◌≢◌, List, [], ◌∷◌, refl, arith}
use zed_sync.Result.{Result, ok, err}
use zed_sync.Lifecycle.{
  Snapshot, LifecycleEvent, start_requested, applied, stuttered, stale, rejected,
  assert_app_lifecycle_invariant, initial_snapshot, max_safe_integer,
}
use zed_sync.Lifecycle.Dispatch.{plan, dispatch, commit, settle, Plan}

-- A snapshot that `assertAppLifecycleInvariant` accepts.
abbrev pub IsCoherent : Snapshot → Type 0
IsCoherent s = assert_app_lifecycle_invariant s ≡ ok s

pub initial-IsCoherent : (g : ℕ) → g ≤ max_safe_integer → IsCoherent (initial_snapshot g)
unfolding initial_snapshot assert_app_lifecycle_invariant
initial-IsCoherent g h = ground arith

pub plan-IsCoherent : (s : Snapshot) (e : LifecycleEvent) → IsCoherent s → IsCoherent (plan s e).0
unfolding plan assert_app_lifecycle_invariant
plan-IsCoherent s start_requested h = ground arith
plan-IsCoherent s _ h = ground arith

-- A plan that is not applied proposes the snapshot as it was.
pub plan_unapplied : (s : Snapshot) (e : LifecycleEvent) → (plan s e).1 ≢ applied → (plan s e).0 ≡ s
unfolding plan
plan_unapplied s start_requested h = ground arith
plan_unapplied s _ h = ground arith

settle-plan :
    (s : Snapshot) (p : Plan) → IsCoherent p.0 → (p.1 ≢ applied → p.0 ≡ s) → settle s p ≡ ok p
unfolding settle
settle-plan s (next, applied) c h = rw (c, commit)
settle-plan s (next, stuttered) c h = rw (h (λ e. cc))
settle-plan s (next, stale) c h = rw (h (λ e. cc))
settle-plan s (next, rejected) c h = rw (h (λ e. cc))

-- On a coherent snapshot `dispatch` never throws, and commits what it planned.
pub dispatch-plan :
    (s : Snapshot) (e : LifecycleEvent) → IsCoherent s → dispatch s e ≡ ok (plan s e)
unfolding dispatch
dispatch-plan s e c = settle-plan s (plan s e) (plan-IsCoherent s e c) (plan_unapplied s e)

-- On a coherent snapshot every event, with any token and payload, is answered without an exception
-- and leaves a coherent snapshot.
pub dispatch-IsCoherent :
    (s : Snapshot) (e : LifecycleEvent)
    → IsCoherent s
    → (p : Plan) × (dispatch s e ≡ ok p) × IsCoherent p.0
dispatch-IsCoherent s e c = (plan s e, dispatch-plan s e c, plan-IsCoherent s e c)

-- The snapshot after a sequence of events, or the first exception.
unfoldable pub run : Snapshot → List LifecycleEvent → Result Snapshot
run s [] = ok s
run s (e ∷ es) = elim (dispatch s e) [ err x ↦ err x | ok p ↦ run p.0 es ]

-- A machine that starts coherent answers every sequence of events and stays coherent.
pub run-IsCoherent :
    (s : Snapshot) (es : List LifecycleEvent)
    → IsCoherent s
    → (t : Snapshot) × (run s es ≡ ok t) × IsCoherent t
unfolding run
run-IsCoherent s [] c = (s, refl, c)
run-IsCoherent s (e ∷ es) c =
    rw (dispatch-plan s e c, run) (run-IsCoherent (plan s e).0 es (plan-IsCoherent s e c))
