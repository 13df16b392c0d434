-- ===== src/Lifecycle/Authority.antt =====
-- What the capabilities of sdk/src/lifecycle.mjs promise, and when a session can run.
use zed_sync.Prelude.{
  ◌+◌, ◌<◌, ◌≡◌, ◌≢◌, ◌↔◌, ◌⊎◌, true, false, List, [], ◌∷◌, none, some, if◌then◌else◌, refl, arith,
  ap, ◌∙◌,
}
use zed_sync.Result.{ok}
use zed_sync.Lifecycle.{
  Snapshot, LifecycleEvent, TransitionOutcome, integer, start_requested, stop_requested,
  reconcile_requested, stop_succeeded, applied, assert_app_lifecycle_invariant, initial_snapshot,
  max_safe_integer, stopped, failed,
}
use zed_sync.Lifecycle.Capabilities.{app_capabilities, open_capabilities, is_active, is_failed}
use zed_sync.Lifecycle.Dispatch.{plan, dispatch}
use zed_sync.Lifecycle.Coherent.{IsCoherent, dispatch-plan, plan_unapplied, plan-IsCoherent, run}

-- On a coherent snapshot the capabilities are those of its phase.
pub capabilities_coherent :
    (s : Snapshot) → IsCoherent s → app_capabilities s ≡ open_capabilities s.phase
unfolding app_capabilities
capabilities_coherent s c = rw (c, app_capabilities)

module _ (s : Snapshot) (c : IsCoherent s) (room : s.generation < max_safe_integer) where
  -- On a coherent snapshot with a generation left, a request is applied exactly if its capability
  -- is open: starting, stopping and reconciling each.
  pub requests_follow_capabilities :
      (((app_capabilities s).can_start ≡ true) ↔ ((plan s start_requested).1 ≡ applied))
      × (((app_capabilities s).can_stop ≡ true) ↔ ((plan s stop_requested).1 ≡ applied))
      × (((app_capabilities s).can_reconcile ≡ true) ↔ ((plan s reconcile_requested).1 ≡ applied))
  unfolding plan open_capabilities
  requests_follow_capabilities = rw (capabilities_coherent s c) (
    (λ h. ground arith, λ h. ground arith),
    (λ h. ground arith, λ h. ground arith),
    (λ h. ground arith, λ h. ground arith),
  )

-- Whatever the snapshot, coherent or not: flushing needs the right to write, writing the right to
-- receive changes, and what may be started may neither be stopped nor written to.
pub capabilities_nest :
    (s : Snapshot)
    → ((app_capabilities s).can_flush ≡ true → (app_capabilities s).can_write ≡ true)
      × ((app_capabilities s).can_write ≡ true → (app_capabilities s).can_receive_changes ≡ true)
      × ((app_capabilities s).can_start ≡ true → (app_capabilities s).can_receive_changes ≡ false)
unfolding app_capabilities
capabilities_nest s = ground arith

-- A snapshot that may be written to is one that the session wants running, under the token of its
-- current generation and with no failure.
pub can_write-running :
    (s : Snapshot)
    → (app_capabilities s).can_write ≡ true
    → (s.desired_running ≡ true) × (s.active_token ≡ some s.generation) × (s.failure ≡ none)
unfolding app_capabilities assert_app_lifecycle_invariant
can_write-running s h = ground arith

-- Writing is off.
abbrev pub IsHalted : Snapshot → Type 0
IsHalted s = (s.phase ≡ stopped) ⊎ (s.phase ≡ failed)

plan_halted :
    (s : Snapshot) (e : LifecycleEvent)
    → IsHalted s
    → e ≢ start_requested
    → e ≢ reconcile_requested
    → (plan s e).1 ≢ applied
unfolding plan
plan_halted s start_requested h a b = absurd (a refl)
plan_halted s reconcile_requested h a b = absurd (b refl)
plan_halted s _ h a b = ground arith

-- In a coherent stopped or failed session only a request to start or to reconcile leads anywhere:
-- every other event, a late completion with any token included, is answered without an exception,
-- is not applied, and leaves the snapshot as it is.
pub halted_ignores :
    (s : Snapshot) (e : LifecycleEvent)
    → IsCoherent s
    → IsHalted s
    → e ≢ start_requested
    → e ≢ reconcile_requested
    → (o : TransitionOutcome) × (dispatch s e ≡ ok (s, o)) × (o ≢ applied)
halted_ignores s e c h a b =
    let n = plan_halted s e h a b in
    ((plan s e).1, rw (dispatch-plan s e c) (ground (arith, plan_unapplied s e n)), n)

-- The two ways down: a stop request, or a reconcile request after a failure, and the completion
-- with the token that the request allocated.
abbrev pub way_down : Snapshot → List LifecycleEvent
way_down s =
    (if is_failed s.phase then reconcile_requested else stop_requested)
    ∷ stop_succeeded (integer (s.generation + 1))
    ∷ []

run_two :
    (s : Snapshot) (e f : LifecycleEvent)
    → IsCoherent s
    → run s (e ∷ f ∷ []) ≡ ok (plan (plan s e).0 f).0
unfolding run
run_two s e f c =
    rw (dispatch-plan s e c, run) (rw (dispatch-plan (plan s e).0 f (plan-IsCoherent s e c), run))

plan_down :
    (s : Snapshot)
    → s.generation < max_safe_integer
    → (is_active s.phase ≡ true) ⊎ (is_failed s.phase ≡ true)
    → (plan
        (plan s (if is_failed s.phase then reconcile_requested else stop_requested)).0
        (stop_succeeded (integer (s.generation + 1)))).0
      ≡ initial_snapshot (s.generation + 1)
unfolding plan
plan_down s room h = ground arith

-- A coherent session that is starting, running or failed, with a generation left, can be brought to
-- "stopped" by two events, and ends with nothing of the old session but the generation.
pub way_down-stops :
    (s : Snapshot)
    → IsCoherent s
    → s.generation < max_safe_integer
    → ((app_capabilities s).can_stop ≡ true) ⊎ ((app_capabilities s).can_reconcile ≡ true)
    → run s (way_down s) ≡ ok (initial_snapshot (s.generation + 1))
unfolding open_capabilities
way_down-stops s c room h =
    run_two s _ _ c ∙ ap ok (plan_down s room (ground (arith, capabilities_coherent s c)))
