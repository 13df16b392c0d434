-- ===== src/Lifecycle/Tokens.antt =====
-- Tokens of sdk/src/lifecycle.mjs: a completion that was overtaken never changes the session.
use zed_sync.Prelude.{ℕ, ◌+◌, ◌≤◌, ◌<◌, ◌≡◌, ◌≢◌, ◌⊎◌, List, [], ◌∷◌, some, arith, ap, ◌∙◌}
use zed_sync.Result.{ok}
use zed_sync.Json.{Value}
use zed_sync.Lifecycle.{
  Snapshot, LifecycleEvent, integer, start_requested, start_succeeded, start_failed, runtime_failed,
  stop_succeeded, stop_failed, connectivity_changed, stale, assert_app_lifecycle_invariant,
}
use zed_sync.Lifecycle.Dispatch.{plan, dispatch}
use zed_sync.Lifecycle.Coherent.{IsCoherent, dispatch-plan, plan-IsCoherent, run, run-IsCoherent}

-- The completions that carry the token `t`.
pub data Carries (t : ℕ) : LifecycleEvent → Type 0 where
  carries_start_succeeded : Carries t (start_succeeded (integer t))
  carries_start_failed : Carries t (start_failed (integer t))
  carries_connectivity : (v : Value) → Carries t (connectivity_changed (integer t) v)
  carries_runtime_failed : Carries t (runtime_failed (integer t))
  carries_stop_succeeded : Carries t (stop_succeeded (integer t))
  carries_stop_failed : Carries t (stop_failed (integer t))

-- Requests allocate one new token each; nothing else moves the generation.
pub plan-generation :
    (s : Snapshot) (e : LifecycleEvent)
    → (s.generation ≤ (plan s e).0.generation) × ((plan s e).0.generation ≤ s.generation + 1)
unfolding plan
plan-generation s start_requested = ground arith
plan-generation s _ = ground arith

-- An active token is the one from before, or greater than every token allocated before.
pub plan_fresh_token :
    (s : Snapshot) (e : LifecycleEvent) (t : ℕ)
    → (plan s e).0.active_token ≡ some t
    → (s.active_token ≡ some t) ⊎ (s.generation < t)
unfolding plan
plan_fresh_token s start_requested t h = ground arith
plan_fresh_token s _ t h = ground arith

-- The token `t` was allocated and is not the active one.
abbrev pub IsOvertaken : ℕ → Snapshot → Type 0
IsOvertaken t s = (0 < t) × (t ≤ s.generation) × (s.active_token ≢ some t)

plan-IsOvertaken :
    (t : ℕ) (s : Snapshot) (e : LifecycleEvent) → IsOvertaken t s → IsOvertaken t (plan s e).0
unfolding plan
plan-IsOvertaken t s start_requested h = ground arith
plan-IsOvertaken t s _ h = ground arith

run-IsOvertaken :
    (t : ℕ) (s : Snapshot) (es : List LifecycleEvent) {u : Snapshot}
    → IsCoherent s
    → run s es ≡ ok u
    → IsOvertaken t s
    → IsOvertaken t u
unfolding run
run-IsOvertaken t s [] c r h = ground arith
run-IsOvertaken t s (e ∷ es) c r h =
    run-IsOvertaken t (plan s e).0 es (plan-IsCoherent s e c) (rw (dispatch-plan s e c, run) at r)
      (plan-IsOvertaken t s e h)

pub plan_overtaken :
    (t : ℕ) (s : Snapshot) {e : LifecycleEvent}
    → IsCoherent s
    → IsOvertaken t s
    → Carries t e
    → plan s e ≡ (s, stale)
unfolding plan assert_app_lifecycle_invariant
plan_overtaken t s c h carries_start_succeeded = ground arith
plan_overtaken t s c h carries_start_failed = ground arith
plan_overtaken t s c h (carries_connectivity v) = ground arith
plan_overtaken t s c h carries_runtime_failed = ground arith
plan_overtaken t s c h carries_stop_succeeded = ground arith
plan_overtaken t s c h carries_stop_failed = ground arith

-- From a coherent snapshot on, a completion whose token was allocated and is no longer active is
-- answered "stale" and changes nothing, after every further sequence of events: an overtaken
-- operation can never come back.
pub overtaken_stays_stale :
    (t : ℕ) (s : Snapshot) (es : List LifecycleEvent) {u : Snapshot} {e : LifecycleEvent}
    → IsCoherent s
    → IsOvertaken t s
    → run s es ≡ ok u
    → Carries t e
    → dispatch u e ≡ ok (u, stale)
overtaken_stays_stale t s es {u} {e} c h r k =
    let (v, r', c') = run-IsCoherent s es c in
    let cu : IsCoherent u = ground (arith, c') in
    dispatch-plan u e cu ∙ ap ok (plan_overtaken t u cu (run-IsOvertaken t s es c r h) k)
