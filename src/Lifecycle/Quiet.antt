-- ===== src/Lifecycle/Quiet.antt =====
-- Listeners of the machine of sdk/src/lifecycle.mjs that do not call it again hear all it does.
use mathlib.Core.Option.{bind}
use mathlib.Core.List.{append-nil, append_assoc}
use zed_sync.Prelude.{
  ℕ, suc, Bool, true, false, if◌then◌else◌, Option, some, List, [], ◌∷◌, ◌++◌, ◌≡◌, ◌≢◌, refl, sym,
  ap, subst, ◌∙◌, arith,
}
use zed_sync.Result.{Result, ok}
use zed_sync.Lifecycle.{
  Snapshot, LifecycleEvent, TransitionOutcome, applied, stuttered, stale, rejected,
}
use zed_sync.Lifecycle.Dispatch.{Plan, plan}
use zed_sync.Lifecycle.Coherent.{IsCoherent, dispatch-plan, plan-IsCoherent, plan_unapplied, run}
use zed_sync.Lifecycle.Listeners.{
  Machine, Listening, Inner, Dispatched, conclude, dispatch_once, machine_dispatch, machine_run,
}
use zed_sync.Lifecycle.Hearings.{heard_by, times, AreQuiet, repeat, tell_listeners-Told}

abbrev pub is_applied : TransitionOutcome → Bool
is_applied applied = true
is_applied _ = false

-- The snapshots that the events, one after the other, make the machine commit.
unfoldable pub transitions : Snapshot → List LifecycleEvent → List Snapshot
unfolding plan
transitions s [] = []
transitions s (e ∷ es) =
    let p = plan s e in let rest = transitions p.0 es in if is_applied p.1 then p.0 ∷ rest else rest

abbrev pub committed : Plan → List Snapshot
committed p = if is_applied p.1 then p.0 ∷ [] else []

-- What a dispatch makes of a machine with a listener.
record Heeds (k : ℕ) (m : Machine) (p : Plan) (o : Option Dispatched) : Type 0 where
  outcome : Result TransitionOutcome
  machine : Machine
  comes_to : o ≡ some (outcome, machine)
  moves : machine.snapshot ≡ p.0
  hears : heard_by k machine.heard ≡ heard_by k m.heard ++ committed p
  stays : times k machine.listeners ≡ 1

unapplied-Heeds :
    (k : ℕ) (m : Machine) (s : Snapshot) (o : TransitionOutcome)
    → is_applied o ≡ false
    → s ≡ m.snapshot
    → times k m.listeners ≡ 1
    → Heeds k m (s, o) (some (ok o, m))
unapplied-Heeds k m s o a e t = record {
  outcome = ok o;
  machine = m;
  comes_to = refl;
  moves = sym e;
  hears = rw (a) (sym (append-nil (heard_by k m.heard)));
  stays = t;
}

conclude-Heeds :
    (inner : Inner) (listening : Listening) (k : ℕ) (e : LifecycleEvent) (p : Plan) (m : Machine)
    → AreQuiet k listening
    → times k m.listeners ≡ 1
    → (p.1 ≢ applied → p.0 ≡ m.snapshot)
    → Heeds k m p (conclude inner listening e p m)
unfolding conclude
conclude-Heeds inner listening k e (s, applied) m q t u =
    let told =
      tell_listeners-Told inner listening k s e m.listeners (record m { snapshot = s }) q t in
    record {
      outcome = ok applied;
      machine = told.told;
      comes_to = rw (told.told_at, conclude, bind) refl;
      moves = told.snapshot_told;
      hears = told.heard_told ∙ ap (λ n. heard_by k m.heard ++ repeat n s) t;
      stays = told.listens_on;
    }
conclude-Heeds inner listening k e (s, stuttered) m q t u =
    unapplied-Heeds k m s stuttered refl (u (λ x. cc)) t
conclude-Heeds inner listening k e (s, stale) m q t u =
    unapplied-Heeds k m s stale refl (u (λ x. cc)) t
conclude-Heeds inner listening k e (s, rejected) m q t u =
    unapplied-Heeds k m s rejected refl (u (λ x. cc)) t

machine_dispatch-Heeds :
    (depth : ℕ) (listening : Listening) (k : ℕ) (e : LifecycleEvent) (m : Machine)
    → AreQuiet k listening
    → times k m.listeners ≡ 1
    → IsCoherent m.snapshot
    → Heeds k m (plan m.snapshot e) (machine_dispatch (suc depth) listening m e)
unfolding machine_dispatch dispatch_once
machine_dispatch-Heeds depth listening k e m q t c =
    rw (dispatch-plan m.snapshot e c, machine_dispatch, dispatch_once)
      (conclude-Heeds (machine_dispatch depth listening) listening k e (plan m.snapshot e) m q t
        (plan_unapplied m.snapshot e))

transitions-next :
    (s : Snapshot) (e : LifecycleEvent) (es : List LifecycleEvent)
    → transitions s (e ∷ es) ≡ committed (plan s e) ++ transitions (plan s e).0 es
unfolding transitions
transitions-next s e es = ground arith

-- From a coherent machine on, a listener that is subscribed once hears every transition that the
-- events make the machine commit, each once and in order, and the machine goes through the events
-- as it does without listeners, however the listeners subscribe, unsubscribe others and throw. The
-- conditions: no listener calls `dispatch`, and none unsubscribes this one.
pub quiet_listener_hears :
    (depth : ℕ) (listening : Listening) (k : ℕ) (es : List LifecycleEvent) (m : Machine)
    → AreQuiet k listening
    → times k m.listeners ≡ 1
    → IsCoherent m.snapshot
    → (m' : Machine) × (machine_run (suc depth) listening m es ≡ some m')
      × (run m.snapshot es ≡ ok m'.snapshot)
      × (heard_by k m'.heard ≡ heard_by k m.heard ++ transitions m.snapshot es)
unfolding machine_run run transitions
quiet_listener_hears depth listening k [] m q t c =
    (m, refl, refl, sym (append-nil (heard_by k m.heard)))
quiet_listener_hears depth listening k (e ∷ es) m q t c =
    let h = machine_dispatch-Heeds depth listening k e m q t c in
    let p = plan m.snapshot e in
    let (m', r, s, l) =
      quiet_listener_hears depth listening k es h.machine q h.stays
        (subst IsCoherent (sym h.moves) (plan-IsCoherent m.snapshot e c)) in
    (
      m',
      rw (h.comes_to, machine_run, bind) r,
      rw (dispatch-plan m.snapshot e c, run) (subst (λ s. run s es ≡ ok m'.snapshot) h.moves s),
      l
          ∙ (ap (λ hs. hs ++ transitions h.machine.snapshot es) h.hears
              ∙ (append_assoc (heard_by k m.heard) (committed p) (transitions h.machine.snapshot es)
                  ∙ ap (λ s. heard_by k m.heard ++ (committed p ++ transitions s es)) h.moves
                  ∙ ap (λ ss. heard_by k m.heard ++ ss) (sym (transitions-next m.snapshot e es)))),
    )
