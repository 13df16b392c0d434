-- ===== src/Lifecycle/Regress.antt =====
-- A listener of the machine of sdk/src/lifecycle.mjs that answers a transition by another one, as an
-- application that reconciles at once where the session has failed, and the listeners after it.
use mathlib.Core.Option.{bind}
use mathlib.Core.List.{append_assoc}
use zed_sync.Prelude.{
  ℕ, suc, Option, ==_iff, some, List, [], ◌∷◌, ◌++◌, ◌≡◌, ◌≢◌, refl, ap, subst, ◌∙◌, arith,
}
use zed_sync.Result.{ok}
use zed_sync.Lifecycle.{Snapshot, LifecycleEvent, applied}
use zed_sync.Lifecycle.Dispatch.{plan, Plan}
use zed_sync.Lifecycle.Coherent.{IsCoherent, dispatch-plan, plan-IsCoherent}
use zed_sync.Lifecycle.Listeners.{
  Machine, Hearing, dispatches, Listening, Inner, Dispatched, did_throw, react, react_once,
  tell_listeners, conclude, dispatch_once, machine_dispatch,
}
use zed_sync.Lifecycle.Hearings.{heard_by}

abbrev hearing : ℕ → Snapshot → LifecycleEvent → Hearing
hearing k s e = record { listener = k; snapshot = s; event = e }

-- A transition that two listeners are told of, and that neither answers.
silent_dispatch :
    (depth : ℕ) (listening : Listening) (k j : ℕ) (e : LifecycleEvent) (s : Snapshot) (m : Machine)
    → m.listeners ≡ k ∷ j ∷ []
    → IsCoherent m.snapshot
    → plan m.snapshot e ≡ (s, applied)
    → ((m : Machine) → listening k m s e ≡ [])
    → ((m : Machine) → listening j m s e ≡ [])
    → machine_dispatch (suc depth) listening m e
      ≡ some (
        ok applied,
        record m { snapshot = s; heard = (m.heard ++ hearing k s e ∷ []) ++ hearing j s e ∷ [] },
      )
unfolding machine_dispatch dispatch_once conclude tell_listeners react bind
silent_dispatch depth listening k j e s m l c p hk hj =
    rw
      (
        dispatch-plan m.snapshot e c,
        machine_dispatch,
        dispatch_once,
        p,
        l,
        hk,
        tell_listeners,
        bind,
        react,
        hj,
      )
      refl

-- The machine once the first listener has heard of the first transition.
abbrev answering : ℕ → Snapshot → LifecycleEvent → Machine → Machine
answering k s e m = record m { snapshot = s; heard = m.heard ++ hearing k s e ∷ [] }

told_again :
    (inner : Inner) (listening : Listening) (k j : ℕ) (e e' : LifecycleEvent) (s : Snapshot)
    (m m' : Machine)
    → ((m : Machine) → listening k m s e ≡ dispatches e' ∷ [])
    → ((m : Machine) → listening j m s e ≡ [])
    → inner (answering k s e m) e' ≡ some (ok applied, m')
    → tell_listeners inner listening s e (k ∷ j ∷ []) (record m { snapshot = s })
      ≡ some (record m' { heard = m'.heard ++ hearing j s e ∷ [] })
unfolding tell_listeners react react_once did_throw bind
told_again inner listening k j e e' s m m' hk hj r =
    rw (hk, tell_listeners, react, react_once, r, bind, hj) refl

answered_dispatch :
    (depth : ℕ) (listening : Listening) (k j : ℕ) (e e' : LifecycleEvent) (s : Snapshot)
    (m m' : Machine)
    → m.listeners ≡ k ∷ j ∷ []
    → IsCoherent m.snapshot
    → plan m.snapshot e ≡ (s, applied)
    → ((m : Machine) → listening k m s e ≡ dispatches e' ∷ [])
    → ((m : Machine) → listening j m s e ≡ [])
    → machine_dispatch (suc depth) listening (answering k s e m) e' ≡ some (ok applied, m')
    → machine_dispatch (suc (suc depth)) listening m e
      ≡ some (ok applied, record m' { heard = m'.heard ++ hearing j s e ∷ [] })
unfolding machine_dispatch dispatch_once conclude bind
answered_dispatch depth listening k j e e' s m m' l c p hk hj r =
    let inner = machine_dispatch (suc depth) listening in
    let tell = λ (ls : List ℕ). tell_listeners inner listening s e ls (record m { snapshot = s }) in
    let go = λ (o : Option Machine). bind {B = Dispatched} o (λ m'. some (ok applied, m')) in
    rw (dispatch-plan m.snapshot e c, machine_dispatch, dispatch_once, p)
      (ap (λ ls. go (tell ls)) l ∙ ap go (told_again inner listening k j e e' s m m' hk hj r))

heard_by-own :
    (k : ℕ) (s : Snapshot) (e : LifecycleEvent) (hs : List Hearing)
    → heard_by k (hs ++ hearing k s e ∷ []) ≡ heard_by k hs ++ s ∷ []
unfolding heard_by
heard_by-own k s e [] = ground (arith, ==_iff k k)
heard_by-own k s e (h ∷ hs) = ground (arith, heard_by-own k s e hs)

heard_by-other :
    (k j : ℕ) (s : Snapshot) (e : LifecycleEvent) (hs : List Hearing)
    → k ≢ j
    → heard_by j (hs ++ hearing k s e ∷ []) ≡ heard_by j hs
unfolding heard_by
heard_by-other k j s e [] n = ground (arith, ==_iff k j)
heard_by-other k j s e (h ∷ hs) n = ground (arith, heard_by-other k j s e hs)

-- Two listeners are subscribed, and the first answers the transition to `s` by an event that makes
-- the machine go on to `s'`. Then the second hears `s'` first and `s` after it: the machine is at
-- `s'`, and the last that this listener hears of it is `s`. The conditions: the machine is
-- coherent, the first listener does not answer the second transition, and the second listener
-- answers neither.
pub answering_listener_regresses :
    (depth : ℕ) (listening : Listening) (k j : ℕ) (e e' : LifecycleEvent) (s s' : Snapshot)
    (m : Machine)
    → k ≢ j
    → m.listeners ≡ k ∷ j ∷ []
    → IsCoherent m.snapshot
    → plan m.snapshot e ≡ (s, applied)
    → plan s e' ≡ (s', applied)
    → ((m : Machine) → listening k m s e ≡ dispatches e' ∷ [])
    → ((m : Machine) → listening k m s' e' ≡ [])
    → ((m : Machine) → listening j m s e ≡ [])
    → ((m : Machine) → listening j m s' e' ≡ [])
    → (m' : Machine) × (machine_dispatch (suc (suc depth)) listening m e ≡ some (ok applied, m'))
      × (m'.snapshot ≡ s')
      × (heard_by j m'.heard ≡ heard_by j m.heard ++ s' ∷ s ∷ [])
answering_listener_regresses depth listening k j e e' s s' m n l c p p' hk hk' hj hj' =
    let c' = subst (λ (q : Plan). IsCoherent q.0) p (plan-IsCoherent m.snapshot e c) in
    let before = answering k s e m in
    let inside = silent_dispatch depth listening k j e' s' before l c' p' hk' hj' in
    let hs = m.heard ++ hearing k s e ∷ [] in
    let hs' = hs ++ hearing k s' e' ∷ [] in
    (
      _,
      answered_dispatch depth listening k j e e' s m _ l c p hk hj inside,
      refl,
      heard_by-own j s e (hs' ++ hearing j s' e' ∷ [])
          ∙ (ap (λ ss. ss ++ s ∷ [])
                (heard_by-own j s' e' hs'
                  ∙ ap (λ ss. ss ++ s' ∷ [])
                      (heard_by-other k j s' e' hs n ∙ heard_by-other k j s e m.heard n))
              ∙ append_assoc (heard_by j m.heard) (s' ∷ []) (s ∷ [])),
    )
