-- ===== src/Lifecycle/Listeners.antt =====
-- `AppLifecycleMachine` of sdk/src/lifecycle.mjs with its listeners: `subscribe`, and `#commit`,
-- which tells them of each applied transition. A listener is the application's: what it does
-- before it returns or throws is a parameter, and it may call the machine again.
use mathlib.Core.Option.{bind}
use zed_sync.Prelude.{
  ℕ, zero, suc, Bool, true, false, ◌==◌, ◌||◌, if◌then◌else◌, Option, none, some, List, [], ◌∷◌,
  ◌++◌,
}
use zed_sync.Result.{Result, ok, err}
use zed_sync.Lifecycle.{Snapshot, LifecycleEvent, TransitionOutcome, applied}
use zed_sync.Lifecycle.Dispatch.{dispatch, Plan}

-- A call of a listener, with what it was called with.
pub record Hearing : Type 0 where
  pub listener : ℕ
  pub snapshot : Snapshot
  pub event : LifecycleEvent

-- The fields of the machine, `#listeners` in order of insertion, and the calls of listeners so
-- far. A listener is told from others by a number.
pub record Machine : Type 0 where
  pub snapshot : Snapshot
  pub listeners : List ℕ
  pub heard : List Hearing

unfoldable pub subscribed : ℕ → List ℕ → Bool
subscribed k [] = false
subscribed k (j ∷ js) = j == k || subscribed k js

-- `#listeners.add(listener)`
unfoldable pub subscribe : ℕ → Machine → Machine
unfolding subscribed
subscribe k m =
    if subscribed k m.listeners then m else record m { listeners = m.listeners ++ k ∷ [] }

-- `#listeners.delete(listener)`
unfoldable pub without_listener : ℕ → List ℕ → List ℕ
without_listener k [] = []
without_listener k (j ∷ js) = if j == k then js else j ∷ without_listener k js

-- The function that `subscribe` returned, with its variable `subscribed`.
unfoldable pub unsubscribe : Bool → ℕ → Machine → Machine
unfolding without_listener
unsubscribe false k m = m
unsubscribe true k m = record m { listeners = without_listener k m.listeners }

-- What a listener may do to the machine.
pub data Reaction : Type 0 where
  dispatches : LifecycleEvent → Reaction
  subscribes : ℕ → Reaction
  unsubscribes : ℕ → Reaction

-- The outcome of a call of `dispatch`, and the machine then.
abbrev pub Dispatched : Type 0
Dispatched = Result TransitionOutcome × Machine

-- What the listeners do until they return or throw.
abbrev pub Listening : Type 0
Listening = ℕ → Machine → Snapshot → LifecycleEvent → List Reaction

-- A `dispatch` that listeners may call; `none` where it does not return.
abbrev pub Inner : Type 0
Inner = Machine → LifecycleEvent → Option Dispatched

unfoldable pub did_throw : Result TransitionOutcome → Bool
did_throw (ok o) = false
did_throw (err x) = true

-- One reaction: the machine after it, and whether it did_throw.
unfoldable pub react_once : Inner → Reaction → Machine → Option (Bool × Machine)
unfolding subscribe unsubscribe did_throw bind
react_once inner (dispatches e) m = bind (inner m e) (λ d. some (did_throw d.0, d.1))
react_once inner (subscribes k) m = some (false, subscribe k m)
react_once inner (unsubscribes k) m = some (false, unsubscribe true k m)

-- The reactions in order; one that throws ends the listener, and the `catch` drops it.
unfoldable pub react : Inner → List Reaction → Machine → Option Machine
unfolding react_once bind
react inner [] m = some m
react inner (r ∷ rs) m =
    bind (react_once inner r m)
      (λ p. let rest = react inner rs p.1 in if p.0 then some p.1 else rest)

-- The loop of `#commit` over a copy of the listeners.
unfoldable pub tell_listeners :
    Inner → Listening → Snapshot → LifecycleEvent → List ℕ → Machine → Option Machine
unfolding react bind
tell_listeners inner listening s e [] m = some m
tell_listeners inner listening s e (k ∷ ks) m =
    let m' = record m {
      heard = m.heard ++ record { listener = k; snapshot = s; event = e } ∷ [];
    } in
    bind (react inner (listening k m' s e) m') (tell_listeners inner listening s e ks)

-- The end of `dispatch`: an applied transition is committed and told.
unfoldable pub conclude : Inner → Listening → LifecycleEvent → Plan → Machine → Option Dispatched
unfolding tell_listeners bind
conclude inner listening e (s, applied) m =
    bind (tell_listeners inner listening s e m.listeners (record m { snapshot = s }))
      (λ m'. some (ok applied, m'))
conclude inner listening e (s, outcome) m = some (ok outcome, m)

unfoldable pub dispatch_once : Inner → Listening → Machine → LifecycleEvent → Option Dispatched
unfolding conclude
dispatch_once inner listening m e = elim (dispatch m.snapshot e) [
  | err x ↦ some (err x, m)
  | ok p ↦ conclude inner listening e p m
]

-- `dispatch`, called by listeners of listeners down to a depth.
unfoldable pub machine_dispatch : ℕ → Listening → Machine → LifecycleEvent → Option Dispatched
unfolding dispatch_once
machine_dispatch zero listening m e = none
machine_dispatch (suc depth) listening m e =
    dispatch_once (machine_dispatch depth listening) listening m e

-- `dispatch` after `dispatch`, whatever they answer.
unfoldable pub machine_run : ℕ → Listening → Machine → List LifecycleEvent → Option Machine
unfolding machine_dispatch bind
machine_run depth listening m [] = some m
machine_run depth listening m (e ∷ es) =
    bind (machine_dispatch depth listening m e) (λ d. machine_run depth listening d.1 es)
