-- ===== src/Lifecycle/Hearings.antt =====
-- What the listeners of the machine of sdk/src/lifecycle.mjs hear.
use mathlib.Core.Option.{bind}
use mathlib.Core.List.{append-nil}
use zed_sync.Prelude.{
  ℕ, zero, suc, ◌+◌, true, false, ◌==◌, if◌then◌else◌, Option, some, List, [], ◌∷◌, ◌++◌, ◌≡◌, ◌≢◌,
  refl, sym, ap, ◌∙◌, All, arith,
}
use zed_sync.Lifecycle.{Snapshot, LifecycleEvent}
use zed_sync.Lifecycle.Listeners.{
  Machine, Hearing, Reaction, dispatches, subscribes, unsubscribes, Listening, Inner, subscribe,
  unsubscribe, subscribed, without_listener, react, react_once, tell_listeners,
}

-- The snapshots that a listener was called with, in order.
unfoldable pub heard_by : ℕ → List Hearing → List Snapshot
heard_by k [] = []
heard_by k (h ∷ hs) = if h.listener == k then h.snapshot ∷ heard_by k hs else heard_by k hs

unfoldable pub times : ℕ → List ℕ → ℕ
times k [] = 0
times k (j ∷ js) = if j == k then suc (times k js) else times k js

-- A reaction that does not call `dispatch`, and does not unsubscribe the listener.
pub data IsQuiet (k : ℕ) : Reaction → Type 0 where
  quiet_subscribes : (j : ℕ) → IsQuiet k (subscribes j)
  quiet_unsubscribes : (j : ℕ) → j ≢ k → IsQuiet k (unsubscribes j)

-- What is kept of a machine by what other listeners do: the listener stays, once.
pub record Keeps (k : ℕ) (m m' : Machine) : Type 0 where
  pub snapshot_kept : m'.snapshot ≡ m.snapshot
  pub heard_kept : m'.heard ≡ m.heard
  pub listens : times k m'.listeners ≡ 1

times-append : (k : ℕ) (xs ys : List ℕ) → times k (xs ++ ys) ≡ times k xs + times k ys
unfolding times
times-append k [] ys = omega arith
times-append k (x ∷ xs) ys = ground (arith, times-append k xs ys)

subscribed-times : (k : ℕ) (ks : List ℕ) → times k ks ≡ 1 → subscribed k ks ≡ true
unfolding times subscribed
subscribed-times k [] h = ground arith
subscribed-times k (j ∷ js) h = ground (arith, subscribed-times k js)

times-without : (k j : ℕ) (ks : List ℕ) → j ≢ k → times k (without_listener j ks) ≡ times k ks
unfolding times without_listener
times-without k j [] n = refl
times-without k j (i ∷ is) n = ground (arith, times-without k j is n)

times-subscribe :
    (k j : ℕ) (m : Machine) → times k m.listeners ≡ 1 → times k (subscribe j m).listeners ≡ 1
unfolding subscribe times
times-subscribe k j m t =
    ground (arith, times-append k m.listeners (j ∷ []), subscribed-times k m.listeners)

subscribe-Keeps : (k j : ℕ) (m : Machine) → times k m.listeners ≡ 1 → Keeps k m (subscribe j m)
unfolding subscribe
subscribe-Keeps k j m t = record {
  snapshot_kept = ground arith;
  heard_kept = ground arith;
  listens = times-subscribe k j m t;
}

react_once-Keeps :
    (inner : Inner) (k : ℕ) (r : Reaction) (m : Machine)
    → IsQuiet k r
    → times k m.listeners ≡ 1
    → (m' : Machine) × (react_once inner r m ≡ some (false, m')) × Keeps k m m'
unfolding react_once unsubscribe
react_once-Keeps inner k (dispatches e) m q t = elim q [ ]
react_once-Keeps inner k (subscribes j) m q t = (subscribe j m, refl, subscribe-Keeps k j m t)
react_once-Keeps inner k (unsubscribes j) m (quiet_unsubscribes i n) t = (
  unsubscribe true j m,
  refl,
  record { snapshot_kept = refl; heard_kept = refl; listens = times-without k j m.listeners n ∙ t },
)

react-Keeps :
    (inner : Inner) (k : ℕ) (rs : List Reaction) (m : Machine)
    → All (IsQuiet k) rs
    → times k m.listeners ≡ 1
    → (m' : Machine) × (react inner rs m ≡ some m') × Keeps k m m'
unfolding react
react-Keeps inner k [] m q t =
    (m, refl, record { snapshot_kept = refl; heard_kept = refl; listens = t })
react-Keeps inner k (r ∷ rs) m (q, qs) t =
    let (m1, e1, k1) = react_once-Keeps inner k r m q t in
    let (m2, e2, k2) = react-Keeps inner k rs m1 qs k1.listens in
    (
      m2,
      rw (e1, react, bind) e2,
      record {
        snapshot_kept = k2.snapshot_kept ∙ k1.snapshot_kept;
        heard_kept = k2.heard_kept ∙ k1.heard_kept;
        listens = k2.listens;
      },
    )

-- No listener calls `dispatch`, nor unsubscribes this one, whatever it hears.
abbrev pub AreQuiet : ℕ → Listening → Type 0
AreQuiet k listening =
    (j : ℕ) (m : Machine) (s : Snapshot) (e : LifecycleEvent) → All (IsQuiet k) (listening j m s e)

-- As often as there are entries of the listener in the copy.
abbrev pub repeat : ℕ → Snapshot → List Snapshot
repeat zero s = []
repeat (suc n) s = s ∷ repeat n s

heard_by-next :
    (k : ℕ) (s : Snapshot) (h : Hearing) (js : List ℕ) (hs : List Hearing)
    → h.snapshot ≡ s
    → heard_by k (hs ++ h ∷ []) ++ repeat (times k js) s
      ≡ heard_by k hs ++ repeat (times k (h.listener ∷ js)) s
unfolding heard_by times
heard_by-next k s h js [] e = ground arith
heard_by-next k s h js (x ∷ hs) e = ground (arith, heard_by-next k s h js hs e)

-- A copy of the listeners that has been told of a transition.
pub record Told (k : ℕ) (s : Snapshot) (ks : List ℕ) (m : Machine) (o : Option Machine)
    : Type 0 where
  pub told : Machine
  pub told_at : o ≡ some told
  pub snapshot_told : told.snapshot ≡ m.snapshot
  pub heard_told : heard_by k told.heard ≡ heard_by k m.heard ++ repeat (times k ks) s
  pub listens_on : times k told.listeners ≡ 1

pub tell_listeners-Told :
    (inner : Inner) (listening : Listening) (k : ℕ) (s : Snapshot) (e : LifecycleEvent)
    (ks : List ℕ) (m : Machine)
    → AreQuiet k listening
    → times k m.listeners ≡ 1
    → Told k s ks m (tell_listeners inner listening s e ks m)
unfolding tell_listeners times
tell_listeners-Told inner listening k s e [] m q t = record {
  told = m;
  told_at = refl;
  snapshot_told = refl;
  heard_told = sym (append-nil (heard_by k m.heard));
  listens_on = t;
}
tell_listeners-Told inner listening k s e (j ∷ js) m q t =
    let m' = record m {
      heard = m.heard ++ record { listener = j; snapshot = s; event = e } ∷ [];
    } in
    let (m1, e1, k1) = react-Keeps inner k (listening j m' s e) m' (q j m' s e) t in
    let rest = tell_listeners-Told inner listening k s e js m1 q k1.listens in
    record {
      told = rest.told;
      told_at = rw (e1, tell_listeners, bind) rest.told_at;
      snapshot_told = rest.snapshot_told ∙ k1.snapshot_kept;
      heard_told =
          rest.heard_told
          ∙ (ap (λ hs. heard_by k hs ++ repeat (times k js) s) k1.heard_kept
              ∙ heard_by-next k s (record { listener = j; snapshot = s; event = e }) js m.heard
                  refl);
      listens_on = rest.listens_on;
    }
