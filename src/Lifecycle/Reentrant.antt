-- ===== src/Lifecycle/Reentrant.antt =====
-- Listeners of the machine of sdk/src/lifecycle.mjs that call its `dispatch` again.
use mathlib.Core.Option.{bind}
use zed_sync.Prelude.{
  ℕ, zero, suc, Bool, true, false, if◌then◌else◌, Option, none, some, List, [], ◌∷◌, ◌++◌, ◌≡◌,
  refl, inl, inr, Bool-cases, All,
}
use zed_sync.Lifecycle.{Snapshot, LifecycleEvent, applied, stuttered, stale, rejected}
use zed_sync.Lifecycle.Dispatch.{Plan, plan}
use zed_sync.Lifecycle.Coherent.{IsCoherent, dispatch-plan, plan-IsCoherent}
use zed_sync.Lifecycle.Listeners.{
  Machine, Hearing, Reaction, dispatches, subscribes, unsubscribes, Listening, Inner, Dispatched,
  subscribe, subscribed, unsubscribe, did_throw, react, react_once, tell_listeners, conclude,
  dispatch_once, machine_dispatch,
}

-- The machine's snapshot is coherent, and so is every one that a listener was called with.
pub record IsVetted (m : Machine) : Type 0 where
  pub coherent_now : IsCoherent m.snapshot
  pub coherent_heard : All (λ (h : Hearing). IsCoherent h.snapshot) m.heard

-- What holds of a call's result if it returns.
abbrev pub IfReturns {ℓ κ} : {A : Type ℓ} → (A → Type κ) → Option A → Type κ
IfReturns P none = Unit
IfReturns P (some a) = P a

-- A `dispatch` did not throw, and leaves the machine vetted.
pub record IsSafe (d : Dispatched) : Type 0 where
  pub no_throw : did_throw d.0 ≡ false
  pub vetted : IsVetted d.1

-- A `dispatch` that is safe whenever it returns.
abbrev Vets : Inner → Type 0
Vets inner = (m : Machine) (e : LifecycleEvent) → IsVetted m → IfReturns IsSafe (inner m e)

IfReturns-bind {ℓ κ} :
    {A : Type ℓ} {B : Type κ} (P : A → Type 0) (Q : B → Type 0) (o : Option A) (f : A → Option B)
    → IfReturns P o
    → ((a : A) → P a → IfReturns Q (f a))
    → IfReturns Q (bind o f)
unfolding bind
IfReturns-bind P Q none f p k = p
IfReturns-bind P Q (some a) f p k = k a p

All-snoc :
    (hs : List Hearing) (h : Hearing)
    → All (λ (h : Hearing). IsCoherent h.snapshot) hs
    → IsCoherent h.snapshot
    → All (λ (h : Hearing). IsCoherent h.snapshot) (hs ++ h ∷ [])
All-snoc [] h a c = (c, a)
All-snoc (x ∷ hs) h (b, a) c = (b, All-snoc hs h a c)

subscribe-IsVetted : (k : ℕ) (m : Machine) → IsVetted m → IsVetted (subscribe k m)
unfolding subscribe
subscribe-IsVetted k m v = elim (Bool-cases (subscribed k m.listeners)) [
  | inl p ↦ rw (p, subscribe) v
  | inr p ↦
      rw (p, subscribe) record { coherent_now = v.coherent_now; coherent_heard = v.coherent_heard }
]

react_once-IsVetted :
    (inner : Inner) (r : Reaction) (m : Machine)
    → Vets inner
    → IsVetted m
    → IfReturns (λ (p : Bool × Machine). IsVetted p.1) (react_once inner r m)
unfolding react_once unsubscribe
react_once-IsVetted inner (dispatches e) m w v =
    IfReturns-bind IsSafe _ (inner m e) _ (w m e v) (λ d s. s.vetted)
react_once-IsVetted inner (subscribes k) m w v = subscribe-IsVetted k m v
react_once-IsVetted inner (unsubscribes k) m w v = record {
  coherent_now = v.coherent_now;
  coherent_heard = v.coherent_heard;
}

ends_or_goes_on :
    (b : Bool) (m : Machine) (rest : Option Machine)
    → IsVetted m
    → IfReturns IsVetted rest
    → IfReturns IsVetted (if b then some m else rest)
ends_or_goes_on true m rest v r = v
ends_or_goes_on false m rest v r = r

react-IsVetted :
    (inner : Inner) (rs : List Reaction) (m : Machine)
    → Vets inner
    → IsVetted m
    → IfReturns IsVetted (react inner rs m)
unfolding react
react-IsVetted inner [] m w v = v
react-IsVetted inner (r ∷ rs) m w v =
    IfReturns-bind (λ (p : Bool × Machine). IsVetted p.1) IsVetted (react_once inner r m) _
      (react_once-IsVetted inner r m w v)
      (λ p u. ends_or_goes_on p.0 p.1 (react inner rs p.1) u (react-IsVetted inner rs p.1 w u))

tell_listeners-IsVetted :
    (inner : Inner) (listening : Listening) (s : Snapshot) (e : LifecycleEvent) (ks : List ℕ)
    (m : Machine)
    → Vets inner
    → IsCoherent s
    → IsVetted m
    → IfReturns IsVetted (tell_listeners inner listening s e ks m)
unfolding tell_listeners
tell_listeners-IsVetted inner listening s e [] m w c v = v
tell_listeners-IsVetted inner listening s e (k ∷ ks) m w c v =
    let h : Hearing = record { listener = k; snapshot = s; event = e } in
    let m' = record m { heard = m.heard ++ h ∷ [] } in
    IfReturns-bind IsVetted IsVetted (react inner (listening k m' s e) m') _
      (react-IsVetted inner (listening k m' s e) m' w record {
        coherent_now = v.coherent_now;
        coherent_heard = All-snoc m.heard h v.coherent_heard c;
      })
      (λ m1 u. tell_listeners-IsVetted inner listening s e ks m1 w c u)

conclude-IsSafe :
    (inner : Inner) (listening : Listening) (e : LifecycleEvent) (p : Plan) (m : Machine)
    → Vets inner
    → IsCoherent p.0
    → IsVetted m
    → IfReturns IsSafe (conclude inner listening e p m)
unfolding conclude did_throw
conclude-IsSafe inner listening e (s, applied) m w c v =
    IfReturns-bind IsVetted IsSafe
      (tell_listeners inner listening s e m.listeners (record m { snapshot = s })) _
      (tell_listeners-IsVetted inner listening s e m.listeners (record m { snapshot = s }) w c
        record { coherent_now = c; coherent_heard = v.coherent_heard })
      (λ m' u. record { no_throw = refl; vetted = u })
conclude-IsSafe inner listening e (s, stuttered) m w c v = record { no_throw = refl; vetted = v }
conclude-IsSafe inner listening e (s, stale) m w c v = record { no_throw = refl; vetted = v }
conclude-IsSafe inner listening e (s, rejected) m w c v = record { no_throw = refl; vetted = v }

-- Whatever the listeners do, calls of `dispatch` from within them at any depth, subscriptions and
-- exceptions included: a `dispatch` of a machine that is coherent, and whose listeners were told
-- of coherent snapshots only, if it returns at all, has not thrown and leaves a machine of which
-- this is still so.
pub machine_dispatch-IsSafe :
    (depth : ℕ) (listening : Listening) (m : Machine) (e : LifecycleEvent)
    → IsVetted m
    → IfReturns IsSafe (machine_dispatch depth listening m e)
unfolding machine_dispatch dispatch_once
machine_dispatch-IsSafe zero listening m e v = tt
machine_dispatch-IsSafe (suc depth) listening m e v =
    rw (dispatch-plan m.snapshot e v.coherent_now, machine_dispatch, dispatch_once)
      (conclude-IsSafe (machine_dispatch depth listening) listening e (plan m.snapshot e) m
        (machine_dispatch-IsSafe depth listening) (plan-IsCoherent m.snapshot e v.coherent_now) v)
