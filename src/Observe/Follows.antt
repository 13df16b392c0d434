-- ===== src/Observe/Follows.antt =====
-- The two streams of sdk/src/rxjs.mjs on a machine of sdk/src/lifecycle.mjs.
use zed_sync.Prelude.{
  ℕ, suc, Bool, true, false, Bool-cases, none, some, List, [], ◌∷◌, ◌≡◌, refl, ap, subst, ◌∙◌, inl,
  inr, map,
}
use zed_sync.Result.{Result, ok, err}
use zed_sync.Lifecycle.{Snapshot, LifecycleEvent}
use zed_sync.Lifecycle.Capabilities.{Capabilities, app_capabilities}
use zed_sync.Lifecycle.Dispatch.{plan, Plan}
use zed_sync.Lifecycle.Coherent.{IsCoherent, plan-IsCoherent, run, dispatch-plan}
use zed_sync.Lifecycle.Listeners.{Machine, Listening, machine_run}
use zed_sync.Lifecycle.Hearings.{heard_by, times, AreQuiet}
use zed_sync.Lifecycle.Quiet.{transitions, is_applied}
use zed_sync.Observe.{
  Stream, Subscriber, Operators, observe_source, observe_lifecycle, observe_capabilities,
  equal_snapshots, equal_capabilities,
}
use zed_sync.Observe.Equal.{equal_capabilities_eq}
use zed_sync.Observe.Streams.{stream_of, IsSubscriber}
use zed_sync.Observe.Faithful.{
  keep_changes, keep_from, IsDocumented, view_of, keep_from-transitions, unapplied_same,
  machine-Followed,
}

-- The last of a list that begins with `x`.
abbrev pub last_of {ℓ} : {A : Type ℓ} → A → List A → A
last_of x [] = x
last_of x (y ∷ ys) = last_of y ys

last_of-keep_from {ℓ} :
    {A : Type ℓ} (eq : A → A → Bool) (x : A) (ys : List A)
    → ((a b : A) → eq a b ≡ true → a ≡ b)
    → last_of x (keep_from eq x ys) ≡ last_of x ys
unfolding keep_from
last_of-keep_from eq x [] r = refl
last_of-keep_from eq x (y ∷ ys) r = elim (Bool-cases (eq x y)) [
  | inl a ↦ rw (a, keep_from) (last_of-keep_from eq x ys r ∙ ap (λ z. last_of z ys) (r x y a))
  | inr a ↦ rw (a, keep_from) (last_of-keep_from eq y ys r)
]

last_of-map {ℓ κ} :
    {A : Type ℓ} {B : Type κ} (f : A → B) (x : A) (ys : List A)
    → last_of (f x) (map f ys) ≡ f (last_of x ys)
last_of-map f x [] = refl
last_of-map f x (y ∷ ys) = last_of-map f y ys

abbrev after : Result Plan → List LifecycleEvent → Result Snapshot
after r es = elim r [ err x ↦ err x | ok p ↦ run p.0 es ]

last_of-transitions :
    (s t : Snapshot) (es : List LifecycleEvent)
    → IsCoherent s
    → run s es ≡ ok t
    → last_of s (transitions s es) ≡ t
unfolding transitions run
last_of-transitions s t [] c r = cc
last_of-transitions s t (e ∷ es) c r =
    let r' : run (plan s e).0 es ≡ ok t = subst (λ q. after q es ≡ ok t) (dispatch-plan s e c) r in
    let rest = last_of-transitions (plan s e).0 t es (plan-IsCoherent s e c) r' in
    elim (Bool-cases (is_applied (plan s e).1)) [
      | inl a ↦ rw (a, transitions) rest
      | inr a ↦
          rw (a, transitions)
            (subst (λ u. last_of u (transitions (plan s e).0 es) ≡ t) (unapplied_same s e a) rest)
    ]

observe_lifecycle-transitions :
    (ops : Operators Snapshot) (s : Snapshot) (es : List LifecycleEvent)
    → IsDocumented ops
    → IsCoherent s
    → observe_lifecycle ops (stream_of (s ∷ transitions s es) none)
      ≡ stream_of (s ∷ transitions s es) none
unfolding observe_lifecycle keep_changes
observe_lifecycle-transitions ops s es doc c =
    doc.shared _
    ∙ (doc.distinct equal_snapshots (stream_of (s ∷ transitions s es) none)
        ∙ ap (λ ss. stream_of (s ∷ ss) none) (keep_from-transitions s es c))

-- An observer of the snapshots of a coherent machine that it subscribes to before the events gets
-- the current snapshot and then every transition that they make, in order, none dropped and none
-- twice, and no error. The conditions: no listener calls `dispatch`, or unsubscribes the
-- observer's.
pub observed_lifecycle {ℓ} :
    {S : Type ℓ} (sub : Subscriber S) (ops : Operators Snapshot) (st : S) (depth : ℕ)
    (listening : Listening) (k : ℕ) (es : List LifecycleEvent) (m : Machine)
    → IsSubscriber sub
    → IsDocumented ops
    → sub.is_closed st ≡ false
    → sub.received st ≡ stream_of [] none
    → AreQuiet k listening
    → times k m.listeners ≡ 1
    → heard_by k m.heard ≡ []
    → IsCoherent m.snapshot
    → (m' : Machine) × (st' : S) × (machine_run (suc depth) listening m es ≡ some m')
      × (observe_source sub (view_of m) (heard_by k m'.heard) st ≡ ok st')
      × (observe_lifecycle ops (sub.received st')
          ≡ stream_of (m.snapshot ∷ transitions m.snapshot es) none)
observed_lifecycle sub ops st depth listening k es m law doc o r q t h c =
    let f = machine-Followed sub st depth listening k es m law o r q t h c in
    (
      f.machine,
      f.state,
      f.ran,
      f.observed,
      ap (observe_lifecycle ops) f.got ∙ observe_lifecycle-transitions ops m.snapshot es doc c,
    )

-- The stream of capabilities is up to date: under the same conditions it begins with those of the
-- machine's snapshot before the events, and the last that it has emitted are those of the machine's
-- snapshot after them.
pub observed_capabilities_current {ℓ} :
    {S : Type ℓ} (sub : Subscriber S) (ops : Operators Snapshot) (ops' : Operators Capabilities)
    (map_stream : (Snapshot → Capabilities) → Stream Snapshot → Stream Capabilities) (st : S)
    (depth : ℕ) (listening : Listening) (k : ℕ) (es : List LifecycleEvent) (m : Machine)
    → IsSubscriber sub
    → IsDocumented ops
    → IsDocumented ops'
    → ((f : Snapshot → Capabilities) (s : Stream Snapshot)
        → map_stream f s ≡ stream_of (map f s.emitted) s.failed_with)
    → sub.is_closed st ≡ false
    → sub.received st ≡ stream_of [] none
    → AreQuiet k listening
    → times k m.listeners ≡ 1
    → heard_by k m.heard ≡ []
    → IsCoherent m.snapshot
    → (m' : Machine) × (st' : S) × (cs : List Capabilities) × (machine_run
          (suc depth)
          listening
          m
          es
        ≡ some m')
      × (observe_source sub (view_of m) (heard_by k m'.heard) st ≡ ok st')
      × (observe_capabilities ops ops' map_stream (sub.received st')
          ≡ stream_of (app_capabilities m.snapshot ∷ cs) none)
      × (last_of (app_capabilities m.snapshot) cs ≡ app_capabilities m'.snapshot)
unfolding observe_capabilities keep_changes
observed_capabilities_current sub ops ops' map_stream st depth listening k es m law doc doc' dm o r
      q t h c =
    let f = machine-Followed sub st depth listening k es m law o r q t h c in
    let ss = transitions m.snapshot es in
    let s' = observe_lifecycle ops (sub.received f.state) in
    let e =
      ap (observe_lifecycle ops) f.got ∙ observe_lifecycle-transitions ops m.snapshot es doc c in
    (
      f.machine,
      f.state,
      keep_from equal_capabilities (app_capabilities m.snapshot) (map app_capabilities ss),
      f.ran,
      f.observed,
      doc'.shared _
          ∙ (doc'.distinct equal_capabilities (map_stream app_capabilities s')
              ∙ ap
                  (λ (x : Stream Capabilities).
                    stream_of (keep_changes equal_capabilities x.emitted) x.failed_with)
                  (dm app_capabilities s'
                    ∙ ap
                        (λ (x : Stream Snapshot).
                          stream_of (map app_capabilities x.emitted) x.failed_with)
                        e)),
      last_of-keep_from equal_capabilities (app_capabilities m.snapshot) (map app_capabilities ss)
            equal_capabilities_eq
          ∙ (last_of-map app_capabilities m.snapshot ss
              ∙ ap app_capabilities
                  (last_of-transitions m.snapshot f.machine.snapshot es c f.at_end)),
    )
