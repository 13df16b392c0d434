-- ===== src/Observe/Faithful.antt =====
-- What an observer of sdk/src/rxjs.mjs gets of a machine of sdk/src/lifecycle.mjs.
use zed_sync.Prelude.{
  ℕ, suc, Bool, true, false, Bool-cases, if◌then◌else◌, none, some, List, [], ◌∷◌, ◌++◌, ◌≡◌, refl,
  ap, subst, ◌∙◌, inl, inr, All, arith,
}
use zed_sync.Result.{ok}
use zed_sync.Lifecycle.{Snapshot, LifecycleEvent, TransitionOutcome, applied}
use zed_sync.Lifecycle.Dispatch.{plan}
use zed_sync.Lifecycle.Coherent.{IsCoherent, plan-IsCoherent, plan_unapplied, run}
use zed_sync.Lifecycle.Listeners.{Machine, Listening, machine_run}
use zed_sync.Lifecycle.Hearings.{heard_by, times, AreQuiet}
use zed_sync.Lifecycle.Quiet.{transitions, is_applied, quiet_listener_hears}
use zed_sync.Observe.{
  Stream, Subscriber, LifecycleView, Operators, observe_source, equal_snapshots,
  assert_lifecycle_view,
}
use zed_sync.Observe.Equal.{plan_applied-equal_snapshots}
use zed_sync.Observe.Streams.{
  stream_of, IsSubscriber, Observed, got_all, got_until, observe_source-Observed,
}

-- The values that differ from the last one kept.
unfoldable pub keep_from {ℓ} : {A : Type ℓ} → (A → A → Bool) → A → List A → List A
keep_from eq last [] = []
keep_from eq last (y ∷ ys) =
    let kept = keep_from eq last ys in
    let rest = keep_from eq y ys in if eq last y then kept else y ∷ rest

unfoldable pub keep_changes {ℓ} : {A : Type ℓ} → (A → A → Bool) → List A → List A
unfolding keep_from
keep_changes eq [] = []
keep_changes eq (x ∷ xs) = x ∷ keep_from eq x xs

-- What is documented of the operators: `distinctUntilChanged` drops the values that equal the last
-- one that it let through, and `shareReplay` hands on all that it gets while it is observed.
pub record IsDocumented {ℓ} {A : Type ℓ} (ops : Operators A) : Type ℓ where
  pub distinct :
      (eq : A → A → Bool) (s : Stream A)
      → ops.distinct_until_changed eq s ≡ stream_of (keep_changes eq s.emitted) s.failed_with
  pub shared : (s : Stream A) → ops.share_replay s ≡ s

-- The machine as a view.
abbrev pub view_of : Machine → LifecycleView
view_of m = record {
  is_truthy = true;
  has_subscribe = true;
  has_snapshot = true;
  snapshot = m.snapshot;
}

transitions-IsCoherent :
    (s : Snapshot) (es : List LifecycleEvent) → IsCoherent s → All IsCoherent (transitions s es)
unfolding transitions
transitions-IsCoherent s [] c = tt
transitions-IsCoherent s (e ∷ es) c =
    let c' = plan-IsCoherent s e c in
    let rest = transitions-IsCoherent (plan s e).0 es c' in
    elim (Bool-cases (is_applied (plan s e).1)) [
      | inl a ↦ rw (a, transitions) (c', rest)
      | inr a ↦ rw (a, transitions) rest
    ]

is_applied_eq : (o : TransitionOutcome) → is_applied o ≡ true → o ≡ applied
is_applied_eq o a = ground arith

pub unapplied_same :
    (s : Snapshot) (e : LifecycleEvent) → is_applied (plan s e).1 ≡ false → (plan s e).0 ≡ s
unapplied_same s e a = plan_unapplied s e (λ h. cc)

-- None of the transitions is dropped.
pub keep_from-transitions :
    (s : Snapshot) (es : List LifecycleEvent)
    → IsCoherent s
    → keep_from equal_snapshots s (transitions s es) ≡ transitions s es
unfolding transitions keep_from
keep_from-transitions s [] c = refl
keep_from-transitions s (e ∷ es) c =
    let c' = plan-IsCoherent s e c in
    let rest = keep_from-transitions (plan s e).0 es c' in
    elim (Bool-cases (is_applied (plan s e).1)) [
      | inl a ↦
          rw
            (
              a,
              transitions,
              keep_from,
              plan_applied-equal_snapshots s e c (is_applied_eq (plan s e).1 a),
            )
            (ap (λ ys. (plan s e).0 ∷ ys) rest)
      | inr a ↦
          rw (a, transitions)
            (subst
              (λ t.
                keep_from equal_snapshots t (transitions (plan s e).0 es)
                ≡ transitions (plan s e).0 es)
              (unapplied_same s e a) rest)
    ]

All-after :
    (pre : List Snapshot) (s : Snapshot) (post : List Snapshot)
    → All IsCoherent (pre ++ s ∷ post)
    → IsCoherent s
All-after [] s post (c, a) = c
All-after (x ∷ pre) s post (c, a) = All-after pre s post a

Observed-all :
    (ss : List Snapshot) (r : Stream Snapshot)
    → All IsCoherent ss
    → Observed [] ss r
    → r ≡ stream_of ss none
Observed-all ss r a (got_all b e) = e
Observed-all ss r a (got_until pre s post b f g e) =
    let c = All-after pre s post (subst (All IsCoherent) g a) in ground (arith, c, f)

-- The source, on a machine whose listeners do not call it.
pub record Followed {ℓ} {S : Type ℓ} (sub : Subscriber S) (st : S) (depth : ℕ)
    (listening : Listening) (k : ℕ) (es : List LifecycleEvent) (m : Machine) : Type ℓ where
  pub machine : Machine
  pub state : S
  pub ran : machine_run (suc depth) listening m es ≡ some machine
  pub observed : observe_source sub (view_of m) (heard_by k machine.heard) st ≡ ok state
  pub at_end : run m.snapshot es ≡ ok machine.snapshot
  pub got : sub.received state ≡ stream_of (m.snapshot ∷ transitions m.snapshot es) none

pub machine-Followed {ℓ} :
    {S : Type ℓ} (sub : Subscriber S) (st : S) (depth : ℕ) (listening : Listening) (k : ℕ)
    (es : List LifecycleEvent) (m : Machine)
    → IsSubscriber sub
    → sub.is_closed st ≡ false
    → sub.received st ≡ stream_of [] none
    → AreQuiet k listening
    → times k m.listeners ≡ 1
    → heard_by k m.heard ≡ []
    → IsCoherent m.snapshot
    → Followed sub st depth listening k es m
unfolding assert_lifecycle_view
machine-Followed sub st depth listening k es m law o r q t h c =
    let (m', e, n, l) = quiet_listener_hears depth listening k es m q t c in
    let (st', f, g) =
      observe_source-Observed sub (view_of m) (heard_by k m'.heard) st law refl o r in
    let l' = l ∙ ap (λ hs. hs ++ transitions m.snapshot es) h in
    record {
      machine = m';
      state = st';
      ran = e;
      observed = f;
      at_end = n;
      got =
          Observed-all (m.snapshot ∷ transitions m.snapshot es) (sub.received st')
            (c, transitions-IsCoherent m.snapshot es c)
            (subst (λ hs. Observed [] (m.snapshot ∷ hs) (sub.received st')) l' g);
    }
