-- ===== src/Observe/Streams.antt =====
-- What an observer of sdk/src/rxjs.mjs gets from the source, well-formed snapshots or not.
use mathlib.Core.List.{append-nil, append_assoc}
use zed_sync.Prelude.{
  true, false, if◌then◌else◌, Option, none, some, List, [], ◌∷◌, ◌++◌, ◌≡◌, refl, sym, ap, subst,
  ◌∙◌, ◌⊎◌, inl, inr, All, Bool-cases, arith,
}
use zed_sync.Result.{ok, err, JsError, type_error}
use zed_sync.Lifecycle.{Snapshot, assert_app_lifecycle_invariant}
use zed_sync.Lifecycle.Coherent.{IsCoherent}
use zed_sync.Observe.{
  Stream, Subscriber, LifecycleView, publish, on_snapshot, on_snapshots, observe_source,
  assert_lifecycle_view,
}

abbrev pub stream_of {ℓ} : {A : Type ℓ} → List A → Option JsError → Stream A
stream_of xs e = record { emitted = xs; failed_with = e }

-- What is documented of a subscriber that nobody unsubscribes: a value arrives as long as it is
-- open, and an error arrives and closes it.
pub record IsSubscriber {ℓ} {S : Type ℓ} (sub : Subscriber S) : Type ℓ where
  pub next_received :
      (s : Snapshot) (st : S)
      → sub.is_closed st ≡ false
      → sub.received (sub.next s st)
        ≡ stream_of ((sub.received st).emitted ++ s ∷ []) (sub.received st).failed_with
  pub next_open :
      (s : Snapshot) (st : S) → sub.is_closed st ≡ false → sub.is_closed (sub.next s st) ≡ false
  pub fail_received :
      (e : JsError) (st : S)
      → sub.is_closed st ≡ false
      → sub.received (sub.fail e st) ≡ stream_of (sub.received st).emitted (some e)
  pub fail_closes :
      (e : JsError) (st : S) → sub.is_closed st ≡ false → sub.is_closed (sub.fail e st) ≡ true

-- What became of the snapshots `ss`: all of them are coherent and were got, or those before the
-- first that is not, and the error then.
pub data Observed (xs ss : List Snapshot) (r : Stream Snapshot) : Type 0 where
  got_all : All IsCoherent ss → r ≡ stream_of (xs ++ ss) none → Observed xs ss r
  got_until :
      (pre : List Snapshot) (s : Snapshot) (post : List Snapshot)
      → All IsCoherent pre
      → assert_app_lifecycle_invariant s ≡ err type_error
      → ss ≡ pre ++ s ∷ post
      → r ≡ stream_of (xs ++ pre) (some type_error)
      → Observed xs ss r

assert-cases : (s : Snapshot) → (IsCoherent s) ⊎ (assert_app_lifecycle_invariant s ≡ err type_error)
unfolding assert_app_lifecycle_invariant
assert-cases s = ground arith

module _ {ℓ} {S : Type ℓ} (sub : Subscriber S) (law : IsSubscriber sub) where
  on_snapshots_closed :
      (ss : List Snapshot) (st : S) → sub.is_closed st ≡ true → on_snapshots sub ss st ≡ st
  unfolding on_snapshots on_snapshot
  on_snapshots_closed [] st c = refl
  on_snapshots_closed (s ∷ ss) st c = rw (c) (on_snapshots_closed ss st c)

  Observed-next :
      (xs ss : List Snapshot) (s : Snapshot) (r : Stream Snapshot)
      → IsCoherent s
      → Observed (xs ++ s ∷ []) ss r
      → Observed xs (s ∷ ss) r
  Observed-next xs ss s r c (got_all a e) =
      got_all (c, a) (e ∙ ap (λ ys. stream_of ys none) (append_assoc xs (s ∷ []) ss))
  Observed-next xs ss s r c (got_until pre t post a f g e) =
      got_until (s ∷ pre) t post (c, a) f (ap (λ ys. s ∷ ys) g)
        (e ∙ ap (λ ys. stream_of ys (some type_error)) (append_assoc xs (s ∷ []) pre))

  on_snapshots-Observed :
      (ss xs : List Snapshot) (st : S)
      → sub.is_closed st ≡ false
      → sub.received st ≡ stream_of xs none
      → Observed xs ss (sub.received (on_snapshots sub ss st))
  unfolding on_snapshots on_snapshot publish
  on_snapshots-Observed [] xs st o r =
      got_all tt (r ∙ ap (λ ys. stream_of ys none) (sym (append-nil xs)))
  on_snapshots-Observed (s ∷ ss) xs st o r = elim (assert-cases s) [
    | inl c ↦
        rw (o, c, on_snapshots, on_snapshot, publish)
          (Observed-next xs ss s _ c (
            on_snapshots-Observed ss (xs ++ s ∷ []) (sub.next s st) (law.next_open s st o) (
              law.next_received s st o
              ∙ ap (λ (t : Stream Snapshot). stream_of (t.emitted ++ s ∷ []) t.failed_with) r)))
    | inr f ↦
        rw
          (
            o,
            f,
            on_snapshots,
            on_snapshot,
            publish,
            on_snapshots_closed ss (sub.fail type_error st) (law.fail_closes type_error st o),
          )
          (got_until [] s ss tt f refl (
            law.fail_received type_error st o
            ∙ ap (λ (t : Stream Snapshot). stream_of t.emitted (some type_error)) r
            ∙ ap (λ ys. stream_of ys (some type_error)) (sym (append-nil xs))))
  ]

  closed_or_told :
      (told : List Snapshot) (st : S)
      → (if sub.is_closed st then st else on_snapshots sub told st) ≡ on_snapshots sub told st
  closed_or_told told st = elim (Bool-cases (sub.is_closed st)) [
    | inl c ↦ rw (c) (sym (on_snapshots_closed told st c))
    | inr c ↦ rw (c) refl
  ]

  as_told :
      (s : Snapshot) (told : List Snapshot) (st : S)
      → sub.is_closed st ≡ false
      → (let st' = publish sub s st in
          let rest = on_snapshots sub told st' in if sub.is_closed st' then st' else rest)
        ≡ on_snapshots sub (s ∷ told) st
  unfolding on_snapshots on_snapshot
  as_told s told st o = rw (o, on_snapshot) (closed_or_told told (publish sub s st))

  -- The first publication, on a subscriber that has got nothing yet.
  first_published :
      (s : Snapshot) (told : List Snapshot) (st : S)
      → sub.is_closed st ≡ false
      → sub.received st ≡ stream_of [] none
      → Observed [] (s ∷ told) (
          sub.received (
            let st' = publish sub s st in
            let rest = on_snapshots sub told st' in if sub.is_closed st' then st' else rest))
  first_published s told st o r =
      subst (λ t. Observed [] (s ∷ told) (sub.received t)) (sym (as_told s told st o))
        (on_snapshots-Observed (s ∷ told) [] st o r)

-- An observer of a lifecycle that it accepts, and that tells of any snapshots, gets these and no
-- others, the current one first: all of them if they are all coherent, or those before the first
-- that is not, and then the error. Nothing that is not coherent gets to it.
pub observe_source-Observed {ℓ} :
    {S : Type ℓ} (sub : Subscriber S) (view : LifecycleView) (told : List Snapshot) (st : S)
    → IsSubscriber sub
    → assert_lifecycle_view view ≡ ok view
    → sub.is_closed st ≡ false
    → sub.received st ≡ stream_of [] none
    → (st' : S) × (observe_source sub view told st ≡ ok st')
      × Observed [] (view.snapshot ∷ told) (sub.received st')
unfolding observe_source
observe_source-Observed sub view told st law a o r =
    (_, rw (a, observe_source) refl, first_published sub law view.snapshot told st o r)
