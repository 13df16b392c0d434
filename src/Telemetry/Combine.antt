-- ===== src/Telemetry/Combine.antt =====
-- `combineTelemetry` of sdk/src/telemetry.mjs: no sink hears less for what the others do.
use mathlib.Core.List.{append-nil, append_assoc}
use zed_sync.Prelude.{
  false, Option, none, some, List, [], ◌∷◌, ◌++◌, JsString, ◌≡◌, refl, ap, sym, ◌∙◌, All,
  if◌then◌else◌,
}
use zed_sync.Json.{Fields}
use zed_sync.Telemetry.{Heard, Sink, live_sinks, tell_each, combine_telemetry}

abbrev pub Event : Type 0
Event = JsString × Option Fields

-- A run of events; one that throws ends it.
unfoldable pub tell_all {ℓ} : {W : Type ℓ} → Sink W → List Event → W → Heard W
tell_all sink [] w = record { threw = false; after = w }
tell_all sink ((name, attributes) ∷ es) w =
    let h = sink name attributes w in
    let rest = tell_all sink es h.after in if h.threw then h else rest

-- A sink that leaves alone what another keeps, whether it throws or not.
abbrev pub Leaves {ℓ} : {W : Type ℓ} → (W → List Event) → Sink W → Type ℓ
Leaves {W = W} kept sink =
    (n : JsString) (a : Option Fields) (w : W) → kept (sink n a w).after ≡ kept w

-- A sink that keeps each event it is told.
abbrev pub Records {ℓ} : {W : Type ℓ} → (W → List Event) → Sink W → Type ℓ
Records {W = W} kept sink =
    (n : JsString) (a : Option Fields) (w : W) → kept (sink n a w).after ≡ kept w ++ (n, a) ∷ []

live_sinks-append {ℓ} :
    {W : Type ℓ} (xs ys : List (Option (Sink W)))
    → live_sinks (xs ++ ys) ≡ live_sinks xs ++ live_sinks ys
unfolding live_sinks
live_sinks-append [] ys = refl
live_sinks-append (none ∷ xs) ys = live_sinks-append xs ys
live_sinks-append (some x ∷ xs) ys = ap (λ r. x ∷ r) (live_sinks-append xs ys)

tell_each-append {ℓ} :
    {W : Type ℓ} (xs ys : List (Sink W)) (n : JsString) (a : Option Fields) (w : W)
    → tell_each (xs ++ ys) n a w ≡ tell_each ys n a (tell_each xs n a w).after
unfolding tell_each
tell_each-append [] ys n a w = refl
tell_each-append (x ∷ xs) ys n a w = tell_each-append xs ys n a (x n a w).after

tell_each-threw {ℓ} :
    {W : Type ℓ} (xs : List (Sink W)) (n : JsString) (a : Option Fields) (w : W)
    → (tell_each xs n a w).threw ≡ false
unfolding tell_each
tell_each-threw [] n a w = refl
tell_each-threw (x ∷ xs) n a w = tell_each-threw xs n a (x n a w).after

tell_each-Leaves {ℓ} :
    {W : Type ℓ} (kept : W → List Event) (xs : List (Sink W))
    → All (Leaves kept) xs
    → Leaves kept (tell_each xs)
unfolding tell_each
tell_each-Leaves kept [] h n a w = refl
tell_each-Leaves kept (x ∷ xs) (hx, hs) n a w =
    tell_each-Leaves kept xs hs n a (x n a w).after ∙ hx n a w

-- A combination that is itself a sink of another combination tells its sinks as if they stood there.
pub combine_telemetry-nested {ℓ} :
    {W : Type ℓ} (pre inner post : List (Option (Sink W))) (n : JsString) (a : Option Fields)
    (w : W)
    → combine_telemetry (pre ++ some (combine_telemetry inner) ∷ post) n a w
      ≡ combine_telemetry (pre ++ (inner ++ post)) n a w
unfolding combine_telemetry live_sinks tell_each
combine_telemetry-nested pre inner post n a w =
    rw
      (
        live_sinks-append pre (some (combine_telemetry inner) ∷ post),
        live_sinks-append pre (inner ++ post),
        live_sinks-append inner post,
        tell_each-append (live_sinks pre) (tell_each (live_sinks inner) ∷ live_sinks post) n a w,
        tell_each-append (live_sinks pre) (live_sinks inner ++ live_sinks post) n a w,
        tell_each-append (live_sinks inner) (live_sinks post) n a
            (tell_each (live_sinks pre) n a w).after,
      )
      refl

combine_telemetry-Records {ℓ} :
    {W : Type ℓ} (kept : W → List Event) (pre post : List (Option (Sink W))) (sink : Sink W)
    → Records kept sink
    → All (Leaves kept) (live_sinks pre)
    → All (Leaves kept) (live_sinks post)
    → Records kept (combine_telemetry (pre ++ some sink ∷ post))
unfolding combine_telemetry live_sinks tell_each
combine_telemetry-Records kept pre post sink r hp hq n a w =
    let w' = (tell_each (live_sinks pre) n a w).after in
    ap (λ ss. kept (tell_each ss n a w).after) (live_sinks-append pre (some sink ∷ post))
    ∙ (ap (λ (h : Heard _). kept h.after)
          (tell_each-append (live_sinks pre) (sink ∷ live_sinks post) n a w)
        ∙ (tell_each-Leaves kept (live_sinks post) hq n a (sink n a w').after
            ∙ (r n a w'
                ∙ ap (λ es. es ++ (n, a) ∷ []) (tell_each-Leaves kept (live_sinks pre) hp n a w))))

combine_telemetry-threw {ℓ} :
    {W : Type ℓ} (sinks : List (Option (Sink W))) (n : JsString) (a : Option Fields) (w : W)
    → (combine_telemetry sinks n a w).threw ≡ false
unfolding combine_telemetry
combine_telemetry-threw sinks n a w = tell_each-threw (live_sinks sinks) n a w

-- A combination never throws, and each of its sinks hears every event, once and in order, whatever
-- the sinks before and after it do, also if any of them throws, as long as they leave alone what
-- it keeps.
pub combined_sink_hears_all {ℓ} :
    {W : Type ℓ} (kept : W → List Event) (pre post : List (Option (Sink W))) (sink : Sink W)
    (es : List Event) (w : W)
    → Records kept sink
    → All (Leaves kept) (live_sinks pre)
    → All (Leaves kept) (live_sinks post)
    → ((tell_all (combine_telemetry (pre ++ some sink ∷ post)) es w).threw ≡ false)
      × (kept (tell_all (combine_telemetry (pre ++ some sink ∷ post)) es w).after ≡ kept w ++ es)
unfolding tell_all
combined_sink_hears_all kept pre post sink [] w r hp hq = (refl, sym (append-nil (kept w)))
combined_sink_hears_all kept pre post sink ((n, a) ∷ es) w r hp hq =
    let c = combine_telemetry (pre ++ some sink ∷ post) in
    let w' = (c n a w).after in
    let (t, k) = combined_sink_hears_all kept pre post sink es w' r hp hq in
    rw (combine_telemetry-threw (pre ++ some sink ∷ post) n a w) (
      t,
      k
          ∙ (ap (λ ks. ks ++ es) (combine_telemetry-Records kept pre post sink r hp hq n a w)
              ∙ append_assoc (kept w) ((n, a) ∷ []) es),
    )
