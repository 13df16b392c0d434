-- ===== src/Lease/Beats.antt =====
-- The heartbeat of `SyncLease` of sdk/src/lease.mjs, under any interleaving of its awaits.
use zed_sync.Prelude.{
  ℕ, All, Option-cases, Bool-cases, sym, subst, ap, ◌∙◌, if◌then◌else◌, ◌+◌, ◌≤◌, ◌<◌, true, false,
  Option, none, some, List, [], ◌∷◌, JsString, ◌≡◌, ◌≢◌, ◌⊎◌, inl, inr, refl, arith,
}
use zed_sync.Lease.{
  Lease, Handle, RenewAct, gives_back, asks_again, renew_act, renew_acts, retry_delay, adopt_handle,
  release, owns, beat_renewed, beat_failed, count_failure, gives_up, mark_lost, schedule,
}
use zed_sync.Lease.Acquire.{Waited, acquired, begin_acquire, end_acquire, end_try, adopt_waited}

-- What can happen to a lease, in any order: each is the code between two awaits.
pub data LeaseEvent : Type 0 where
  asked : LeaseEvent
  answered : Waited → LeaseEvent
  tried : Option Handle → LeaseEvent
  released : LeaseEvent
  renewed : Handle → LeaseEvent
  renew_failed : Handle → JsString → List RenewAct → ℕ → LeaseEvent

unfoldable pub lease_step : LeaseEvent → Lease → Lease
unfolding begin_acquire end_acquire end_try release beat_renewed beat_failed
lease_step asked l = (begin_acquire l).1
lease_step (answered w) l = end_acquire w l
lease_step (tried h) l = (end_try h l).1
lease_step released l = release l
lease_step (renewed h) l = beat_renewed h l
lease_step (renew_failed h message acts now) l = beat_failed h message acts now l

unfoldable pub lease_run : List LeaseEvent → Lease → Lease
unfolding lease_step
lease_run [] l = l
lease_run (e ∷ es) l = lease_run es (lease_step e l)

-- No timer without a grant, none missing with one, and fewer failures than the limit on a grant
-- that has failed.
abbrev pub IsSound : Lease → Type 0
IsSound l = elim l.handle as (λ _. Type 0) [
  | none ↦ l.timer ≡ none
  | some h ↦ (l.timer ≢ none) × ((l.failures ≡ 0) ⊎ (l.failures < l.renew_failure_limit))
]

IsSound-answered : (w : Waited) (l : Lease) → IsSound l → IsSound (end_acquire w l)
unfolding end_acquire adopt_waited adopt_handle schedule
IsSound-answered (acquired h) l s = (λ e. cc, inl refl)
IsSound-answered _ l s = s

IsSound-tried : (h : Option Handle) (l : Lease) → IsSound l → IsSound (end_try h l).1
unfolding end_try adopt_handle schedule
IsSound-tried none l s = s
IsSound-tried (some h) l s = (λ e. cc, inl refl)

IsSound-asked : (l : Lease) → IsSound l → IsSound (begin_acquire l).1
unfolding begin_acquire
IsSound-asked l s = ground arith

IsSound-renewed : (h : Handle) (l : Lease) → IsSound l → IsSound (beat_renewed h l)
unfolding beat_renewed owns schedule
IsSound-renewed h l s = ground arith

-- A callback that does not give the grant back leaves a lease with its grant as it is.
abbrev pub IsKeeping : List RenewAct → Type 0
IsKeeping acts = All (λ a. a ≡ asks_again) acts

renew_acts-IsKeeping :
    (acts : List RenewAct) (l : Lease) (h : Handle)
    → IsKeeping acts
    → l.handle ≡ some h
    → renew_acts acts l ≡ l
unfolding renew_acts renew_act
renew_acts-IsKeeping [] l h k e = refl
renew_acts-IsKeeping (a ∷ acts) l h (k, ks) e =
    ground (arith, k, e, renew_acts-IsKeeping acts l h ks e)

-- The failure of a renewal as it is without the callback.
abbrev pub settle_failure : JsString → ℕ → Lease → Lease
settle_failure m now l = if gives_up m now l then mark_lost l else schedule (retry_delay l) l

pub beat_failed-settle :
    (h k : Handle) (m : JsString) (acts : List RenewAct) (now : ℕ) (l : Lease)
    → IsKeeping acts
    → l.handle ≡ some k
    → beat_failed h m acts now l ≡ (if owns l h then settle_failure m now (count_failure l) else l)
unfolding beat_failed count_failure
beat_failed-settle h k m acts now l q e =
    ground (arith, renew_acts-IsKeeping acts (count_failure l) k q e)

IsSound-settled :
    (m : JsString) (now : ℕ) (l : Lease) (k : Handle)
    → l.handle ≡ some k
    → IsSound (settle_failure m now (count_failure l))
unfolding count_failure gives_up mark_lost schedule
IsSound-settled m now l k e = ground arith

IsSound-failed :
    (h : Handle) (m : JsString) (acts : List RenewAct) (now : ℕ) (l : Lease)
    → IsKeeping acts
    → IsSound l
    → IsSound (beat_failed h m acts now l)
unfolding beat_failed owns
IsSound-failed h m acts now l q s = elim (Option-cases l.handle) [
  | inl e ↦ ground (arith, e)
  | inr (k, e) ↦
      let x = beat_failed-settle h k m acts now l q e in
      let y = IsSound-settled m now l k e in
      elim (Bool-cases (owns l h)) [
        | inl o ↦
            subst IsSound
              (sym (x ∙ ap (λ b. if b then settle_failure m now (count_failure l) else l) o)) y
        | inr o ↦
            subst IsSound
              (sym (x ∙ ap (λ b. if b then settle_failure m now (count_failure l) else l) o)) s
      ]
]

-- What happens while no callback gives the grant back.
abbrev pub IsTame : LeaseEvent → Type 0
IsTame (renew_failed h m acts now) = IsKeeping acts
IsTame _ = Unit

IsSound-step : (e : LeaseEvent) (l : Lease) → IsTame e → IsSound l → IsSound (lease_step e l)
unfolding lease_step release
IsSound-step asked l t s = IsSound-asked l s
IsSound-step (answered w) l t s = IsSound-answered w l s
IsSound-step (tried h) l t s = IsSound-tried h l s
IsSound-step released l t s = refl
IsSound-step (renewed h) l t s = IsSound-renewed h l s
IsSound-step (renew_failed h m acts now) l t s = IsSound-failed h m acts now l t s

-- In every order of acquisitions, releases and outcomes of renewals, starting from a lease that is
-- so, and while no callback `onRenewError` releases the lease, a lease that has lost or given back
-- its grant has no timer left, and one that holds a grant has a timer and has failed fewer times in
-- a row than the limit, or not at all.
pub lease_run-IsSound :
    (es : List LeaseEvent) (l : Lease) → All IsTame es → IsSound l → IsSound (lease_run es l)
unfolding lease_run
lease_run-IsSound [] l t s = s
lease_run-IsSound (e ∷ es) l (t, ts) s =
    lease_run-IsSound es (lease_step e l) ts (IsSound-step e l t s)

-- The outcome of a renewal that was under way when its grant was given back, lost or replaced
-- changes nothing: no timer is set for it and no callback is called.
pub overtaken_beat_ignored :
    (l : Lease) (h : Handle) (message : JsString) (acts : List RenewAct) (now : ℕ)
    → owns l h ≡ false
    → (beat_renewed h l ≡ l) × (beat_failed h message acts now l ≡ l)
unfolding beat_renewed beat_failed
overtaken_beat_ignored l h message acts now o = ground arith

-- The grants among the events.
unfoldable pub grants_of : List LeaseEvent → ℕ
grants_of [] = 0
grants_of (answered (acquired h) ∷ es) = grants_of es + 1
grants_of (tried (some h) ∷ es) = grants_of es + 1
grants_of (e ∷ es) = grants_of es

abbrev pub owed : Lease → ℕ
owed l = elim l.handle [ none ↦ l.lost_calls | some h ↦ l.lost_calls + 1 ]

owed-renew_acts : (acts : List RenewAct) (l : Lease) → owed (renew_acts acts l) ≤ owed l
unfolding renew_acts renew_act release
owed-renew_acts [] l = omega arith
owed-renew_acts (gives_back ∷ acts) l = ground (arith, owed-renew_acts acts (release l))
owed-renew_acts (asks_again ∷ acts) l =
    ground (arith, owed-renew_acts acts l, owed-renew_acts acts (record l { acquiring = true }))

owed-settle_failure : (m : JsString) (now : ℕ) (l : Lease) → owed (settle_failure m now l) ≤ owed l
unfolding mark_lost schedule
owed-settle_failure m now l = ground arith

owed-beat_failed :
    (h : Handle) (m : JsString) (acts : List RenewAct) (now : ℕ) (l : Lease)
    → owed (beat_failed h m acts now l) ≤ owed l
unfolding beat_failed count_failure
owed-beat_failed h m acts now l = ground (
  arith,
  owed-settle_failure m now (renew_acts acts (count_failure l)),
  owed-renew_acts acts (count_failure l),
)

owed-step :
    (e : LeaseEvent) (es : List LeaseEvent) (l : Lease)
    → owed (lease_step e l) + grants_of es ≤ owed l + grants_of (e ∷ es)
unfolding lease_step grants_of end_acquire adopt_waited end_try adopt_handle begin_acquire release
    beat_renewed schedule
owed-step (renew_failed h m acts now) es l = omega (arith, owed-beat_failed h m acts now l)
owed-step asked es l = ground arith
owed-step (answered w) es l = ground arith
owed-step (tried h) es l = ground arith
owed-step released es l = ground arith
owed-step (renewed h) es l = ground arith

lost_calls-owed : (l : Lease) → l.lost_calls ≤ owed l
lost_calls-owed l = ground arith

owed-run : (es : List LeaseEvent) (l : Lease) → owed (lease_run es l) ≤ owed l + grants_of es
unfolding lease_run grants_of
owed-run [] l = omega arith
owed-run (e ∷ es) l =
    let a = owed-run es (lease_step e l) in let b = owed-step e es l in omega arith

-- `onLost` is called at most once for each grant: in every order of events, not more often than
-- before, one for a grant that is held at the start, and one for each grant since.
pub lost_once :
    (es : List LeaseEvent) (l : Lease)
    → (lease_run es l).lost_calls
      ≤ (elim l.handle as (λ _. ℕ) [ none ↦ l.lost_calls | some h ↦ l.lost_calls + 1 ])
        + grants_of es
lost_once es l = let a = owed-run es l in let b = lost_calls-owed (lease_run es l) in omega arith
