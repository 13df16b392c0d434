-- ===== src/Lease/Scoped.antt =====
-- `withSyncLease` of sdk/src/lease.mjs.
use zed_sync.Prelude.{
  ℕ, subst, sym, ◌*◌, ◌≤◌, length, Option, none, some, List, [], ◌∷◌, JsString, ◌≡◌, ◌≢◌, refl,
  arith,
}
use zed_sync.Result.{Result, ok, err, JsError}
use zed_sync.Lease.{
  Lease, Handle, RenewAct, new_lease, release, retry_floor_ms, beat_renewed, beat_failed, owns,
  stop_heartbeat, adopt_handle, schedule,
}
use zed_sync.Lease.Acquire.{
  Ask, Waited, acquired, lease_timeout, threw, still_waiting, wait_for_lease, begin_acquire,
  end_acquire, adopt_waited,
}
use zed_sync.Lease.Beats.{LeaseEvent, renewed, renew_failed, lease_run, lease_step}
use zed_sync.Lease.Wait.{wait_for_lease_ends}

-- `ConstructorParameters<typeof SyncLease>[0] & { maxWaitMs? }`
pub record ScopeOptions : Type 0 where
  pub key : JsString
  pub ttl_ms : Option ℕ
  pub renew_interval_ms : Option ℕ
  pub renew_failure_limit : Option ℕ
  pub max_wait_ms : Option ℕ

-- How the call ends. `ran` has the outcome of `fn`, the grant that was given back, and the lease.
pub data Scope {ℓ} (A : Type ℓ) : Type ℓ where
  bad_options : JsError → Scope A
  never_acquired : Waited → Scope A
  ran : Result A → Option Handle → Lease → Scope A

-- The `try` and its `finally`: `fn` returns or throws, after what happened to the lease meanwhile.
unfoldable pub use_lease {ℓ} : {A : Type ℓ} → (Lease → Result A × List LeaseEvent) → Lease → Scope A
unfolding release
use_lease fn l = let done = fn l in let l' = lease_run done.1 l in ran done.0 l'.handle (release l')

unfoldable pub acquire_and_use {ℓ} :
    {A : Type ℓ} → Waited → (Lease → Result A × List LeaseEvent) → Lease → Scope A
unfolding begin_acquire end_acquire use_lease
acquire_and_use (acquired h) fn l = use_lease fn (end_acquire (acquired h) (begin_acquire l).1)
acquire_and_use w fn l = never_acquired w

-- The body, on what the constructor gave and on how the wait of `acquire` ends.
unfoldable pub with_lease {ℓ} :
    {A : Type ℓ} → Result Lease → Waited → (Lease → Result A × List LeaseEvent) → Scope A
unfolding acquire_and_use
with_lease (err e) w fn = bad_options e
with_lease (ok l) w fn = acquire_and_use w fn l

unfoldable pub with_sync_lease {ℓ} :
    {A : Type ℓ}
    → ScopeOptions
    → (started : ℕ) → List Ask
    → (Lease → Result A × List LeaseEvent)
    → Scope A
unfolding with_lease
with_sync_lease opts started asks fn =
    with_lease (new_lease opts.key opts.ttl_ms opts.renew_interval_ms opts.renew_failure_limit)
      (wait_for_lease opts.max_wait_ms started asks) fn

-- An outcome of a renewal that comes back late.
pub data LateBeat : Type 0 where
  late_renewed : Handle → LateBeat
  late_failure : Handle → JsString → List RenewAct → ℕ → LateBeat

abbrev pub late_beats : List LateBeat → List LeaseEvent
late_beats [] = []
late_beats (late_renewed h ∷ bs) = renewed h ∷ late_beats bs
late_beats (late_failure h m acts now ∷ bs) = renew_failed h m acts now ∷ late_beats bs

late_beats_ignored :
    (bs : List LateBeat) (l : Lease) → l.handle ≡ none → lease_run (late_beats bs) l ≡ l
unfolding lease_run lease_step beat_renewed beat_failed owns
late_beats_ignored [] l n = refl
late_beats_ignored (late_renewed h ∷ bs) l n = ground (arith, late_beats_ignored bs l n)
late_beats_ignored (late_failure h m acts now ∷ bs) l n = ground (arith, late_beats_ignored bs l n)

-- What a scope that is over leaves, renewals that come back late included, for what the
-- constructor gave and for how the wait ended.
pub data LetsGo {ℓ} {A : Type ℓ} (made : Result Lease) (w : Waited)
    (fn : Lease → Result A × List LeaseEvent) (bs : List LateBeat) : Scope A → Type ℓ where
  refused_options : (e : JsError) → made ≡ err e → LetsGo made w fn bs (bad_options e)
  timed_out : (t : ℕ) → w ≡ lease_timeout t → LetsGo made w fn bs (never_acquired w)
  lock_threw : (e : JsError) → w ≡ threw e → LetsGo made w fn bs (never_acquired w)
  let_go :
      (h : Handle) (l l' : Lease)
      → w ≡ acquired h
      → l.handle ≡ some h
      → l'.handle ≡ none
      → l'.timer ≡ none
      → lease_run (late_beats bs) l' ≡ l'
      → LetsGo made w fn bs (ran (fn l).0 (lease_run (fn l).1 l).handle l')

module _ {ℓ} {A : Type ℓ} (fn : Lease → Result A × List LeaseEvent) (bs : List LateBeat) where
  use_lease-LetsGo :
      (made : Result Lease) (h : Handle) (l : Lease)
      → l.handle ≡ some h
      → LetsGo made (acquired h) fn bs (use_lease fn l)
  unfolding use_lease release stop_heartbeat
  use_lease-LetsGo made h l e =
      let l' = release (lease_run (fn l).1 l) in
      let_go h l l' refl e refl refl (late_beats_ignored bs l' refl)

  acquire_and_use-LetsGo :
      (made : Result Lease) (w : Waited) (l : Lease)
      → w ≢ still_waiting
      → LetsGo made w fn bs (acquire_and_use w fn l)
  unfolding acquire_and_use end_acquire adopt_waited adopt_handle schedule
  acquire_and_use-LetsGo made (acquired h) l n =
      use_lease-LetsGo made h (end_acquire (acquired h) (begin_acquire l).1) refl
  acquire_and_use-LetsGo made (lease_timeout t) l n = timed_out t refl
  acquire_and_use-LetsGo made (threw e) l n = lock_threw e refl
  acquire_and_use-LetsGo made still_waiting l n = absurd (n refl)

  with_lease-LetsGo :
      (made : Result Lease) (w : Waited)
      → w ≢ still_waiting
      → LetsGo made w fn bs (with_lease made w fn)
  unfolding with_lease
  with_lease-LetsGo (err e) w n = refused_options e refl
  with_lease-LetsGo (ok l) w n = acquire_and_use-LetsGo (ok l) w l n

-- What the constructor gives for the options.
abbrev pub made_of : ScopeOptions → Result Lease
made_of opts = new_lease opts.key opts.ttl_ms opts.renew_interval_ms opts.renew_failure_limit

-- `withSyncLease` with a wait limit ends, given as many answers of the lock client as there are
-- retry floors in the limit. It throws before `fn` runs just where the options are refused, the
-- wait timed out or the lock client threw. Where the lock was granted, `fn` runs with that grant
-- held, it ends as `fn` does, and it gives back the grant that the lease has then. Whether `fn`
-- returns or throws and whatever became of the lease meanwhile, the lease is left with no grant and
-- no timer, and renewals that come back later leave it so.
pub with_sync_lease-LetsGo {ℓ} :
    {A : Type ℓ} (opts : ScopeOptions) (max started : ℕ) (asks : List Ask)
    (fn : Lease → Result A × List LeaseEvent) (bs : List LateBeat)
    → opts.max_wait_ms ≡ some max
    → max ≤ length asks * retry_floor_ms
    → LetsGo
        (made_of opts)
        (wait_for_lease opts.max_wait_ms started asks)
        fn
        bs
        (with_sync_lease opts started asks fn)
unfolding with_sync_lease
with_sync_lease-LetsGo opts max started asks fn bs e h =
    with_lease-LetsGo fn bs (made_of opts) (wait_for_lease opts.max_wait_ms started asks) (
      subst (λ m. wait_for_lease m started asks ≢ still_waiting) (sym e)
        (wait_for_lease_ends max started asks h))
