-- ===== src/Session/Startup/Settles.antt =====
-- How `startSync` of sdk/src/start.mjs ends.
use zed_sync.Prelude.{
  Bool, true, false, List, ◌&&◌, Option, none, some, ◌≡◌, inl, inr, ◌∙◌, ap, sym, Bool-cases, refl,
  arith,
}
use zed_sync.Json.{boolean}
use zed_sync.Result.{JsError, ok}
use zed_sync.Lifecycle.{
  integer, start_failed, start_requested, initial_snapshot, assert_app_lifecycle_invariant,
}
use zed_sync.Lifecycle.Capabilities.{is_failed, app_capabilities}
use zed_sync.Lifecycle.Dispatch.{plan, dispatch}
use zed_sync.Lifecycle.Coherent.{plan-IsCoherent}
use zed_sync.Session.{
  token_of, Effects, Session, send_event, notify, begin_session, abandon_startup, fail_startup,
}
use zed_sync.Session.Startup.{
  StartOptions, Environment, attempt_part, go_on, make_parts, take_lease, start_transport, launch,
  backend_launch, set_lease, run_transport, hold_lease, push_stopper, gather, Started, resolved,
  rejected, not_allocated, flush_inherited, complete_startup, reject_startup, after_gathering,
  start_session,
}
use zed_sync.Session.Ends.{Callback, calls}
use zed_sync.Session.Startup.Wiring.{
  started_session, wired, IsClean, first_thrown, gather-first_thrown, leaves_channel, gather-wired,
  gather-abandoned, wired-revoke, IsClean-revoke,
}
use zed_sync.Session.Startup.Alive.{
  failed_ignores, IsFirst, IsAlive, notify_planned, up_failed, calls-IsAlive, finish-IsAlive,
}

started-IsFirst : IsFirst (plan (initial_snapshot 0) start_requested).0
unfolding plan assert_app_lifecycle_invariant initial_snapshot
started-IsFirst = (refl, refl)

begin_session-started : begin_session ≡ ok (some started_session)
unfolding begin_session send_event plan assert_app_lifecycle_invariant initial_snapshot dispatch
begin_session-started = refl

-- The machine and the token are as they were.
abbrev SameMachine : Session → Session → Type 0
SameMachine s s' =
    (s'.machine ≡ s.machine)
    × (s'.session_token ≡ s.session_token)
    × (s'.is_stopping ≡ s.is_stopping)

attempt_part-SameMachine :
    (x : Option JsError) (f : Session → Session) (s : Session)
    → SameMachine s (f s)
    → SameMachine s (attempt_part x f s).1
unfolding attempt_part
attempt_part-SameMachine none f s h = h
attempt_part-SameMachine (some x) f s h = (refl, refl, refl)

gather-SameMachine :
    (o : StartOptions) (env : Environment) (s : Session) → SameMachine s (gather o env s).1
unfolding gather make_parts take_lease start_transport launch backend_launch attempt_part go_on
    set_lease hold_lease push_stopper run_transport
gather-SameMachine o env s = ground arith

-- What a session holds that is up.
abbrev pub IsWired : StartOptions → Effects → Type 0
IsWired o x = x ≡ wired o.has_lease o.has_backend o.has_supabase

-- How the startup settled: what it threw, if it threw, and what is left.
abbrev pub Settled : StartOptions → Environment → Started → Type 0
Settled o env r = elim r [
  | resolved s flushed ↦ (first_thrown o env ≡ none) × IsAlive (IsWired o) (IsClean false) false s
  | rejected x s ↦
      (first_thrown o env ≡ some x)
      × IsFirst s.machine
      × (is_failed s.machine.phase ≡ true)
      × IsClean (leaves_channel o env) s.effects
  | not_allocated ↦ ⊥
]

fail_startup-failed :
    (k : Bool) (s : Session)
    → IsAlive (IsClean k) (IsClean k) true s
    → (s' : Session) × (fail_startup s ≡ ok s')
      × IsFirst s'.machine
      × (is_failed s'.machine.phase ≡ true)
      × IsClean k s'.effects
unfolding fail_startup
fail_startup-failed k s h =
    let e = start_failed (integer 1) in
    let m = (plan s.machine e).0 in
    let (f, g, n) : (is_failed m.phase ≡ true) × (m.generation ≡ 1) × IsClean k s.effects =
      elim (h.state) [
        | inl (u, n) ↦ let (f, g) = up_failed s.machine h.first u in (f, g, n)
        | inr (f, n) ↦
            let (i, j, l, r) = failed_ignores s.machine h.first f (boolean true) in
            (rw r f, rw r (h.first.1), n)
      ] in
    (
      record s { machine = m },
      ap (λ t. notify (start_failed (token_of t)) s) h.token ∙ notify_planned e s h.first.0,
      (plan-IsCoherent s.machine e h.first.0, g),
      f,
      n,
    )

module _ (o : StartOptions) (env : Environment) where
  gathered-SameMachine : SameMachine started_session (gather o env started_session).1
  gathered-SameMachine = gather-SameMachine o env started_session

  gathered-IsAlive :
      (U D : Effects → Type 0)
      → U (gather o env started_session).1.effects
      → IsAlive U D true (gather o env started_session).1
  unfolding plan
  gathered-IsAlive U D u =
      let (m, t, k) = gathered-SameMachine in
      record { first = rw m started-IsFirst; token = t; unstopped = k; state = inl (rw m refl, u) }

  abandon-IsAlive :
      IsAlive
        (IsClean (leaves_channel o env))
        (IsClean (leaves_channel o env))
        true
        (abandon_startup (gather o env started_session).1)
  unfolding plan abandon_startup
  abandon-IsAlive =
      let (m, t, k) = gathered-SameMachine in
      record {
        first = rw m started-IsFirst;
        token = t;
        unstopped = k;
        state = inl (rw m refl, gather-abandoned o env);
      }

  reject_startup-Settled :
      (x : JsError)
      → first_thrown o env ≡ some x
      → (r : Started) × (reject_startup env x (gather o env started_session).1 ≡ ok r)
        × Settled o env r
  unfolding reject_startup
  reject_startup-Settled x t =
      let k = leaves_channel o env in
      let (s1, e1, h1) =
        calls-IsAlive (IsClean k) (IsClean k) (IsClean-revoke k) (IsClean-revoke k) true
          env.while_releasing (abandon_startup (gather o env started_session).1) abandon-IsAlive in
      let (s2, e2, f, p, n) = fail_startup-failed k s1 h1 in
      (rejected x s2, rw (e1, e2, reject_startup) refl, (t, f, p, n))

  calls-IsWired :
      (b : Bool) (ks : List Callback) (s : Session)
      → IsAlive (IsWired o) (IsClean false) b s
      → (s' : Session) × (calls ks s ≡ ok s') × IsAlive (IsWired o) (IsClean false) b s'
  calls-IsWired =
      calls-IsAlive (IsWired o) (IsClean false)
        (λ x w. rw w (wired-revoke o.has_lease o.has_backend o.has_supabase)) (IsClean-revoke false)

  flush_inherited-Settled :
      (s : Session)
      → first_thrown o env ≡ none
      → IsAlive (IsWired o) (IsClean false) false s
      → (r : Started) × (flush_inherited o env s ≡ ok r) × Settled o env r
  unfolding flush_inherited
  flush_inherited-Settled s t h =
      let (s1, e1, h1) = calls-IsWired false env.while_flushing s h in
      elim (Bool-cases (o.has_lease && (o.flush_on_acquire && o.has_backend))) [
        | inl p ↦ (
          resolved s1 (app_capabilities s.machine).can_write,
          rw (p, e1, flush_inherited) refl,
          (t, h1),
        )
        | inr p ↦ (resolved s false, rw (p, flush_inherited) refl, (t, h))
      ]

  complete_startup-Settled :
      first_thrown o env ≡ none
      → (r : Started) × (complete_startup o env (gather o env started_session).1 ≡ ok r)
        × Settled o env r
  unfolding complete_startup
  complete_startup-Settled t =
      let h = gathered-IsAlive (IsWired o) (IsClean false) (gather-wired o env t) in
      let (s1, e1, h1) =
        calls-IsWired true env.while_hydrating (gather o env started_session).1 h in
      let (s2, e2, h2) = finish-IsAlive (IsWired o) (IsClean false) s1 h1 in
      let (r, e3, z) = flush_inherited-Settled s2 t h2 in (r, rw (e1, e2, complete_startup) e3, z)

  after_gathering-Settled :
      (x : Option JsError)
      → first_thrown o env ≡ x
      → (r : Started) × (after_gathering o env (x, (gather o env started_session).1) ≡ ok r)
        × Settled o env r
  unfolding after_gathering
  after_gathering-Settled none t = complete_startup-Settled t
  after_gathering-Settled (some x) t = reject_startup-Settled x t

  -- `startSync` settles whatever its parts answer and whatever its transports and its lease call in
  -- between. If a part that its options ask for throws, it rejects with the first such error, and
  -- leaves the lifecycle "failed", the lease not held, no transport running and no stop function,
  -- but for one case: where it is `startSupabase` that threw with its channel made, that channel
  -- stays. If none throws, it resolves, and either the session is running, holds the lease if it has
  -- one, and exactly the transports that the options ask for run and are in `stoppers`; or its lease
  -- was lost and it is failed with no transport running.
  pub start_session-Settled : (r : Started) × (start_session o env ≡ ok r) × Settled o env r
  unfolding start_session
  start_session-Settled =
      let g = gather o env started_session in
      let (r, e, z) =
        after_gathering-Settled g.0 (sym (gather-first_thrown o env started_session)) in
      (r, rw (begin_session-started, start_session) e, z)
