-- ===== src/Session/Ends.antt =====
-- How a session of sdk/src/start.mjs ends.
use zed_sync.Prelude.{
  ℕ, ◌+◌, ◌<◌, ◌≤◌, Bool, true, false, if◌then◌else◌, Option, some, List, [], ◌∷◌, ◌≡◌, ◌⊎◌, inr,
  ◌∙◌, refl, arith,
}
use zed_sync.Json.{Value}
use zed_sync.Result.{Result, ok, err}
use zed_sync.Lifecycle.{
  Snapshot, LifecycleEvent, integer, connectivity_changed, stop_succeeded, max_safe_integer,
  applied, initial_snapshot, stop_requested, reconcile_requested,
}
use zed_sync.Lifecycle.Capabilities.{is_active, is_failed}
use zed_sync.Lifecycle.Dispatch.{plan}
use zed_sync.Lifecycle.Coherent.{IsCoherent, dispatch-plan, plan-IsCoherent}
use zed_sync.Lifecycle.Tokens.{
  IsOvertaken, plan_overtaken, Carries, carries_connectivity, carries_runtime_failed,
}
use zed_sync.Session.{
  token_of, Transport, backend, supabase, Effects, stop_each, stop_all, release_lease, revoke,
  Session, send_event, notify, set_online, report_transport, stop_transports, lease_lost, Stopping,
  under_way, after_stop_event, begin_stop_session, finish_stop_session,
}

-- What may be called while `stop` awaits the release of the lease.
pub data Callback : Type 0 where
  status : Transport → Bool → Callback
  lost : Callback

unfoldable pub call : Callback → Session → Result Session
unfolding report_transport lease_lost
call (status t online) s = report_transport t online s
call lost s = lease_lost s

unfoldable pub calls : List Callback → Session → Result Session
unfolding call
calls [] s = ok s
calls (k ∷ ks) s = elim (call k s) [ ok s' ↦ calls ks s' | err x ↦ err x ]

-- A callback that belongs to an overtaken operation is heard by no one.
notify_overtaken :
    (t : ℕ) (e : LifecycleEvent) (s : Session)
    → IsCoherent s.machine
    → IsOvertaken t s.machine
    → Carries t e
    → notify e s ≡ ok s
unfolding notify send_event
notify_overtaken t e s c o k =
    rw (dispatch-plan s.machine e c, plan_overtaken t s.machine c o k, notify, send_event) refl

-- Nothing runs, and a grant that is still held is that of the lease that is to be released.
pub record IsQuiet (x : Effects) : Type 0 where
  pub stoppers : x.stoppers ≡ []
  pub backend_runs : x.backend_runs ≡ false
  pub supabase_runs : x.supabase_runs ≡ false
  pub lease : (x.has_lease ≡ true) ⊎ (x.lease_held ≡ false)

-- No stop function is left, no transport runs, and the lease is not held.
abbrev pub IsReleased : Effects → Type 0
IsReleased x =
    (x.stoppers ≡ [])
    × (x.backend_runs ≡ false)
    × (x.supabase_runs ≡ false)
    × (x.lease_held ≡ false)

IsQuiet-revoke : (x : Effects) → IsQuiet x → IsQuiet (revoke x)
unfolding revoke stop_all stop_each
IsQuiet-revoke x q = record {
  stoppers = rw (q.stoppers) refl;
  backend_runs = rw (q.stoppers) q.backend_runs;
  supabase_runs = rw (q.stoppers) q.supabase_runs;
  lease = inr refl;
}

IsReleased-release_lease : (x : Effects) → IsQuiet x → IsReleased (release_lease x)
unfolding release_lease
IsReleased-release_lease x q =
    let a = q.stoppers in
    let b = q.backend_runs in let c = q.supabase_runs in let l = q.lease in ground arith

-- The machine and the token, which the callbacks leave alone, and the quiet.
pub record IsSettled (s s' : Session) : Type 0 where
  pub machine : s'.machine ≡ s.machine
  pub token : s'.session_token ≡ s.session_token
  pub quiet : IsQuiet s'.effects

connectivity_own :
    (t : ℕ) (x : Option ℕ) (v : Value)
    → x ≡ some t
    → Carries t (connectivity_changed (token_of x) v)
connectivity_own t x v h = rw h (carries_connectivity v)

call-IsSettled :
    (t : ℕ) (k : Callback) (s : Session)
    → IsCoherent s.machine
    → IsOvertaken t s.machine
    → s.session_token ≡ some t
    → IsQuiet s.effects
    → (s' : Session) × (call k s ≡ ok s') × IsSettled s s'
unfolding call report_transport set_online lease_lost
call-IsSettled t (status backend on) s c o h n =
    let x = set_online backend on s in
    (
      x,
      notify_overtaken t _ x c o (connectivity_own t s.session_token _ h),
      record { machine = refl; token = refl; quiet = n },
    )
call-IsSettled t (status supabase on) s c o h n =
    let x = set_online supabase on s in
    (
      x,
      notify_overtaken t _ x c o (connectivity_own t s.session_token _ h),
      record { machine = refl; token = refl; quiet = n },
    )
call-IsSettled t lost s c o h n =
    let x : Session = record s { effects = revoke s.effects } in
    (
      x,
      notify_overtaken t _ x c o (rw h carries_runtime_failed),
      record { machine = refl; token = refl; quiet = IsQuiet-revoke s.effects n },
    )

calls-IsSettled :
    (t : ℕ) (ks : List Callback) (s : Session)
    → IsCoherent s.machine
    → IsOvertaken t s.machine
    → s.session_token ≡ some t
    → IsQuiet s.effects
    → (s' : Session) × (calls ks s ≡ ok s') × IsSettled s s'
unfolding calls
calls-IsSettled t [] s c o h n = (s, refl, record { machine = refl; token = refl; quiet = n })
calls-IsSettled t (k ∷ ks) s c o h n =
    let (x, e, z) = call-IsSettled t k s c o h n in
    let (y, e', z') =
      calls-IsSettled t ks x (rw (z.machine) c) (rw (z.machine) o) (z.token ∙ h) z.quiet in
    (
      y,
      rw (e, calls) e',
      record { machine = z'.machine ∙ z.machine; token = z'.token ∙ z.token; quiet = z'.quiet },
    )

-- The plan of the event that `stop` dispatches.
stop_event : Snapshot → LifecycleEvent
stop_event m = if is_failed m.phase then reconcile_requested else stop_requested

stop_planned :
    (m : Snapshot)
    → m.generation < max_safe_integer
    → (is_active m.phase ≡ true) ⊎ (is_failed m.phase ≡ true)
    → ((plan m (stop_event m)).1 ≡ applied)
      × ((plan m (stop_event m)).0.active_token ≡ some (m.generation + 1))
      × ((plan m (stop_event m)).0.generation ≡ m.generation + 1)
      × ((plan (plan m (stop_event m)).0 (stop_succeeded (integer (m.generation + 1)))).0
          ≡ initial_snapshot (m.generation + 1))
unfolding plan stop_event
stop_planned m room h = ground arith

-- `stop` to the end, with what its callbacks do in between.
unfoldable pub stop_with : List Callback → Session → Result (Stopping × Session)
unfolding begin_stop_session finish_stop_session calls
stop_with ks s = elim (begin_stop_session s) [
  | err x ↦ err x
  | ok (under_way t, s1) ↦ elim (calls ks s1) [
    | err x ↦ err x
    | ok s2 ↦ elim (finish_stop_session t s2) [ err x ↦ err x | ok s3 ↦ ok (under_way t, s3) ]
  ]
  | ok (answer, s1) ↦ ok (answer, s1)
]

module _ (s : Session) (c : IsCoherent s.machine) (room : s.machine.generation < max_safe_integer)
    (live : (is_active s.machine.phase ≡ true) ⊎ (is_failed s.machine.phase ≡ true))
    (quiet : IsQuiet (stop_all s.effects)) where
  abbrev closing : Session
  closing = record s {
    machine = (plan s.machine (stop_event s.machine)).0;
    effects = stop_all s.effects;
    is_stopping = true;
  }

  begin_closing :
      s.is_stopping ≡ false
      → begin_stop_session s ≡ ok (under_way (some (s.machine.generation + 1)), closing)
  unfolding begin_stop_session send_event after_stop_event stop_transports stop_event
  begin_closing f =
      let (a, k, g, i) = stop_planned s.machine room live in
      rw (f, dispatch-plan s.machine (stop_event s.machine) c, a, k, begin_stop_session, send_event)
        refl

  finish_closing :
      (s2 : Session)
      → IsSettled closing s2
      → finish_stop_session (some (s.machine.generation + 1)) s2
        ≡ ok (record s2 {
          machine = initial_snapshot (s.machine.generation + 1);
          effects = release_lease s2.effects;
        })
  unfolding finish_stop_session notify send_event
  finish_closing s2 z =
      let (a, k, g, i) = stop_planned s.machine room live in
      let e = stop_succeeded (integer (s.machine.generation + 1)) in
      let d =
        dispatch-plan (plan s.machine (stop_event s.machine)).0 e
          (plan-IsCoherent s.machine (stop_event s.machine) c) in
      rw (z.machine, d, i, finish_stop_session, notify, send_event) refl

  -- `stop` of a coherent session that is starting, running or failed, with a token that was
  -- allocated, a generation left and not being stopped already, whose stop functions stop all that
  -- runs, ends "stopped" with no transport running and the lease given back, whatever transports
  -- report, and also if the lease is lost, while it waits.
  pub stop_session_ends :
      (ks : List Callback) (t : ℕ)
      → s.is_stopping ≡ false
      → s.session_token ≡ some t
      → (0 < t) × (t ≤ s.machine.generation)
      → (s' : Session) × (stop_with ks s ≡ ok (under_way (some (s.machine.generation + 1)), s'))
        × (s'.machine ≡ initial_snapshot (s.machine.generation + 1))
        × IsReleased s'.effects
  unfolding stop_with
  stop_session_ends ks t f h b =
      let (a, k, g, i) = stop_planned s.machine room live in
      let over : IsOvertaken t closing.machine =
        (b.0, omega (arith, g, b.1), λ e. ground (arith, k, e, b.1)) in
      let (s2, e, z) =
        calls-IsSettled t ks closing (plan-IsCoherent s.machine (stop_event s.machine) c) over h
          quiet in
      (
        record s2 {
          machine = initial_snapshot (s.machine.generation + 1);
          effects = release_lease s2.effects;
        },
        rw (begin_closing f, e, finish_closing s2 z, stop_with) refl,
        refl,
        IsReleased-release_lease s2.effects z.quiet,
      )
