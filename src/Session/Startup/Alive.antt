-- ===== src/Session/Startup/Alive.antt =====
-- The first session of sdk/src/start.mjs under the callbacks of its transports and its lease.
use zed_sync.Prelude.{
  Bool, true, false, ◌||◌, if◌then◌else◌, some, List, [], ◌∷◌, ◌≡◌, ◌⊎◌, inl, inr, ◌∙◌, ap, refl,
  arith,
}
use zed_sync.Json.{Value, boolean}
use zed_sync.Result.{ok}
use zed_sync.Lifecycle.{
  Snapshot, LifecycleEvent, AppPhase, integer, connectivity_changed, runtime_failed,
  start_succeeded, start_failed, assert_app_lifecycle_invariant,
}
use zed_sync.Lifecycle.Capabilities.{is_failed, is_starting, is_running}
use zed_sync.Lifecycle.Dispatch.{plan}
use zed_sync.Lifecycle.Coherent.{IsCoherent, dispatch-plan, plan-IsCoherent}
use zed_sync.Session.{
  token_of, Transport, backend, supabase, Session, send_event, notify, set_online, report_transport,
  Effects, revoke, lease_lost, finish_startup,
}
use zed_sync.Session.Ends.{Callback, status, lost, call, calls}

-- The phases of a session that is up: those before its startup succeeded, or those after.
abbrev pub IsUp : Bool → AppPhase → Type 0
IsUp starting phase = (if starting then is_starting phase else is_running phase) ≡ true

-- The first operation's machine, up or failed.
abbrev pub IsFirst : Snapshot → Type 0
IsFirst m = IsCoherent m × (m.generation ≡ 1)

module _ (m : Snapshot) (c : IsFirst m) where
  connectivity-IsUp :
      (b v : Bool)
      → IsUp b m.phase
      → IsUp b (plan m (connectivity_changed (integer 1) (boolean v))).0.phase
        × ((plan m (connectivity_changed (integer 1) (boolean v))).0.generation ≡ 1)
  unfolding plan assert_app_lifecycle_invariant
  connectivity-IsUp true v h = ground arith
  connectivity-IsUp false v h = ground arith

  up_lost :
      (b : Bool)
      → IsUp b m.phase
      → (is_failed (plan m (runtime_failed (integer 1))).0.phase ≡ true)
        × ((plan m (runtime_failed (integer 1))).0.generation ≡ 1)
  unfolding plan assert_app_lifecycle_invariant
  up_lost true h = ground arith
  up_lost false h = ground arith

  succeeded-IsUp :
      IsUp true m.phase
      → IsUp false (plan m (start_succeeded (integer 1))).0.phase
        × ((plan m (start_succeeded (integer 1))).0.generation ≡ 1)
  unfolding plan assert_app_lifecycle_invariant
  succeeded-IsUp h = ground arith

  pub up_failed :
      IsUp true m.phase
      → (is_failed (plan m (start_failed (integer 1))).0.phase ≡ true)
        × ((plan m (start_failed (integer 1))).0.generation ≡ 1)
  unfolding plan assert_app_lifecycle_invariant
  up_failed h = ground arith

  pub failed_ignores :
      is_failed m.phase ≡ true
      → (v : Value)
      → ((plan m (connectivity_changed (integer 1) v)).0 ≡ m)
        × ((plan m (runtime_failed (integer 1))).0 ≡ m)
        × ((plan m (start_succeeded (integer 1))).0 ≡ m)
        × ((plan m (start_failed (integer 1))).0 ≡ m)
  unfolding plan assert_app_lifecycle_invariant
  failed_ignores h v = ground arith

-- The session is up with the effects `U`, or its lease was lost and it is failed with those of `D`.
pub record IsAlive (U D : Effects → Type 0) (b : Bool) (s : Session) : Type 0 where
  pub first : IsFirst s.machine
  pub token : s.session_token ≡ some 1
  pub unstopped : s.is_stopping ≡ false
  pub state :
      (IsUp b s.machine.phase × U s.effects) ⊎ ((is_failed s.machine.phase ≡ true) × D s.effects)

pub notify_planned :
    (e : LifecycleEvent) (s : Session)
    → IsCoherent s.machine
    → notify e s ≡ ok (record s { machine = (plan s.machine e).0 })
unfolding notify send_event
notify_planned e s c = rw (dispatch-plan s.machine e c, notify, send_event) refl

module _ (U D : Effects → Type 0) where
  connectivity-IsAlive :
      (b v : Bool) (s : Session)
      → IsAlive U D b s
      → (s' : Session) × (notify (connectivity_changed (token_of s.session_token) (boolean v)) s
          ≡ ok s')
        × IsAlive U D b s'
  connectivity-IsAlive b v s h =
      let e = connectivity_changed (integer 1) (boolean v) in
      let s' = record s { machine = (plan s.machine e).0 } in
      (
        s',
        ap (λ t. notify (connectivity_changed (token_of t) (boolean v)) s) h.token
            ∙ notify_planned e s h.first.0,
        elim (h.state) [
          | inl (u, x) ↦
              let (p, g) = connectivity-IsUp s.machine h.first b v u in
              record {
                first = (plan-IsCoherent s.machine e h.first.0, g);
                token = h.token;
                unstopped = h.unstopped;
                state = inl (p, x);
              }
          | inr (f, n) ↦
              let (k, j, i, r) = failed_ignores s.machine h.first f (boolean v) in
              record {
                first = rw k (h.first);
                token = h.token;
                unstopped = h.unstopped;
                state = inr (rw k f, n);
              }
        ],
      )

  set_online-IsAlive :
      (b : Bool) (t : Transport) (on : Bool) (s : Session)
      → IsAlive U D b s
      → IsAlive U D b (set_online t on s)
  unfolding set_online
  set_online-IsAlive b backend on s h = record {
    first = h.first;
    token = h.token;
    unstopped = h.unstopped;
    state = h.state;
  }
  set_online-IsAlive b supabase on s h = record {
    first = h.first;
    token = h.token;
    unstopped = h.unstopped;
    state = h.state;
  }

  module _ (wired_revoked : (x : Effects) → U x → D (revoke x))
      (clean_revoked : (x : Effects) → D x → D (revoke x)) where
    lost-IsAlive :
        (b : Bool) (s : Session)
        → IsAlive U D b s
        → (s' : Session) × (lease_lost s ≡ ok s') × IsAlive U D b s'
    unfolding lease_lost
    lost-IsAlive b s h =
        let e = runtime_failed (integer 1) in
        let x : Session = record s { effects = revoke s.effects } in
        let s' = record x { machine = (plan s.machine e).0 } in
        (
          s',
          ap (λ t. notify (runtime_failed (token_of t)) x) h.token ∙ notify_planned e x h.first.0,
          elim (h.state) [
            | inl (u, k) ↦
                let (p, g) = up_lost s.machine h.first b u in
                record {
                  first = (plan-IsCoherent s.machine e h.first.0, g);
                  token = h.token;
                  unstopped = h.unstopped;
                  state = inr (p, wired_revoked s.effects k);
                }
            | inr (f, n) ↦
                let (j, k, i, r) = failed_ignores s.machine h.first f (boolean true) in
                record {
                  first = rw k (h.first);
                  token = h.token;
                  unstopped = h.unstopped;
                  state = inr (rw k f, clean_revoked s.effects n);
                }
          ],
        )

    call-IsAlive :
        (b : Bool) (k : Callback) (s : Session)
        → IsAlive U D b s
        → (s' : Session) × (call k s ≡ ok s') × IsAlive U D b s'
    unfolding call report_transport
    call-IsAlive b (status t on) s h =
        let x = set_online t on s in
        connectivity-IsAlive b (x.backend_online || x.supabase_online) x
          (set_online-IsAlive b t on s h)
    call-IsAlive b lost s h = lost-IsAlive b s h

    pub calls-IsAlive :
        (b : Bool) (ks : List Callback) (s : Session)
        → IsAlive U D b s
        → (s' : Session) × (calls ks s ≡ ok s') × IsAlive U D b s'
    unfolding calls
    calls-IsAlive b [] s h = (s, refl, h)
    calls-IsAlive b (k ∷ ks) s h =
        let (x, e, hx) = call-IsAlive b k s h in
        let (y, f, hy) = calls-IsAlive b ks x hx in (y, rw (e, calls) f, hy)

  pub finish-IsAlive :
      (s : Session)
      → IsAlive U D true s
      → (s' : Session) × (finish_startup s ≡ ok s') × IsAlive U D false s'
  unfolding finish_startup
  finish-IsAlive s h =
      let e = start_succeeded (integer 1) in
      (
        record s { machine = (plan s.machine e).0 },
        ap (λ t. notify (start_succeeded (token_of t)) s) h.token ∙ notify_planned e s h.first.0,
        elim (h.state) [
          | inl (u, x) ↦
              let (p, g) = succeeded-IsUp s.machine h.first u in
              record {
                first = (plan-IsCoherent s.machine e h.first.0, g);
                token = h.token;
                unstopped = h.unstopped;
                state = inl (p, x);
              }
          | inr (f, n) ↦
              let (i, j, k, r) = failed_ignores s.machine h.first f (boolean true) in
              record {
                first = rw k (h.first);
                token = h.token;
                unstopped = h.unstopped;
                state = inr (rw k f, n);
              }
        ],
      )
