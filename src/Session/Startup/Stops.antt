-- ===== src/Session/Startup/Stops.antt =====
-- That `stop` ends what `startSync` of sdk/src/start.mjs started.
use zed_sync.Prelude.{
  ◌+◌, ◌<◌, Bool, true, false, none, some, List, ◌≡◌, ◌⊎◌, inl, inr, ◌∙◌, ap, arith,
}
use zed_sync.Result.{ok}
use zed_sync.Lifecycle.{AppPhase, max_safe_integer, initial_snapshot}
use zed_sync.Lifecycle.Capabilities.{is_active, is_failed}
use zed_sync.Session.{Session, under_way, stop_all}
use zed_sync.Session.Startup.Wiring.{first_thrown, IsClean, wired-IsQuiet, IsClean-IsQuiet}
use zed_sync.Session.Ends.{Callback, IsQuiet, IsReleased, stop_with, stop_session_ends}
use zed_sync.Session.Startup.{
  StartOptions, Environment, Started, resolved, rejected, not_allocated, start_session,
}
use zed_sync.Session.Startup.Alive.{IsUp, IsAlive}
use zed_sync.Session.Startup.Settles.{IsWired, Settled, start_session-Settled}

up-active : (phase : AppPhase) → IsUp false phase → is_active phase ≡ true
up-active phase h = ground arith

IsAlive-IsQuiet :
    (o : StartOptions) (s : Session)
    → IsAlive (IsWired o) (IsClean false) false s
    → IsQuiet (stop_all s.effects)
IsAlive-IsQuiet o s h = elim (h.state) [
  | inl (u, w) ↦ rw w (wired-IsQuiet o.has_lease o.has_backend o.has_supabase)
  | inr (f, n) ↦ IsClean-IsQuiet s.effects n
]

alive_stops :
    (o : StartOptions) (ks : List Callback) (s : Session)
    → IsAlive (IsWired o) (IsClean false) false s
    → (s' : Session) × (stop_with ks s ≡ ok (under_way (some 2), s'))
      × (s'.machine ≡ initial_snapshot 2)
      × IsReleased s'.effects
alive_stops o ks s h =
    let g = h.first.1 in
    let room : s.machine.generation < max_safe_integer = omega (arith, g) in
    let live : (is_active s.machine.phase ≡ true) ⊎ (is_failed s.machine.phase ≡ true) =
      elim (h.state) [ inl (u, w) ↦ inl (up-active s.machine.phase u) | inr (f, n) ↦ inr f ] in
    let (s', e, m, p) =
      stop_session_ends s h.first.0 room live (IsAlive-IsQuiet o s h) ks 1 h.unstopped h.token
        (omega arith, omega (arith, g)) in
    (
      s',
      e ∙ ap (λ k. ok (under_way (some (k + 1)), s')) g,
      m ∙ ap (λ k. initial_snapshot (k + 1)) g,
      p,
    )

module _ (o : StartOptions) (env : Environment) where
  Settled-stops :
      (ks : List Callback) (r : Started)
      → first_thrown o env ≡ none
      → start_session o env ≡ ok r
      → Settled o env r
      → (s : Session) × (flushed : Bool) × (s' : Session) × (start_session o env
          ≡ ok (resolved s flushed))
        × (stop_with ks s ≡ ok (under_way (some 2), s'))
        × (s'.machine ≡ initial_snapshot 2)
        × IsReleased s'.effects
  Settled-stops ks (resolved s flushed) t e z =
      let (s', p, q, m) = alive_stops o ks s z.1 in (s, flushed, s', e, p, q, m)
  Settled-stops ks (rejected x s) t e z = cc
  Settled-stops ks not_allocated t e z = absurd z

  -- A session that `startSync` resolved with can be stopped: whatever is called while it starts and
  -- while it stops, `stop` ends it "stopped", with no transport running, no stop function left and
  -- the lease given back.
  pub started_session_stops :
      (ks : List Callback)
      → first_thrown o env ≡ none
      → (s : Session) × (flushed : Bool) × (s' : Session) × (start_session o env
          ≡ ok (resolved s flushed))
        × (stop_with ks s ≡ ok (under_way (some 2), s'))
        × (s'.machine ≡ initial_snapshot 2)
        × IsReleased s'.effects
  started_session_stops ks t =
      let (r, e, z) = start_session-Settled o env in Settled-stops ks r t e z
