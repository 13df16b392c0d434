-- ===== src/Backend/Stream/Backoff.antt =====
-- The delays of the reconnects of sdk/src/transports/backend.mjs.
use zed_sync.Prelude.{
  ℕ, zero, suc, ◌+◌, ◌≤◌, ◌*◌, ◌^◌, min, Bool, true, false, if◌then◌else◌, Option, some, List, [],
  ◌∷◌, All, length, JsString, ◌≡◌, refl, arith, ◌++◌, subst, Option-cases, inl, inr,
}
use zed_sync.Backend.Stream.{
  Browser, SocketPhase, opening, opened, Socket, Stream, StreamEvent, token_ready, socket_opened,
  socket_closed, timer_fired, phase_of, set_phase, without_socket, close_ws, begin_connect,
  initial_stream, backoff, on_open, on_close, fire_timer, stop, end_connect, when_opening,
  when_there, make_socket, on_message, stream_step, stream_run,
}
use zed_sync.Backend.Stream.Single.{under_way, at_most_one_connection}
use zed_sync.Backend.Stream.Keeps.{Kept, run_keeps}

one_le_pow : (n : ℕ) → 1 ≤ 2 ^ n
one_le_pow zero = omega arith
one_le_pow (suc n) = omega (arith, one_le_pow n)

abbrev pub IsDelay : ℕ → Type 0
IsDelay d = (500 ≤ d) × (d ≤ 30000)

backoff-IsDelay : (n : ℕ) → IsDelay (backoff n)
unfolding backoff
backoff-IsDelay n = (omega (arith, one_le_pow n), omega arith)

-- Attempts that end before they open: the token is got, the socket closes, and the timer fires.
unfoldable pub failed_attempts : Option JsString → ℕ → ℕ → List StreamEvent
failed_attempts token i zero = []
failed_attempts token i (suc n) =
    token_ready token ∷ socket_closed i ∷ timer_fired ∷ failed_attempts token (suc i) n

phase_of-length :
    (i : ℕ) (p : SocketPhase) (ks : List Socket) → phase_of i ks ≡ some p → 1 ≤ length ks
unfolding phase_of
phase_of-length i p [] h = cc
phase_of-length i p (k ∷ ks) h = omega arith

phase_of-set_phase :
    (i : ℕ) (p q : SocketPhase) (ks : List Socket)
    → phase_of i ks ≡ some p
    → phase_of i (set_phase i q ks) ≡ some q
unfolding phase_of set_phase
phase_of-set_phase i p q [] h = cc
phase_of-set_phase i p q (k ∷ ks) h = ground (arith, phase_of-set_phase i p q ks)

length_nil : (ds : List ℕ) → length ds ≡ 0 → ds ≡ []
length_nil [] h = refl
length_nil (d ∷ ds) h = absurd (omega arith)

abbrev Delays : Stream → Type 0
Delays s = All IsDelay s.timers

module _ (b : Browser) where
  Delays-if : (c : Bool) (s s' : Stream) → Delays s → Delays s' → Delays (if c then s else s')
  Delays-if true s s' h k = h
  Delays-if false s s' h k = k

  close_ws-Delays : (s : Stream) → Delays s → Delays (close_ws s)
  unfolding close_ws
  close_ws-Delays s h = elim (Option-cases s.ws) [ inl n ↦ rw n h | inr (i, n) ↦ rw n h ]

  Delays-Kept : Kept Delays b
  unfolding make_socket on_open on_message on_close begin_connect stop
  Delays-Kept = record {
    by_token = λ token s l n h. Delays-if s.stopped _ _ h h;
    by_rejection = λ s h. h;
    by_open = λ i s e h. h;
    by_message = λ i text s e h. h;
    by_error = λ s h. close_ws-Delays s h;
    by_close = λ i s h. Delays-if s.stopped _ _ h (backoff-IsDelay s.attempt, h);
    by_timer = λ d ds s e h.
        Delays-if s.stopped _ _ (subst (All IsDelay) e h).1 (subst (All IsDelay) e h).1;
    by_stop = λ s l h. close_ws-Delays (record s { stopped = true }) h;
  }

  -- Every reconnect waits at least half a second and at most half a minute, however many attempts
  -- failed.
  pub run-IsDelay : (es : List StreamEvent) → All IsDelay (stream_run b es initial_stream).timers
  unfolding initial_stream begin_connect
  run-IsDelay es = run_keeps Delays b Delays-Kept es initial_stream (omega arith) tt

  -- The `n`th attempt in a row is under way, with `n` sockets made.
  abbrev Waiting : ℕ → Stream → Type 0
  Waiting n s =
      (s.stopped ≡ false)
      × (s.attempt ≡ n)
      × (s.created ≡ n)
      × (s.connects ≡ 1)
      × (s.sockets ≡ [])
      × (s.timers ≡ [])

  socket-closed :
      (token : Option JsString) (n : ℕ) (s : Stream)
      → Waiting n s
      → (stream_run b (token_ready token ∷ socket_closed n ∷ []) s).timers ≡ backoff n ∷ []
  unfolding stream_run stream_step end_connect make_socket when_there on_close phase_of
      without_socket
  socket-closed token n s h = ground arith

  attempt-Waiting :
      (token : Option JsString) (n : ℕ) (s : Stream)
      → Waiting n s
      → Waiting (suc n) (stream_run b (token_ready token ∷ socket_closed n ∷ timer_fired ∷ []) s)
  unfolding stream_run stream_step end_connect make_socket when_there on_close phase_of
      without_socket fire_timer begin_connect
  attempt-Waiting token n s h = ground arith

  failed_attempts-run :
      (token : Option JsString) (n m : ℕ) (s : Stream)
      → Waiting n s
      → (stream_run b
          (failed_attempts token n m ++ token_ready token ∷ socket_closed (n + m) ∷ [])
          s).timers
        ≡ backoff (n + m) ∷ []
  unfolding stream_run failed_attempts
  failed_attempts-run token n zero s h =
      let e : n + 0 ≡ n = omega arith in rw e (socket-closed token n s h)
  failed_attempts-run token n (suc m) s h =
      let e : suc n + m ≡ n + suc m = omega arith in
      subst
        (λ k.
          (stream_run b
            (failed_attempts token (suc n) m ++ token_ready token ∷ socket_closed k ∷ [])
            (stream_run b (token_ready token ∷ socket_closed n ∷ timer_fired ∷ []) s)).timers
          ≡ backoff k ∷ [])
        e (failed_attempts-run token (suc n) m _ (attempt-Waiting token n s h))

  -- After `n` attempts in a row that ended before they opened, one more that does leads to a wait of
  -- 500 ms times 2 to the `n`, or of half a minute if that is less.
  pub failed_attempts_back_off :
      (token : Option JsString) (n : ℕ)
      → (stream_run b
          (failed_attempts token 0 n ++ token_ready token ∷ socket_closed n ∷ [])
          initial_stream).timers
        ≡ min 30000 (500 * 2 ^ n) ∷ []
  unfolding initial_stream begin_connect backoff
  failed_attempts_back_off token n =
      let e : 0 + n ≡ n = omega arith in
      subst
        (λ k.
          (stream_run b (failed_attempts token 0 n ++ token_ready token ∷ socket_closed k ∷ [])
            initial_stream).timers
          ≡ backoff k ∷ [])
        e (failed_attempts-run token 0 n initial_stream (refl, refl, refl, refl, refl, refl))

  opened_then_closed :
      (i : ℕ) (s : Stream)
      → s.stopped ≡ false
      → s.timers ≡ []
      → phase_of i s.sockets ≡ some opening
      → (stream_run b (socket_opened i ∷ socket_closed i ∷ []) s).timers ≡ 500 ∷ []
  unfolding stream_run stream_step when_opening when_there on_open on_close backoff
  opened_then_closed i s w t h = ground (arith, phase_of-set_phase i opening opened s.sockets h)

  -- A connection that opens starts the waits afresh: however many attempts failed before it, if it
  -- closes, the next attempt follows after half a second.
  pub open_resets_backoff :
      (es : List StreamEvent) (i : ℕ)
      → (stream_run b es initial_stream).stopped ≡ false
      → phase_of i (stream_run b es initial_stream).sockets ≡ some opening
      → (stream_run b
          (socket_opened i ∷ socket_closed i ∷ [])
          (stream_run b es initial_stream)).timers
        ≡ 500 ∷ []
  open_resets_backoff es i w h =
      let s = stream_run b es initial_stream in
      let l : under_way s ≤ 1 = at_most_one_connection b es in
      let n : 1 ≤ length s.sockets = phase_of-length i opening s.sockets h in
      opened_then_closed i s w (length_nil s.timers (omega arith)) h
