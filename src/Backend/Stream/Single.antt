-- ===== src/Backend/Stream/Single.antt =====
-- How many connections of sdk/src/transports/backend.mjs are under way at once.
use zed_sync.Prelude.{
  ℕ, ◌+◌, ◌≤◌, true, false, Option, some, List, [], ◌∷◌, All, length, ◌≡◌, refl, arith, ◌∙◌,
  Option-cases, inl, inr,
}
use zed_sync.Backend.Stream.{
  Browser, SocketPhase, opened, closing, Socket, Stream, StreamEvent, token_ready, token_rejected,
  socket_opened, socket_message, socket_errored, socket_closed, timer_fired, stop_called, phase_of,
  set_phase, without_socket, close_ws, begin_connect, initial_stream, on_open, on_close, fire_timer,
  stop, end_connect, when_opening, when_opened, when_there, make_socket, on_message, stream_step,
  stream_run,
}

-- The connections under way: awaiting a token, having a socket, or waiting for a timer.
abbrev pub under_way : Stream → ℕ
under_way s = s.connects + (length s.sockets + length s.timers)

length-set_phase :
    (i : ℕ) (p : SocketPhase) (ks : List Socket) → length (set_phase i p ks) ≡ length ks
unfolding set_phase
length-set_phase i p [] = refl
length-set_phase i p (k ∷ ks) = ground (arith, length-set_phase i p ks)

length-without_socket :
    (i : ℕ) (p : SocketPhase) (ks : List Socket)
    → phase_of i ks ≡ some p
    → length (without_socket i ks) + 1 ≡ length ks
unfolding without_socket phase_of
length-without_socket i p [] h = cc
length-without_socket i p (k ∷ ks) h = ground (arith, length-without_socket i p ks)

pub close_ws-under_way : (s : Stream) → under_way (close_ws s) ≡ under_way s
unfolding close_ws
close_ws-under_way s = elim (Option-cases s.ws) [
  | inl n ↦ rw n refl
  | inr (i, h) ↦ rw (h, length-set_phase i closing s.sockets) refl
]

pub close_ws-stopped : (s : Stream) → (close_ws s).stopped ≡ s.stopped
unfolding close_ws
close_ws-stopped s = ground arith

when_opening-under_way :
    (i : ℕ) (q : Option SocketPhase) (s : Stream)
    → under_way (when_opening q (on_open i) s) ≡ under_way s
unfolding when_opening on_open
when_opening-under_way i q s = ground (arith, length-set_phase i opened s.sockets)

-- Not a stop, and not the failure of a token.
abbrev pub IsWorking : StreamEvent → Type 0
IsWorking e = elim e [ token_rejected ↦ ⊥ | stop_called ↦ ⊥ | _ ↦ Unit {0} ]

module _ (b : Browser) where
  -- No step adds a connection, and without a stop or a failing token none is lost.
  pub step-under_way : (e : StreamEvent) (s : Stream) → under_way (stream_step b e s) ≤ under_way s
  unfolding stream_step end_connect make_socket when_opening when_opened when_there on_open on_close
      on_message fire_timer begin_connect stop
  step-under_way (token_ready token) s = ground arith
  step-under_way token_rejected s = ground arith
  step-under_way (socket_opened i) s =
      ground (arith, when_opening-under_way i (phase_of i s.sockets) s)
  step-under_way (socket_message i text) s = ground arith
  step-under_way (socket_errored i) s = ground (arith, close_ws-under_way s)
  step-under_way (socket_closed i) s = elim (Option-cases (phase_of i s.sockets)) [
    | inl n ↦ rw n (omega arith)
    | inr (p, h) ↦ rw h (ground (arith, length-without_socket i p s.sockets h))
  ]
  step-under_way timer_fired s = ground arith
  step-under_way stop_called s = ground (arith, close_ws-under_way (record s { stopped = true }))

  step-stopped :
      (e : StreamEvent) (s : Stream) → IsWorking e → (stream_step b e s).stopped ≡ s.stopped
  unfolding stream_step end_connect make_socket when_opening when_opened when_there on_open on_close
      on_message fire_timer begin_connect
  step-stopped (token_ready token) s w = ground arith
  step-stopped token_rejected s w = absurd w
  step-stopped (socket_opened i) s w = ground arith
  step-stopped (socket_message i text) s w = ground arith
  step-stopped (socket_errored i) s w = ground (arith, close_ws-stopped s)
  step-stopped (socket_closed i) s w = ground arith
  step-stopped timer_fired s w = ground arith
  step-stopped stop_called s w = absurd w

  step_working :
      (e : StreamEvent) (s : Stream)
      → IsWorking e
      → s.stopped ≡ false
      → under_way (stream_step b e s) ≡ under_way s
  unfolding stream_step end_connect make_socket when_opening when_opened when_there on_open on_close
      on_message fire_timer begin_connect
  step_working (token_ready token) s w h = ground arith
  step_working token_rejected s w h = absurd w
  step_working (socket_opened i) s w h = when_opening-under_way i (phase_of i s.sockets) s
  step_working (socket_message i text) s w h = ground arith
  step_working (socket_errored i) s w h = ground (arith, close_ws-under_way s)
  step_working (socket_closed i) s w h = elim (Option-cases (phase_of i s.sockets)) [
    | inl n ↦ rw n refl
    | inr (p, k) ↦ rw k (ground (arith, length-without_socket i p s.sockets k))
  ]
  step_working timer_fired s w h = ground arith
  step_working stop_called s w h = absurd w

  run-under_way : (es : List StreamEvent) (s : Stream) → under_way (stream_run b es s) ≤ under_way s
  unfolding stream_run
  run-under_way [] s = omega arith
  run-under_way (e ∷ es) s = omega (arith, step-under_way e s, run-under_way es (stream_step b e s))

  run_working :
      (es : List StreamEvent) (s : Stream)
      → All IsWorking es
      → s.stopped ≡ false
      → under_way (stream_run b es s) ≡ under_way s
  unfolding stream_run
  run_working [] s w h = refl
  run_working (e ∷ es) s w h =
      run_working es (stream_step b e s) w.1 (step-stopped e s w.0 ∙ h) ∙ step_working e s w.0 h

  -- Whatever happens, the stream has at most one connection under way: one that awaits a token, one
  -- socket that has not closed, or one timer for the next attempt.
  pub at_most_one_connection :
      (es : List StreamEvent) → under_way (stream_run b es initial_stream) ≤ 1
  unfolding initial_stream begin_connect
  at_most_one_connection es = run-under_way es initial_stream

  -- As long as the stream is not stopped and every token is got, it never runs dry: after any
  -- events, socket errors and closes at any moment included, exactly one connection is under way.
  pub stream_stays_connected :
      (es : List StreamEvent) → All IsWorking es → under_way (stream_run b es initial_stream) ≡ 1
  unfolding initial_stream begin_connect
  stream_stays_connected es w = run_working es initial_stream w refl
