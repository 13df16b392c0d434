-- ===== src/Backend/Stream/Keeps.antt =====
-- A property of the stream of sdk/src/transports/backend.mjs that each handler keeps is kept by each
-- event, with the one connection that is under way at most.
use zed_sync.Prelude.{
  ℕ, ◌-◌, ◌≤◌, ◌==◌, Option, some, none, List, [], ◌∷◌, JsString, ◌≡◌, refl, arith, Bool-cases, inl,
  inr,
}
use zed_sync.Backend.Stream.{
  Browser, SocketPhase, opening, opened, closing, Stream, StreamEvent, token_ready, token_rejected,
  socket_opened, socket_message, socket_errored, socket_closed, timer_fired, stop_called, phase_of,
  end_connect, when_opening, when_opened, when_there, make_socket, fire_timer, begin_connect,
  on_open, on_close, on_message, close_ws, stop, stream_run, stream_step,
}
use zed_sync.Backend.Stream.Single.{under_way, step-under_way}

pub record Kept (P : Stream → Type 0) (b : Browser) : Type 0 where
  pub by_token :
      (token : Option JsString) (s : Stream)
      → under_way s ≤ 1
      → 1 ≤ s.connects
      → P s
      → P (make_socket b token (record s { connects = s.connects - 1 }))
  pub by_rejection : (s : Stream) → P s → P (record s { connects = s.connects - 1 })
  pub by_open : (i : ℕ) (s : Stream) → phase_of i s.sockets ≡ some opening → P s → P (on_open i s)
  pub by_message :
      (i : ℕ) (text : Option JsString) (s : Stream)
      → phase_of i s.sockets ≡ some opened
      → P s
      → P (on_message b text s)
  pub by_error : (s : Stream) → P s → P (close_ws s)
  pub by_close : (i : ℕ) (s : Stream) → P s → P (on_close i s)
  pub by_timer :
      (d : ℕ) (ds : List ℕ) (s : Stream)
      → s.timers ≡ d ∷ ds
      → P s
      → P (begin_connect (record s { timers = ds }))
  pub by_stop : (s : Stream) → under_way s ≤ 1 → P s → P (stop s)

module _ (P : Stream → Type 0) (b : Browser) (k : Kept P b) where
  fire_timer_keeps : (ds : List ℕ) (s : Stream) → s.timers ≡ ds → P s → P (fire_timer ds s)
  unfolding fire_timer
  fire_timer_keeps [] s e h = h
  fire_timer_keeps (d ∷ ds) s e h = k.by_timer d ds s e h

  open_keeps :
      (i : ℕ) (q : Option SocketPhase) (s : Stream)
      → phase_of i s.sockets ≡ q
      → P s
      → P (when_opening q (on_open i) s)
  unfolding when_opening
  open_keeps i none s e h = h
  open_keeps i (some opening) s e h = k.by_open i s e h
  open_keeps i (some opened) s e h = h
  open_keeps i (some closing) s e h = h

  message_keeps :
      (i : ℕ) (text : Option JsString) (q : Option SocketPhase) (s : Stream)
      → phase_of i s.sockets ≡ q
      → P s
      → P (when_opened q (on_message b text) s)
  unfolding when_opened
  message_keeps i text none s e h = h
  message_keeps i text (some opening) s e h = h
  message_keeps i text (some opened) s e h = k.by_message i text s e h
  message_keeps i text (some closing) s e h = h

  there_keeps :
      (f : Stream → Stream) (q : Option SocketPhase) (s : Stream)
      → P s
      → P (f s)
      → P (when_there q f s)
  unfolding when_there
  there_keeps f none s h j = h
  there_keeps f (some p) s h j = j

  connect_keeps :
      (f : Stream → Stream) (s : Stream)
      → P s
      → (1 ≤ s.connects → P (f (record s { connects = s.connects - 1 })))
      → P (end_connect f s)
  unfolding end_connect
  connect_keeps f s h j = elim (Bool-cases (s.connects == 0)) [
    | inl q ↦ rw q h
    | inr q ↦ rw q (j (ground arith))
  ]

  step_keeps : (e : StreamEvent) (s : Stream) → under_way s ≤ 1 → P s → P (stream_step b e s)
  unfolding stream_step
  step_keeps (token_ready token) s l h =
      connect_keeps (make_socket b token) s h (λ n. k.by_token token s l n h)
  step_keeps token_rejected s l h = connect_keeps (λ s'. s') s h (λ n. k.by_rejection s h)
  step_keeps (socket_opened i) s l h = open_keeps i (phase_of i s.sockets) s refl h
  step_keeps (socket_message i text) s l h = message_keeps i text (phase_of i s.sockets) s refl h
  step_keeps (socket_errored i) s l h =
      there_keeps close_ws (phase_of i s.sockets) s h (k.by_error s h)
  step_keeps (socket_closed i) s l h =
      there_keeps (on_close i) (phase_of i s.sockets) s h (k.by_close i s h)
  step_keeps timer_fired s l h = fire_timer_keeps s.timers s refl h
  step_keeps stop_called s l h = k.by_stop s l h

  pub run_keeps :
      (es : List StreamEvent) (s : Stream) → under_way s ≤ 1 → P s → P (stream_run b es s)
  unfolding stream_run
  run_keeps [] s l h = h
  run_keeps (e ∷ es) s l h =
      run_keeps es (stream_step b e s) (omega (arith, step-under_way b e s, l)) (step_keeps e s l h)
