-- ===== src/Backend/Stream/Ends.antt =====
-- What becomes of the stream of sdk/src/transports/backend.mjs when a token is not got.
use zed_sync.Prelude.{ℕ, ◌≤◌, true, none, List, [], ◌∷◌, length, ◌≡◌, refl, arith, ◌∙◌}
use zed_sync.Json.{Value}
use zed_sync.Backend.Stream.{
  Browser, Socket, Stream, StreamEvent, token_ready, token_rejected, socket_opened, socket_message,
  socket_errored, socket_closed, timer_fired, stop_called, phase_of, close_ws, begin_connect,
  initial_stream, on_open, on_close, fire_timer, stop, end_connect, when_opening, when_opened,
  when_there, make_socket, on_message, stream_step, stream_run,
}
use zed_sync.Backend.Stream.Single.{under_way, step-under_way, at_most_one_connection}

-- The sockets made and the changes handed on.
abbrev pub effects : Stream → ℕ × List Value
effects s = (s.created, s.received)

pub close_ws-effects : (s : Stream) → effects (close_ws s) ≡ effects s
unfolding close_ws
close_ws-effects s = ground arith

phase_of_nil : (i : ℕ) (ks : List Socket) → length ks ≡ 0 → phase_of i ks ≡ none
unfolding phase_of
phase_of_nil i [] h = refl
phase_of_nil i (k ∷ ks) h = absurd (omega arith)

module _ (b : Browser) where
  -- With nothing under way, nothing happens.
  idle-effects :
      (e : StreamEvent) (s : Stream) → under_way s ≡ 0 → effects (stream_step b e s) ≡ effects s
  unfolding stream_step end_connect make_socket when_opening when_opened when_there on_open on_close
      on_message fire_timer begin_connect stop
  idle-effects (token_ready token) s h = ground arith
  idle-effects token_rejected s h = ground arith
  idle-effects (socket_opened i) s h = ground arith
  idle-effects (socket_message i text) s h = ground (arith, phase_of_nil i s.sockets)
  idle-effects (socket_errored i) s h = ground (arith, close_ws-effects s)
  idle-effects (socket_closed i) s h = ground arith
  idle-effects timer_fired s h = ground arith
  idle-effects stop_called s h = close_ws-effects (record s { stopped = true })

  idle_run :
      (es : List StreamEvent) (s : Stream)
      → under_way s ≡ 0
      → (effects (stream_run b es s) ≡ effects s) × (under_way (stream_run b es s) ≡ 0)
  unfolding stream_run
  idle_run [] s h = (refl, h)
  idle_run (e ∷ es) s h =
      let s' = stream_step b e s in
      let k : under_way s' ≡ 0 = omega (arith, step-under_way b e s) in
      let (a, k') = idle_run es s' k in (a ∙ idle-effects e s h, k')

  -- If the token of an attempt to connect is not got, be it the first or that of a reconnect, the
  -- stream is dead although nobody stopped it: whatever happens from then on, no connection is ever
  -- under way, no socket is made and no change is handed on.
  pub token_failure_ends_stream :
      (es fs : List StreamEvent)
      → 1 ≤ (stream_run b es initial_stream).connects
      → (effects (stream_run b (token_rejected ∷ fs) (stream_run b es initial_stream))
          ≡ effects (stream_run b es initial_stream))
        × (under_way (stream_run b (token_rejected ∷ fs) (stream_run b es initial_stream)) ≡ 0)
  unfolding stream_run stream_step end_connect
  token_failure_ends_stream es fs h =
      let s = stream_run b es initial_stream in
      let s' = stream_step b token_rejected s in
      let le : under_way s ≤ 1 = at_most_one_connection b es in
      let dead : under_way s' ≡ 0 = ground arith in
      let same : effects s' ≡ effects s = ground arith in
      let (a, k) = idle_run fs s' dead in (a ∙ same, k)
