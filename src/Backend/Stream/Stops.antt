-- ===== src/Backend/Stream/Stops.antt =====
-- What `stop` of sdk/src/transports/backend.mjs brings about.
use zed_sync.Prelude.{
  ℕ, ◌≤◌, ◌==◌, true, Option, none, some, List, [], ◌∷◌, All, length, JsString, ◌≡◌, refl, arith,
  ◌-◌, subst, ◌⊎◌, Option-cases, Bool-cases, inl, inr,
}
use zed_sync.Json.{Value}
use zed_sync.Backend.Stream.{
  Browser, SocketPhase, opened, closing, Socket, Stream, StreamEvent, stop_called, phase_of,
  set_phase, without_socket, close_ws, begin_connect, initial_stream, on_open, on_close, stop,
  make_socket, on_message, stream_step, stream_run,
}
use zed_sync.Backend.Stream.Single.{
  under_way, at_most_one_connection, close_ws-under_way, close_ws-stopped,
}
use zed_sync.Backend.Stream.Keeps.{Kept, run_keeps}
use zed_sync.Backend.Stream.Ends.{effects, close_ws-effects}

-- Every socket that has not closed is the one that `ws` holds.
abbrev IsOwn : Option ℕ → List Socket → Type 0
IsOwn ws ks = All (λ (k : Socket). ws ≡ some k.ident) ks

abbrev pub IsClosing : List Socket → Type 0
IsClosing ks = All (λ (k : Socket). k.phase ≡ closing) ks

module _ (ws : Option ℕ) where
  IsOwn-set_phase :
      (i : ℕ) (p : SocketPhase) (ks : List Socket) → IsOwn ws ks → IsOwn ws (set_phase i p ks)
  unfolding set_phase
  IsOwn-set_phase i p [] h = tt
  IsOwn-set_phase i p (k ∷ ks) h = elim (Bool-cases (k.ident == i)) [
    | inl q ↦ rw q h
    | inr q ↦ rw q (h.0, IsOwn-set_phase i p ks h.1)
  ]

  IsOwn-without_socket : (i : ℕ) (ks : List Socket) → IsOwn ws ks → IsOwn ws (without_socket i ks)
  unfolding without_socket
  IsOwn-without_socket i [] h = tt
  IsOwn-without_socket i (k ∷ ks) h = elim (Bool-cases (k.ident == i)) [
    | inl q ↦ rw q h.1
    | inr q ↦ rw q (h.0, IsOwn-without_socket i ks h.1)
  ]

IsClosing-set_phase : (i : ℕ) (ks : List Socket) → IsClosing ks → IsClosing (set_phase i closing ks)
unfolding set_phase
IsClosing-set_phase i [] h = tt
IsClosing-set_phase i (k ∷ ks) h = elim (Bool-cases (k.ident == i)) [
  | inl q ↦ rw q (refl, h.1)
  | inr q ↦ rw q (h.0, IsClosing-set_phase i ks h.1)
]

IsClosing-without_socket :
    (i : ℕ) (ks : List Socket) → IsClosing ks → IsClosing (without_socket i ks)
unfolding without_socket
IsClosing-without_socket i [] h = tt
IsClosing-without_socket i (k ∷ ks) h = elim (Bool-cases (k.ident == i)) [
  | inl q ↦ rw q h.1
  | inr q ↦ rw q (h.0, IsClosing-without_socket i ks h.1)
]

-- A closing socket neither opens nor delivers.
phase_of-IsClosing :
    (i : ℕ) (ks : List Socket)
    → IsClosing ks
    → (phase_of i ks ≡ none) ⊎ (phase_of i ks ≡ some closing)
unfolding phase_of
phase_of-IsClosing i [] h = inl refl
phase_of-IsClosing i (k ∷ ks) h = ground (arith, phase_of-IsClosing i ks h.1, h.0)

-- Closing `ws` closes the one socket that there is.
IsClosing-own :
    (ws : Option ℕ) (ks : List Socket)
    → IsOwn ws ks
    → length ks ≤ 1
    → IsClosing (elim ws [ none ↦ ks | some i ↦ set_phase i closing ks ])
unfolding set_phase
IsClosing-own none [] h l = tt
IsClosing-own (some i) [] h l = tt
IsClosing-own none (k ∷ []) h l = cc
IsClosing-own (some i) (k ∷ []) h l =
    let q : (k.ident == i) ≡ true = ground (arith, h.0) in rw q (refl, tt)
IsClosing-own ws (k ∷ m ∷ ks) h l = absurd (omega arith)

IsClosing-stop :
    (s : Stream) → IsOwn s.ws s.sockets → length s.sockets ≤ 1 → IsClosing (stop s).sockets
unfolding stop close_ws
IsClosing-stop s h l = elim (Option-cases s.ws) [
  | inl n ↦ rw n (
      subst
        (λ ws. IsClosing (elim ws [ none ↦ s.sockets | some i ↦ set_phase i closing s.sockets ])) n
        (IsClosing-own s.ws s.sockets h l))
  | inr (i, n) ↦ rw n (
      subst
        (λ ws. IsClosing (elim ws [ none ↦ s.sockets | some i ↦ set_phase i closing s.sockets ])) n
        (IsClosing-own s.ws s.sockets h l))
]

IsOwn-none : (ws : Option ℕ) (ks : List Socket) → length ks ≡ 0 → IsOwn ws ks
IsOwn-none ws [] h = tt
IsOwn-none ws (k ∷ ks) h = absurd (omega arith)

close_ws-IsOwn : (s : Stream) → IsOwn s.ws s.sockets → IsOwn (close_ws s).ws (close_ws s).sockets
unfolding close_ws
close_ws-IsOwn s h = elim (Option-cases s.ws) [
  | inl n ↦ rw n (subst (λ ws. IsOwn ws s.sockets) n h)
  | inr (i, n) ↦ rw n (
      subst (λ ws. IsOwn ws (set_phase i closing s.sockets)) n
        (IsOwn-set_phase s.ws i closing s.sockets h))
]

abbrev Own : Stream → Type 0
Own s = IsOwn s.ws s.sockets

module _ (b : Browser) where
  make_socket-Own :
      (token : Option JsString) (s : Stream)
      → length s.sockets ≡ 0
      → Own s
      → Own (make_socket b token s)
  unfolding make_socket
  make_socket-Own token s l h = elim (Bool-cases s.stopped) [
    | inl q ↦ rw q h
    | inr q ↦ rw q (refl, IsOwn-none _ s.sockets l)
  ]

  on_close-Own : (i : ℕ) (s : Stream) → Own s → Own (on_close i s)
  unfolding on_close
  on_close-Own i s h = elim (Bool-cases s.stopped) [
    | inl q ↦ rw q (IsOwn-without_socket s.ws i s.sockets h)
    | inr q ↦ rw q (IsOwn-without_socket s.ws i s.sockets h)
  ]

  begin_connect-Own : (s : Stream) → Own s → Own (begin_connect s)
  unfolding begin_connect
  begin_connect-Own s h = elim (Bool-cases s.stopped) [ inl q ↦ rw q h | inr q ↦ rw q h ]

  Own-Kept : Kept Own b
  unfolding on_open on_message stop
  Own-Kept = record {
    by_token = λ token s l n h.
        make_socket-Own token (record s { connects = s.connects - 1 }) (omega arith) h;
    by_rejection = λ s h. h;
    by_open = λ i s e h. IsOwn-set_phase s.ws i opened s.sockets h;
    by_message = λ i text s e h. h;
    by_error = λ s h. close_ws-IsOwn s h;
    by_close = λ i s h. on_close-Own i s h;
    by_timer = λ d ds s e h. begin_connect-Own (record s { timers = ds }) h;
    by_stop = λ s l h. close_ws-IsOwn (record s { stopped = true }) h;
  }

  -- Stopped, with the sockets that are left closing, and the effects that it had.
  abbrev Quiet : ℕ × List Value → Stream → Type 0
  Quiet x s = (s.stopped ≡ true) × (IsClosing s.sockets) × (effects s ≡ x)

  close_ws-Quiet : (x : ℕ × List Value) (s : Stream) → Quiet x s → Quiet x (close_ws s)
  unfolding close_ws
  close_ws-Quiet x s (p, q, r) = elim (Option-cases s.ws) [
    | inl n ↦ rw n (p, q, r)
    | inr (i, n) ↦ rw n (p, IsClosing-set_phase i s.sockets q, r)
  ]

  Quiet-Kept : (x : ℕ × List Value) → Kept (Quiet x) b
  unfolding make_socket on_close begin_connect stop
  Quiet-Kept x = record {
    by_token = λ token s l n h. let (p, q, r) = h in rw p (refl, q, r);
    by_rejection = λ s h. h;
    by_open = λ i s e h. let (p, q, r) = h in ground (arith, phase_of-IsClosing i s.sockets q);
    by_message =
        λ i text s e h. let (p, q, r) = h in ground (arith, phase_of-IsClosing i s.sockets q);
    by_error = λ s h. close_ws-Quiet x s h;
    by_close = λ i s h. let (p, q, r) = h in rw p (refl, IsClosing-without_socket i s.sockets q, r);
    by_timer = λ d ds s e h. let (p, q, r) = h in rw p (refl, q, r);
    by_stop =
        λ s l h. let (p, q, r) = h in close_ws-Quiet x (record s { stopped = true }) (refl, q, r);
  }

  -- `stop` ends the stream, whenever it is called: the socket that there is, if there is one, is being
  -- closed, and whatever happens from then on (a token that is got late, a timer that fires, messages
  -- on the closing socket) no socket is made any more and no change is handed to the client.
  pub stop_ends_stream :
      (es fs : List StreamEvent)
      → IsClosing (stream_run b (stop_called ∷ fs) (stream_run b es initial_stream)).sockets
        × (effects (stream_run b (stop_called ∷ fs) (stream_run b es initial_stream))
            ≡ effects (stream_run b es initial_stream))
  unfolding stream_run stream_step initial_stream begin_connect stop
  stop_ends_stream es fs =
      let s = stream_run b es initial_stream in
      let l : under_way s ≤ 1 = at_most_one_connection b es in
      let own : Own s = run_keeps Own b Own-Kept es initial_stream (omega arith) tt in
      let same : effects (stop s) ≡ effects s = close_ws-effects (record s { stopped = true }) in
      let (p, q, r) =
        run_keeps (Quiet (effects s)) b (Quiet-Kept (effects s)) fs (stop s)
          (omega (arith, close_ws-under_way (record s { stopped = true }), l))
          (
            close_ws-stopped (record s { stopped = true }),
            IsClosing-stop s own (omega (arith, l)),
            same,
          ) in
      (q, r)
