-- ===== src/Backend/Stream.antt =====
-- `startBackendStream` of sdk/src/transports/backend.mjs: the WebSocket read path with its
-- reconnects. The machine is its variables, the sockets that it made, and the timers that it set; the
-- environment says what happens next. A socket's events are those that the WebSocket interface
-- documents: it opens at most once, delivers messages while it is open and not being closed, and
-- closes once. `onStatus` and `onReconnect` are recorded, and do not call the stream.
pub mod Single
pub mod Keeps
pub mod Ends
pub mod Stops
pub mod Backoff
use zed_sync.Prelude.{
  ℕ, suc, ◌+◌, ◌*◌, ◌^◌, ◌-◌, min, Bool, true, false, not, ◌&&◌, ◌||◌, ◌==◌, if◌then◌else◌, Option,
  none, some, List, [], ◌∷◌, ◌++◌, JsString, codes, str_eq,
}
use zed_sync.Json.{Value, Items, nil, cons}
use zed_sync.Decode.{decode_backend_frame}
use zed_sync.Backend.{is_empty, strip_slashes}

pub data SocketPhase : Type 0 where
  opening opened closing : SocketPhase

-- A socket that has not closed yet.
pub record Socket : Type 0 where
  pub ident : ℕ
  pub phase : SocketPhase

pub record Stream : Type 0 where
  pub stopped : Bool
  pub attempt : ℕ
  -- The variable `ws`.
  pub ws : Option ℕ
  -- How many sockets were made, and those that have not closed.
  pub created : ℕ
  pub sockets : List Socket
  -- Calls of `connect` that await `authedUrl`.
  pub connects : ℕ
  -- The delays of the timers that are set.
  pub timers : List ℕ
  pub urls : List JsString
  pub statuses : List JsString
  pub reconnects : ℕ
  -- What `sync.applyChange` was called with.
  pub received : List Value

pub data StreamEvent : Type 0 where
  -- `getToken` answers, or there is only the static token; `none` if there is none at all.
  token_ready : Option JsString → StreamEvent
  -- It rejects, or the socket's constructor throws.
  token_rejected : StreamEvent
  socket_opened : ℕ → StreamEvent
  -- With the data, if they are a string.
  socket_message : ℕ → Option JsString → StreamEvent
  socket_errored : ℕ → StreamEvent
  socket_closed : ℕ → StreamEvent
  timer_fired : StreamEvent
  stop_called : StreamEvent

-- What follows a prefix.
unfoldable pub after_prefix : JsString → JsString → Option JsString
after_prefix [] s = some s
after_prefix (p ∷ ps) [] = none
after_prefix (p ∷ ps) (c ∷ s) = let rest = after_prefix ps s in if p == c then rest else none

-- `baseUrl.replace(/^http/, "ws")`
unfoldable pub ws_scheme : JsString → JsString
unfolding after_prefix
ws_scheme url = elim (after_prefix (codes "http") url) [
  | none ↦ url
  | some rest ↦ codes "ws" ++ rest
]

unfoldable pub stream_url : JsString → JsString → JsString
unfolding ws_scheme strip_slashes
stream_url base_url ws_path = strip_slashes (ws_scheme base_url) ++ ws_path

unfoldable pub includes_char : ℕ → JsString → Bool
includes_char x [] = false
includes_char x (c ∷ s) = c == x || includes_char x s

-- `Math.min(30_000, 500 * 2 ** attempt)`
unfoldable pub backoff : ℕ → ℕ
backoff attempt = min 30000 (500 * 2 ^ attempt)

-- The phase of a socket that has not closed.
unfoldable pub phase_of : ℕ → List Socket → Option SocketPhase
phase_of i [] = none
phase_of i (k ∷ ks) = if k.ident == i then some k.phase else phase_of i ks

unfoldable pub set_phase : ℕ → SocketPhase → List Socket → List Socket
set_phase i p [] = []
set_phase i p (k ∷ ks) = if k.ident == i then record k { phase = p } ∷ ks else k ∷ set_phase i p ks

unfoldable pub without_socket : ℕ → List Socket → List Socket
without_socket i [] = []
without_socket i (k ∷ ks) = if k.ident == i then ks else k ∷ without_socket i ks

-- `ws?.close()`
unfoldable pub close_ws : Stream → Stream
unfolding set_phase
close_ws s = elim s.ws [ none ↦ s | some i ↦ record s { sockets = set_phase i closing s.sockets } ]

-- `connect`, up to its `await`.
unfoldable pub begin_connect : Stream → Stream
begin_connect s = if s.stopped then s else record s { connects = s.connects + 1 }

unfoldable pub initial_stream : Stream
unfolding begin_connect
initial_stream = begin_connect (record {
  stopped = false;
  attempt = 0;
  ws = none;
  created = 0;
  sockets = [];
  connects = 0;
  timers = [];
  urls = [];
  statuses = [];
  reconnects = 0;
  received = [];
})

-- `ws.onopen`
unfoldable pub on_open : ℕ → Stream → Stream
unfolding set_phase
on_open i s = record s {
  sockets = set_phase i opened s.sockets;
  attempt = 0;
  statuses = s.statuses ++ codes "open" ∷ [];
  reconnects = s.reconnects + 1;
}

-- `ws.onclose`
unfoldable pub on_close : ℕ → Stream → Stream
unfolding without_socket backoff
on_close i s =
    let s' = record s {
      sockets = without_socket i s.sockets;
      statuses = s.statuses ++ codes "closed" ∷ [];
    } in
    if s.stopped
    then s'
    else record s' { attempt = s.attempt + 1; timers = backoff s.attempt ∷ s.timers }

-- The browser clears a timer when it fires.
unfoldable pub fire_timer : List ℕ → Stream → Stream
unfolding begin_connect
fire_timer [] s = s
fire_timer (d ∷ ds) s = begin_connect (record s { timers = ds })

unfoldable pub stop : Stream → Stream
unfolding close_ws
stop s = close_ws (record s { stopped = true })

unfoldable pub items : Items → List Value
items nil = []
items (cons v vs) = v ∷ items vs

-- An `await` of `authedUrl` ends.
unfoldable pub end_connect : (Stream → Stream) → Stream → Stream
end_connect rest s = if s.connects == 0 then s else rest (record s { connects = s.connects - 1 })

unfoldable pub when_opening : Option SocketPhase → (Stream → Stream) → Stream → Stream
when_opening (some opening) f s = f s
when_opening p f s = s

unfoldable pub when_opened : Option SocketPhase → (Stream → Stream) → Stream → Stream
when_opened (some opened) f s = f s
when_opened p f s = s

unfoldable pub when_there : Option SocketPhase → (Stream → Stream) → Stream → Stream
when_there (some p) f s = f s
when_there none f s = s

-- What the stream uses of its surroundings: `encodeURIComponent`, `JSON.parse` (none if it throws),
-- `String` and its own url.
pub record Browser : Type 0 where
  pub encode_uri_component : JsString → JsString
  pub parse_json : JsString → Option Value
  pub to_string : Value → JsString
  pub url : JsString

module _ (b : Browser) where
  -- `authedUrl`, on the token that it got.
  unfoldable pub authed_url : Option JsString → JsString
  unfolding includes_char
  authed_url none = b.url
  authed_url (some token) =
      if is_empty token
      then b.url
      else b.url
        ++ ((if includes_char 63 b.url then codes "&" else codes "?")
            ++ (codes "access_token=" ++ b.encode_uri_component token))

  -- The rest of `connect`, after its `await`.
  unfoldable pub make_socket : Option JsString → Stream → Stream
  unfolding authed_url
  make_socket token s = if s.stopped then s else record s {
    ws = some s.created;
    created = s.created + 1;
    sockets = record { ident = s.created; phase = opening } ∷ s.sockets;
    urls = s.urls ++ authed_url token ∷ [];
  }

  -- The changes of a message; data that are no JSON text have none.
  unfoldable pub changes_in : Option JsString → List Value
  unfolding items
  changes_in none = []
  changes_in (some text) = elim (b.parse_json text) [
    | none ↦ []
    | some frame ↦ items (decode_backend_frame b.to_string frame)
  ]

  -- `ws.onmessage`
  unfoldable pub on_message : Option JsString → Stream → Stream
  unfolding changes_in
  on_message text s = record s { received = s.received ++ changes_in text }

  unfoldable pub stream_step : StreamEvent → Stream → Stream
  unfolding make_socket on_message end_connect when_opening when_opened when_there on_open on_close
      close_ws fire_timer stop phase_of
  stream_step (token_ready token) s = end_connect (make_socket token) s
  stream_step token_rejected s = end_connect (λ s'. s') s
  stream_step (socket_opened i) s = when_opening (phase_of i s.sockets) (on_open i) s
  stream_step (socket_message i text) s = when_opened (phase_of i s.sockets) (on_message text) s
  stream_step (socket_errored i) s = when_there (phase_of i s.sockets) close_ws s
  stream_step (socket_closed i) s = when_there (phase_of i s.sockets) (on_close i) s
  stream_step timer_fired s = fire_timer s.timers s
  stream_step stop_called s = stop s

  unfoldable pub stream_run : List StreamEvent → Stream → Stream
  unfolding stream_step
  stream_run [] s = s
  stream_run (e ∷ es) s = stream_run es (stream_step e s)
