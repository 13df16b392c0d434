-- ===== src/Examples/Backends.antt =====
-- The backend transport at concrete inputs.
use zed_sync.Prelude.{
  true, false, if◌then◌else◌, none, some, List, [], ◌∷◌, ◌++◌, codes, str_eq, ◌≡◌, refl, arith,
}
use zed_sync.Result.{Result, ok}
use zed_sync.Json.{Value, string, object, array, field, end, cons, nil, number}
use zed_sync.Lease.{Lease, held, fencing_token_of}
use zed_sync.Backend.{
  Outgoing, HttpRequest, HttpResponse, header, lease_fence, post_request, backend_send,
  strip_slashes,
}
use zed_sync.Backend.Fences.{sent_token, sent_fence-of_lease}
use zed_sync.Backend.Stream.{
  Browser, StreamEvent, token_ready, token_rejected, socket_opened, socket_message, socket_errored,
  socket_closed, timer_fired, stop_called, initial_stream, stream_url, stream_run,
}
use zed_sync.Backend.Stream.Single.{under_way, stream_stays_connected}
use zed_sync.Backend.Stream.Ends.{effects, token_failure_ends_stream}
use zed_sync.Backend.Stream.Stops.{stop_ends_stream, IsClosing}
use zed_sync.Backend.Stream.Backoff.{failed_attempts, failed_attempts_back_off}

-- A message that brings one change.
abbrev frame : Value
frame = object (
    field (codes "event") (string (codes "zed:sync")) (
      field (codes "changes")
        (array (
          cons
            (object (field (codes "version") (object (field (codes "wall_ms") (number 5) end)) end))
            nil))
        end))

abbrev browser : Browser
browser = record {
  encode_uri_component = λ s. s;
  parse_json = λ text. if str_eq text (codes "{}") then some frame else none;
  to_string = λ v. codes "x";
  url = stream_url (codes "https://sync.example//") (codes "/ws");
}

url_test : browser.url ≡ codes "wss://sync.example/ws"
unfolding stream_url strip_slashes
url_test = refl

-- A connection that opens, brings a change, and breaks; the next attempt fails.
abbrev events : List StreamEvent
events =
    token_ready (some (codes "t0"))
    ∷ socket_opened 0
    ∷ socket_message 0 (some (codes "{}"))
    ∷ socket_message 0 (some (codes "?"))
    ∷ socket_errored 0
    ∷ socket_closed 0
    ∷ timer_fired
    ∷ token_ready none
    ∷ socket_closed 1
    ∷ timer_fired
    ∷ []

stream_test : (effects (stream_run browser events initial_stream)).0 ≡ 2
unfolding stream_run initial_stream
stream_test = refl

stream_stays_connected_example : under_way (stream_run browser events initial_stream) ≡ 1
stream_stays_connected_example =
    stream_stays_connected browser events
      (tt, (tt, (tt, (tt, (tt, (tt, (tt, (tt, (tt, (tt, tt))))))))))

token_failure_ends_stream_example :
    (effects
        (stream_run browser (token_rejected ∷ events) (stream_run browser events initial_stream))
      ≡ effects (stream_run browser events initial_stream))
    × (under_way
          (stream_run browser (token_rejected ∷ events) (stream_run browser events initial_stream))
        ≡ 0)
unfolding stream_run initial_stream
token_failure_ends_stream_example = token_failure_ends_stream browser events events (omega arith)

stop_ends_stream_example :
    IsClosing
      (stream_run browser (stop_called ∷ events) (stream_run browser events initial_stream)).sockets
    × (effects
          (stream_run browser (stop_called ∷ events) (stream_run browser events initial_stream))
        ≡ effects (stream_run browser events initial_stream))
stop_ends_stream_example = stop_ends_stream browser events events

failed_attempts_back_off_example :
    (stream_run browser
      (failed_attempts none 0 3 ++ token_ready none ∷ socket_closed 3 ∷ [])
      initial_stream).timers
    ≡ 4000 ∷ []
failed_attempts_back_off_example = failed_attempts_back_off browser none 3

abbrev outgoing : Outgoing
outgoing = record { table = codes "notes"; write_key = codes "phone-1-2"; text = codes "{}" }

abbrev holding : Lease
holding = record {
  key = codes "zed-sync/flusher/db/phone";
  ttl_ms = 30000;
  renew_interval_ms = 10000;
  renew_failure_limit = 3;
  handle = some (record { ident = 1; fencing_token = 41; lease_expires_ms = none });
  timer = some 10000;
  failures = 0;
  acquiring = false;
  lost_calls = 0;
  renew_errors = [];
}

sent_fence-of_lease_example :
    (sent_token (post_request (λ s. s) (codes "https://h/") outgoing none (lease_fence holding))
      ≡ some 41)
    × (header
          (codes "x-zed-sync-lease-key")
          (post_request (λ s. s) (codes "https://h/") outgoing none (lease_fence holding)).headers
        ≡ some (codes "zed-sync/flusher/db/phone"))
    × (header
          (codes "idempotency-key")
          (post_request (λ s. s) (codes "https://h/") outgoing none (lease_fence holding)).headers
        ≡ some (codes "phone-1-2"))
unfolding held fencing_token_of
sent_fence-of_lease_example =
    sent_fence-of_lease (λ s. s) (codes "https://h/") outgoing none holding

abbrev answering : HttpRequest → Result HttpResponse
answering request = ok (record { is_ok = true; status = 200; json = ok (number 7) })

abbrev sending : List HttpRequest × Result Value
sending = backend_send (λ s. s) answering (codes "https://h/") outgoing (some (ok (codes "t"))) none
