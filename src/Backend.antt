-- ===== src/Backend.antt =====
-- `makeBackendSender` of sdk/src/transports/backend.mjs, the HTTP write path. `fetch`,
-- `encodeURIComponent` and `JSON.stringify` are parameters; the token and the fence are what
-- `getToken` and `getFence` answered. Stream has the read path.
pub mod Fences
pub mod Stream
use zed_sync.Prelude.{
  ℕ, Bool, true, false, ◌&&◌, ◌==◌, if◌then◌else◌, Option, none, some, List, [], ◌∷◌, ◌++◌,
  JsString, codes, str_eq,
}
use zed_sync.Result.{Result, JsError, ok, err, send_failed}
use zed_sync.Json.{Value}
use zed_sync.Radix.{to_radix}
use zed_sync.Lease.{Lease, held, fencing_token_of}

abbrev pub is_empty : JsString → Bool
is_empty [] = true
is_empty (c ∷ s) = false

-- `url.replace(/\/+$/, "")`
unfoldable pub strip_slashes : JsString → JsString
strip_slashes [] = []
strip_slashes (c ∷ s) =
    let rest = strip_slashes s in if c == 47 && is_empty rest then [] else c ∷ rest

-- What `getFence` answers.
pub record Fence : Type 0 where
  pub key : JsString
  pub token : Option ℕ

abbrev pub Header : Type 0
Header = JsString × JsString

-- The value of a header; the names are lower case as they are written.
unfoldable pub header : JsString → List Header → Option JsString
header name [] = none
header name ((n, v) ∷ hs) = if str_eq n name then some v else header name hs

pub record HttpRequest : Type 0 where
  pub url : JsString
  pub method : JsString
  pub headers : List Header
  pub body : JsString

pub record HttpResponse : Type 0 where
  pub is_ok : Bool
  pub status : ℕ
  -- What `json()` answers.
  pub json : Result Value

-- `authorization`, if there is a `getToken`.
unfoldable pub auth_headers : Option JsString → List Header
auth_headers none = []
auth_headers (some token) = (codes "authorization", codes "Bearer " ++ token) ∷ []

unfoldable pub token_headers : JsString → Option ℕ → List Header
token_headers key none = []
token_headers key (some token) =
    (codes "x-zed-sync-lease-key", key) ∷ (codes "x-zed-sync-fencing-token", to_radix 10 token) ∷ []

unfoldable pub fence_headers : Option Fence → List Header
unfolding token_headers
fence_headers none = []
fence_headers (some fence) = token_headers fence.key fence.token

unfoldable pub send_headers : JsString → Option JsString → Option Fence → List Header
unfolding auth_headers fence_headers
send_headers write_key token fence =
    (codes "content-type", codes "application/json")
    ∷ (codes "idempotency-key", write_key)
    ∷ (auth_headers token ++ fence_headers fence)

-- `if (!res.ok) throw …; return res.json()`
unfoldable pub answer_of : HttpResponse → Result Value
answer_of r = if r.is_ok then r.json else err (send_failed r.status)

-- The request that was made, with what comes of `fetch`'s answer.
unfoldable pub fetched : HttpRequest → Result HttpResponse → List HttpRequest × Result Value
unfolding answer_of
fetched request (ok response) = (request ∷ [], answer_of response)
fetched request (err x) = (request ∷ [], err x)

-- The change to send: its table and key, and the text that it is serialised to.
pub record Outgoing : Type 0 where
  pub table : JsString
  pub write_key : JsString
  pub text : JsString

-- `getFence` of the sender that `startSync` makes.
unfoldable pub lease_fence : Lease → Option Fence
unfolding held fencing_token_of
lease_fence l = if held l then some (record { key = l.key; token = fencing_token_of l }) else none

module _ (encode_uri_component : JsString → JsString) where
  unfoldable pub post_request : JsString → Outgoing → Option JsString → Option Fence → HttpRequest
  unfolding strip_slashes send_headers
  post_request base_url change token fence = record {
    url = strip_slashes base_url ++ (codes "/api/sync/" ++ encode_uri_component change.table);
    method = codes "POST";
    headers = send_headers change.write_key token fence;
    body = change.text;
  }

  module _ (fetch : HttpRequest → Result HttpResponse) where
    -- The sender: the requests that it made, and what it ends with.
    unfoldable pub backend_send :
        JsString
        → Outgoing
        → Option (Result JsString)
        → Option Fence
        → List HttpRequest × Result Value
    unfolding post_request fetched
    backend_send base_url change none fence =
        let request = post_request base_url change none fence in fetched request (fetch request)
    backend_send base_url change (some (ok token)) fence =
        let request = post_request base_url change (some token) fence in
        fetched request (fetch request)
    backend_send base_url change (some (err x)) fence = ([], err x)
