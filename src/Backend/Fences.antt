-- ===== src/Backend/Fences.antt =====
-- What a send of sdk/src/transports/backend.mjs carries, in a session of sdk/src/start.mjs that has a
-- lease.
use zed_sync.Prelude.{
  ℕ, true, Option, none, some, [], ◌∷◌, JsString, codes, str_eq, ◌≡◌, refl, arith, if◌then◌else◌,
  Option-cases, inl, inr, ap,
}
use zed_sync.Radix.RoundTrip.{read_digits, read_digits-to_radix}
use zed_sync.Result.{Result, ok, err}
use zed_sync.Json.{Value}
use zed_sync.Lease.{Lease, held, fencing_token_of}
use zed_sync.Backend.{
  Fence, header, HttpRequest, HttpResponse, Outgoing, auth_headers, token_headers, fence_headers,
  send_headers, lease_fence, post_request, fetched, backend_send, answer_of,
}

-- The fence that a request carries, read back from its headers.
unfoldable pub read_token : Option JsString → Option ℕ
read_token none = none
read_token (some digits) = some (read_digits 10 0 digits)

abbrev pub sent_token : HttpRequest → Option ℕ
sent_token r = read_token (header (codes "x-zed-sync-fencing-token") r.headers)

answer_of-ok :
    (r : HttpResponse) (v : Value) → answer_of r ≡ ok v → (r.is_ok ≡ true) × (r.json ≡ ok v)
unfolding answer_of
answer_of-ok r v h = ground arith

fetched-ok :
    (request : HttpRequest) (answer : Result HttpResponse) (v : Value)
    → (fetched request answer).1 ≡ ok v
    → (response : HttpResponse) × ((fetched request answer).0 ≡ request ∷ [])
      × (answer ≡ ok response)
      × (response.is_ok ≡ true)
      × (response.json ≡ ok v)
unfolding fetched
fetched-ok request (ok response) v h =
    let (p, q) = answer_of-ok response v h in (response, refl, refl, p, q)
fetched-ok request (err x) v h = cc

module _ (encode_uri_component : JsString → JsString) where
  -- A send of a session with a lease carries the fencing token of the grant that the lease holds at
  -- that moment, and the lease's key, or neither if it holds none; and it carries the write's key as
  -- its idempotency key.
  pub sent_fence-of_lease :
      (base_url : JsString) (change : Outgoing) (token : Option JsString) (l : Lease)
      → (sent_token (post_request encode_uri_component base_url change token (lease_fence l))
          ≡ fencing_token_of l)
        × (header
              (codes "x-zed-sync-lease-key")
              (post_request encode_uri_component base_url change token (lease_fence l)).headers
            ≡ (if held l then some l.key else none))
        × (header
              (codes "idempotency-key")
              (post_request encode_uri_component base_url change token (lease_fence l)).headers
            ≡ some change.write_key)
  unfolding lease_fence held fencing_token_of read_token header post_request send_headers
      auth_headers fence_headers token_headers str_eq
  sent_fence-of_lease base_url change none l = elim (Option-cases l.handle) [
    | inl n ↦ rw n (refl, refl, refl)
    | inr (h, n) ↦
        rw n (
          ap some (read_digits-to_radix 10 h.fencing_token (omega arith) (omega arith)),
          refl,
          refl,
        )
  ]
  sent_fence-of_lease base_url change (some t) l = elim (Option-cases l.handle) [
    | inl n ↦ rw n (refl, refl, refl)
    | inr (h, n) ↦
        rw n (
          ap some (read_digits-to_radix 10 h.fencing_token (omega arith) (omega arith)),
          refl,
          refl,
        )
  ]

  module _ (fetch : HttpRequest → Result HttpResponse) where
    -- What a send that succeeded tells: one request was made, with the write's key as its idempotency
    -- key, the server answered that it is in order, and the result is what it answered. In all other
    -- cases the send throws, and it never makes a second request.
    pub backend_send-ok :
        (base_url : JsString) (change : Outgoing) (token : Option (Result JsString))
        (fence : Option Fence) (v : Value)
        → (backend_send encode_uri_component fetch base_url change token fence).1 ≡ ok v
        → (request : HttpRequest) × (response : HttpResponse) × ((backend_send encode_uri_component
              fetch base_url change token fence).0
            ≡ request ∷ [])
          × (header (codes "idempotency-key") request.headers ≡ some change.write_key)
          × (fetch request ≡ ok response)
          × (response.is_ok ≡ true)
          × (response.json ≡ ok v)
    unfolding backend_send header str_eq post_request send_headers
    backend_send-ok base_url change none fence v h =
        let request = post_request encode_uri_component base_url change none fence in
        let (response, n, p, q, r) = fetched-ok request (fetch request) v h in
        (request, response, n, refl, p, q, r)
    backend_send-ok base_url change (some (ok t)) fence v h =
        let request = post_request encode_uri_component base_url change (some t) fence in
        let (response, n, p, q, r) = fetched-ok request (fetch request) v h in
        (request, response, n, refl, p, q, r)
    backend_send-ok base_url change (some (err x)) fence v h = cc
