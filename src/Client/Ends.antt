-- ===== src/Client/Ends.antt =====
-- How the writes of sdk/src/client.mjs end: acknowledged, failed, refused, or overtaken.
use zed_sync.Prelude.{
  ℕ, false, ◌&&◌, if◌then◌else◌, Option, some, JsString, codes, ◌≡◌, ◌≢◌, inl, inr, arith, ap,
}
use zed_sync.Result.{JsError, Result, ok, err, lifecycle_error}
use zed_sync.Hlc.{Hlc}
use zed_sync.Json.{Value}
use zed_sync.Policy.{server_only, should_throw}
use zed_sync.Core.{QueuedWrite}
use zed_sync.Lifecycle.{Snapshot}
use zed_sync.Lifecycle.Capabilities.{app_capabilities}
use zed_sync.Store.{find_seq}
use zed_sync.Store.Settle.{AckOptions, settle_ack}
use zed_sync.Store.Queue.{IsAscending}
use zed_sync.Store.Ack.{settle_ack_cases}
use zed_sync.Client.{Client, surface, require_capability}
use zed_sync.Client.Outgoing.{write_server, awaits_ack, send_now, write}
use zed_sync.Client.Drafts.{
  Send, Request, request, committed_or, do_send, Options, failed, queued, Draft,
}

-- `send` answers the request with `r`, and what ran meanwhile left the state `c'`.
abbrev pub Answers : Option Send → Request → Client → Result (Option Hlc) → Client → Type 0
Answers send q c r c' = do_send send q c ≡ (r, c')

-- A write that the lifecycle does not allow throws, and touches neither the store nor the clock nor
-- the keys.
pub write_refused :
    (send : Option Send) (t i : JsString) (row : Value) (o : Options) (c : Client) {s : Snapshot}
    → c.lifecycle ≡ some s
    → (app_capabilities s).can_write ≡ false
    → ((write send t i row o c).0 ≡ err (lifecycle_error (codes "write")))
      × ((write send t i row o c).1.store ≡ c.store)
      × ((write send t i row o c).1.clock ≡ c.clock)
      × ((write send t i row o c).1.key_seq ≡ c.key_seq)
unfolding write require_capability
write_refused send t i row o c l h = ground arith

-- The acknowledgement that `#settleAck` hands to the store.
abbrev pub ack_options : Client → Draft → ℕ → Option Hlc → AckOptions
ack_options c d n ack = record {
  table = d.table;
  id = d.id;
  seq = n;
  write_key = d.key;
  base_version = d.version;
  committed_version = committed_or ack d.version;
  at = c.now;
}

settle_keeps_newer :
    (c : Client) (d : Draft) (n : ℕ) (ack : Option Hlc) (q : QueuedWrite)
    → IsAscending c.store.queue
    → find_seq n c.store.queue ≡ some q
    → q.key ≢ d.key
    → (settle_ack c.store (ack_options c d n ack)).0 ≡ c.store
settle_keeps_newer c d n ack q asc f k =
    elim (settle_ack_cases c.store (ack_options c d n ack) asc) [
      | inl u ↦ ap (λ x. x.0) u.0
      | inr (q', r, m, e) ↦ absurd (k (cc (m.found, m.same_key, f)))
    ]

module _ (send : Option Send) (d : Draft) (c c' : Client) where
  -- A server-first or server-only write that is rejected stores nothing, and its error is thrown
  -- exactly if the error policy says so.
  pub write_server_rejected :
      (e : JsError)
      → Answers send (request d d.row) c (err e) c'
      → ((write_server send d c).1.store ≡ c'.store)
        × ((write_server send d c).0 ≡ (
            if should_throw d.policy
            then err e
            else ok (record { status = failed; version = d.version })))
  unfolding write_server surface
  write_server_rejected e a = ground arith

  -- A server-only write leaves the store to the change feed also when it is acknowledged.
  pub server_only_stores_nothing :
      (r : Result (Option Hlc))
      → d.mode ≡ server_only
      → Answers send (request d d.row) c r c'
      → (write_server send d c).1.store ≡ c'.store
  unfolding write_server
  server_only_stores_nothing r m a = ground arith

  -- An optimistic send that fails leaves the store as it was when the failure arrived, and reports
  -- the write as queued; the failure is thrown instead only under `optimistic_await_ack`, and only
  -- if the error policy says so.
  pub send_now_failed :
      (v : Value) (n : ℕ) (e : JsError)
      → Answers send (request d v) c (err e) c'
      → ((send_now send d v n c).1.store ≡ c'.store)
        × ((send_now send d v n c).0 ≡ (
            if awaits_ack d.mode && should_throw d.policy
            then err e
            else ok (record { status = queued; version = d.version })))
  unfolding send_now surface
  send_now_failed v n e a = ground arith

  -- If, while the request was under way, a write with another key took the slot over in a queue in
  -- ascending order, the late response changes nothing in the store.
  pub late_ack_keeps_newer_write :
      (v : Value) (n : ℕ) (ack : Option Hlc) (q : QueuedWrite)
      → Answers send (request d v) c (ok ack) c'
      → IsAscending c'.store.queue
      → find_seq n c'.store.queue ≡ some q
      → q.key ≢ d.key
      → (send_now send d v n c).1.store ≡ c'.store
  unfolding send_now
  late_ack_keeps_newer_write v n ack q a asc f k =
      ground (arith, settle_keeps_newer c' d n ack q asc f k)
