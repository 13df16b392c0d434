-- ===== src/Client/Flush.antt =====
-- `SyncClient` of sdk/src/client.mjs: `flushQueue`, which sends again what is still queued.
use zed_sync.Prelude.{ℕ, ◌+◌, if◌then◌else◌, Option, none, List, [], ◌∷◌, JsString, codes}
use zed_sync.Result.{JsError, ok, err}
use zed_sync.Policy.{ErrorPolicy, throw_only, should_throw, should_emit}
use zed_sync.Core.{QueuedWrite}
use zed_sync.Store.{pending, deref}
use zed_sync.Client.{
  Exec, ◌>>=◌, ◌>>◌, pure, raise, lift, gets, emit, report, require_capability, may_write,
  flush_start, flush_failed, flush_done,
}
use zed_sync.Client.Outgoing.{settle_write}
use zed_sync.Client.Drafts.{Send, do_send, policy_of}

-- One round of the loop of `flushQueue`. The entry is the queue's own object, read when the request
-- is made and again when the response has come.
unfoldable pub flush_one : Option Send → QueuedWrite → Exec (Unit {0})
unfolding settle_write
flush_one send entry = do
  w ← gets (λ c. deref c.store entry)
  v ← do_send send (record {
    table = w.table;
    op = w.op;
    id = w.id;
    row = w.payload;
    version = w.base_version;
    write_key = w.key;
  })
  w' ← gets (λ c. deref c.store entry)
  settle_write w'.table w'.id w'.seq w'.key v w'.base_version

-- The `catch` of that round, which ends the loop with the number sent so far.
unfoldable pub flush_stopped : QueuedWrite → ErrorPolicy → ℕ → JsError → Exec ℕ
unfolding emit report should_emit should_throw
flush_stopped w policy sent e = do
  emit (flush_failed w.table w.id e)
  (if should_emit policy
      then report e (record { table = w.table; id = w.id; op = none; mode = none })
      else pure tt)
  (if should_throw policy then raise e else pure sent)

unfoldable pub flush_loop : Option Send → ErrorPolicy → List QueuedWrite → ℕ → Exec ℕ
unfolding flush_one flush_stopped
flush_loop send policy [] sent c = (ok sent, c)
flush_loop send policy (w ∷ ws) sent c =
    let r = flush_one send w c in
    let rest = flush_loop send policy ws (sent + 1) r.1 in
    elim (r.0) [ ok u ↦ rest | err e ↦ flush_stopped w policy sent e r.1 ]

unfoldable pub flush_queue : Option Send → Option JsString → Exec ℕ
unfolding require_capability policy_of emit flush_loop pending
flush_queue send error_policy = do
  require_capability may_write (codes "flush")
  policy ← lift (policy_of error_policy throw_only)
  emit flush_start
  queue ← gets (λ c. pending c.store)
  sent ← flush_loop send policy queue 0
  emit (flush_done sent)
  pure sent
