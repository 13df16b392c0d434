-- ===== src/Client/Copies.antt =====
-- `flushQueue` of sdk/src/client.mjs over a store whose `pending` hands out copies of the entries,
-- as the IndexedDB store does: what it settles is what it sent. Client/Alias is about the other kind.
use zed_sync.Prelude.{Option, some, ◌≡◌, ◌≢◌, ap, inl, inr, arith}
use zed_sync.Result.{ok}
use zed_sync.Hlc.{Hlc}
use zed_sync.Core.{QueuedWrite}
use zed_sync.Store.{Store, find_seq}
use zed_sync.Store.Settle.{AckOptions, settle_ack}
use zed_sync.Store.Queue.{IsAscending}
use zed_sync.Store.Ack.{settle_ack_cases}
use zed_sync.Client.{Client, Exec, ◌>>=◌}
use zed_sync.Client.Outgoing.{settle_write}
use zed_sync.Client.Drafts.{Send, do_send, committed_or}
use zed_sync.Client.Ends.{Answers}
use zed_sync.Client.Alias.{request_of, flush_ack}

-- One round of the loop, on an entry that nobody else writes to.
unfoldable pub flush_copy : Option Send → QueuedWrite → Exec (Unit {0})
unfolding settle_write
flush_copy send w = do
  v ← do_send send (request_of w)
  settle_write w.table w.id w.seq w.key v w.base_version

settle_other_key :
    (s : Store) (o : AckOptions) (q : QueuedWrite)
    → IsAscending s.queue
    → find_seq o.seq s.queue ≡ some q
    → q.key ≢ o.write_key
    → (settle_ack s o).0 ≡ s
settle_other_key s o q a f k = elim (settle_ack_cases s o a) [
  | inl u ↦ ap (λ (p : Store × _). p.0) u.0
  | inr (q', r, m, e) ↦ ground (arith, k, f, m.found, m.same_key)
]

-- If, while an entry of such a store was being flushed, a write with another key took its slot over
-- in a queue in ascending order, the response changes nothing in the store: the newer write stays
-- queued and its row stays as it was.
pub copied_flush_keeps_newer_write :
    (send : Option Send) (c c' : Client) (w q : QueuedWrite) (ack : Option Hlc)
    → Answers send (request_of w) c (ok ack) c'
    → IsAscending c'.store.queue
    → find_seq w.seq c'.store.queue ≡ some q
    → q.key ≢ w.key
    → (flush_copy send w c).1.store ≡ c'.store
unfolding flush_copy settle_write
copied_flush_keeps_newer_write send c c' w q ack a asc f k =
    rw (a, flush_copy)
      (settle_other_key c'.store (flush_ack w (committed_or ack w.base_version) c'.now) q asc f k)
