-- ===== src/Client/Alias.antt =====
-- `flushQueue` of sdk/src/client.mjs over the in-memory store, whose `pending` hands out the
-- queue's own objects.
use zed_sync.Prelude.{
  ℕ, Ordering, true, Option, none, some, str_eq_refl, ◌≡◌, ◌≢◌, refl, arith, sym, subst,
}
use zed_sync.Result.{ok}
use zed_sync.Hlc.{Hlc, compare_hlc}
use zed_sync.Core.{QueuedWrite}
use zed_sync.Store.{Store, StoredRow, find_seq, get_row, put_row, retire, deref}
use zed_sync.Store.Settle.{AckOptions, adopted_meta, settle_ack}
use zed_sync.Store.Rows.{no_nul, get_row-put_row}
use zed_sync.Store.Queue.{IsValid}
use zed_sync.Store.Removal.{find_seq-seq, find_seq-without}
use zed_sync.Store.Ack.{Matches, settle_ack-Matches}
use zed_sync.Client.{Client}
use zed_sync.Client.Outgoing.{settle_write}
use zed_sync.Client.Drafts.{Send, Request}
use zed_sync.Client.Flush.{flush_one}
use zed_sync.Client.Ends.{Answers}

-- The request for a queued write.
abbrev pub request_of : QueuedWrite → Request
request_of w = record {
  table = w.table;
  op = w.op;
  id = w.id;
  row = w.payload;
  version = w.base_version;
  write_key = w.key;
}

-- What `flushQueue` settles for an entry whose object now holds `w`.
abbrev pub flush_ack : QueuedWrite → Hlc → ℕ → AckOptions
flush_ack w v now = record {
  table = w.table;
  id = w.id;
  seq = w.seq;
  write_key = w.key;
  base_version = w.base_version;
  committed_version = v;
  at = now;
}

pub deref_queued : (s : Store) (w q : QueuedWrite) → find_seq w.seq s.queue ≡ some q → deref s w ≡ q
unfolding deref
deref_queued s w q h = rw (h, deref)

-- The response to a flushed entry settles what the entry's object holds by then.
flush_one_settles :
    (send : Option Send) (c c' : Client) (w q q' : QueuedWrite) (v : Hlc)
    → find_seq w.seq c.store.queue ≡ some q
    → Answers send (request_of q) c (ok (some v)) c'
    → find_seq w.seq c'.store.queue ≡ some q'
    → (flush_one send w c).1.store ≡ (settle_ack c'.store (flush_ack q' v c'.now)).0
unfolding flush_one settle_write
flush_one_settles send c c' w q q' v f a f' =
    ground (arith, deref_queued c.store w q f, deref_queued c'.store w q' f')

-- Flushing an entry over a well-formed in-memory store retires the write `q'` that the slot holds
-- when the response arrives, whichever write `q` was sent, provided that its table name has no
-- U+0000, the row is at the version of `q'` and the committed version is not older: `q'` leaves the
-- queue, and its row becomes clean at the committed version.
pub flush_retires_newer_write :
    (send : Option Send) (c c' : Client) (w q q' : QueuedWrite) (r : StoredRow) (v : Hlc)
    → find_seq w.seq c.store.queue ≡ some q
    → Answers send (request_of q) c (ok (some v)) c'
    → IsValid c'.store
    → find_seq w.seq c'.store.queue ≡ some q'
    → no_nul q'.table ≡ true
    → get_row c'.store q'.table q'.id ≡ some r
    → r.meta.version ≡ q'.base_version
    → compare_hlc q'.base_version v ≢ Ordering.gt
    → (find_seq w.seq (flush_one send w c).1.store.queue ≡ none)
      × (get_row (flush_one send w c).1.store q'.table q'.id
          ≡ some (record { row = r.row; meta = adopted_meta v c'.now }))
unfolding put_row retire
flush_retires_newer_write send c c' w q q' r v f a valid f' n g b older =
    let e : q'.seq ≡ w.seq = find_seq-seq w.seq c'.store.queue q' f' in
    let m : Matches c'.store (flush_ack q' v c'.now) q' r = record {
      found = subst (λ n. find_seq n c'.store.queue ≡ some q') (sym e) f';
      stored = g;
      same_id = refl;
      same_key = refl;
      same_base = b;
      not_past = older;
    } in
    rw
      (
        flush_one_settles send c c' w q q' v f a f',
        settle_ack-Matches c'.store (flush_ack q' v c'.now) q' r valid.ascending m,
      )
      (
        ground (arith, find_seq-without q'.seq w.seq c'.store.queue),
        ground (
          arith,
          get_row-put_row (retire c'.store q'.seq) q'.table q'.id q'.table q'.id
              (adopted_meta v c'.now) n n r.row,
          str_eq_refl q'.table,
          str_eq_refl q'.id,
        ),
      )
