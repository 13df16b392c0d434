-- ===== src/Client/Accepted.antt =====
-- One round of `flushQueue` of sdk/src/client.mjs, against a server that accepts every write.
use zed_sync.Prelude.{
  ℕ, ◌+◌, Ordering, true, false, ◌&&◌, ==_iff, none, some, List, [], ◌∷◌, All, JsString, str_eq,
  str_eq_iff, ◌≡◌, ◌≢◌, refl, subst, arith, if◌then◌else◌,
}
use zed_sync.Result.{ok}
use zed_sync.Hlc.{Hlc, compare_hlc}
use zed_sync.Core.{QueuedWrite}
use zed_sync.Store.{
  Store, StoredRow, find_seq, find_row, same_row, get_row, put_row, retire, without_seq,
}
use zed_sync.Store.Settle.{adopted_meta}
use zed_sync.Store.Rows.{no_nul, get_row-put_row}
use zed_sync.Store.Queue.{IsAscending}
use zed_sync.Store.Removal.{without_later}
use zed_sync.Store.Ack.{Matches, settle_ack-Matches, settled}
use zed_sync.Client.{Client}
use zed_sync.Client.Outgoing.{settle_write}
use zed_sync.Client.Drafts.{Send, Request, do_send}
use zed_sync.Client.Flush.{flush_one}
use zed_sync.Client.Alias.{request_of, flush_ack, deref_queued}

-- A server that commits every request at a version of its own, with nothing else going on in the
-- client but time.
pub record Accepts (commit : Request → Hlc) (send : Send) : Type 0 where
  pub takes : Request → ℕ
  pub accepts :
      (r : Request) (c : Client)
      → send r c ≡ (ok (some (commit r)), record c { now = c.now + takes r })

-- The row of a queued write is held at the write's version, and the server does not commit the
-- write at an older one.
pub record IsInStep (commit : Request → Hlc) (s : Store) (w : QueuedWrite) : Type 0 where
  pub nul_free : no_nul w.table ≡ true
  pub held_row : StoredRow
  pub is_held : get_row s w.table w.id ≡ some held_row
  pub at_base : held_row.meta.version ≡ w.base_version
  pub not_older : compare_hlc w.base_version (commit (request_of w)) ≢ Ordering.gt

-- The row of a write that is clean at the version that the server committed, with its payload.
abbrev pub IsCommitted : (Request → Hlc) → Store → Store → QueuedWrite → Type 0
IsCommitted commit s s' w =
    (r : StoredRow) × (r' : StoredRow) × (get_row s w.table w.id ≡ some r)
    × (get_row s' w.table w.id ≡ some r')
    × (r'.row ≡ r.row)
    × (r'.meta.version ≡ commit (request_of w))
    × (r'.meta.dirty ≡ false)

find_seq_head : (w : QueuedWrite) (ws : List QueuedWrite) → find_seq w.seq (w ∷ ws) ≡ some w
unfolding find_seq
find_seq_head w ws = ground (arith, ==_iff w.seq w.seq)

module _ (commit : Request → Hlc) (send : Send) (server : Accepts commit send) where
  -- The state after one entry.
  unfoldable pub after_one : QueuedWrite → StoredRow → Client → Client
  after_one w r c =
      let c' = record c { now = c.now + server.takes (request_of w) } in
      record c' { store = settled c.store (flush_ack w (commit (request_of w)) c'.now) r }

  pub flush_one_accepted :
      (w : QueuedWrite) (ws : List QueuedWrite) (c : Client) (i : IsInStep commit c.store w)
      → c.store.queue ≡ w ∷ ws
      → IsAscending c.store.queue
      → flush_one (some send) w c ≡ (ok tt, after_one w i.held_row c)
  unfolding after_one flush_one settle_write do_send put_row
  flush_one_accepted w ws c i e a =
      let later = c.now + server.takes (request_of w) in
      let o = flush_ack w (commit (request_of w)) later in
      let f : find_seq w.seq c.store.queue ≡ some w = rw (e) (find_seq_head w ws) in
      let m : Matches c.store o w i.held_row = record {
        found = f;
        stored = i.is_held;
        same_id = refl;
        same_key = refl;
        same_base = i.at_base;
        not_past = i.not_older;
      } in
      let d = deref_queued c.store w w f in
      rw
        (
          d,
          flush_one,
          server.accepts (request_of w) c,
          d,
          settle_write,
          settle_ack-Matches c.store o w i.held_row a m,
        )
        refl

  pub after_one-queue :
      (w : QueuedWrite) (r : StoredRow) (ws : List QueuedWrite) (c : Client)
      → c.store.queue ≡ w ∷ ws
      → IsAscending c.store.queue
      → (after_one w r c).store.queue ≡ ws
  unfolding after_one put_row retire without_seq
  after_one-queue w r ws c e a =
      let (l, m) = subst IsAscending e a in
      rw (e) (ground (arith, ==_iff w.seq w.seq, without_later w.seq ws l))

  pub after_one-row :
      (w : QueuedWrite) (r : StoredRow) (c : Client) (t i : JsString)
      → no_nul w.table ≡ true
      → no_nul t ≡ true
      → get_row (after_one w r c).store t i ≡ (
          if str_eq w.table t && str_eq w.id i
          then some (record {
            row = r.row;
            meta = adopted_meta (commit (request_of w)) (c.now + server.takes (request_of w));
          })
          else get_row c.store t i)
  unfolding after_one retire get_row
  after_one-row w r c t i n n' =
      get_row-put_row (retire c.store w.seq) w.table w.id t i
        (adopted_meta (commit (request_of w)) (c.now + server.takes (request_of w))) n n' r.row

  pub after_one-IsInStep :
      (w : QueuedWrite) (r : StoredRow) (c : Client) (ws : List QueuedWrite)
      → no_nul w.table ≡ true
      → find_row w.table w.id ws ≡ none
      → All (IsInStep commit c.store) ws
      → All (IsInStep commit (after_one w r c).store) ws
  unfolding find_row same_row
  after_one-IsInStep w r c [] n f a = tt
  after_one-IsInStep w r c (x ∷ ws) n f (i, a) = (
    record {
      nul_free = i.nul_free;
      held_row = i.held_row;
      is_held = ground (
        arith,
        after_one-row w r c x.table x.id n i.nul_free,
        i.is_held,
        str_eq_iff w.table x.table,
        str_eq_iff w.id x.id,
        str_eq_iff x.table w.table,
        str_eq_iff x.id w.id,
        f,
      );
      at_base = i.at_base;
      not_older = i.not_older;
    },
    after_one-IsInStep w r c ws n (ground (arith, f)) a,
  )
