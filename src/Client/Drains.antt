-- ===== src/Client/Drains.antt =====
-- `flushQueue` of sdk/src/client.mjs against a server that accepts every write.
use zed_sync.Prelude.{
  ℕ, ◌+◌, true, Option, none, some, List, [], ◌∷◌, length, All, JsString, str_eq_iff, str_eq_refl,
  codes, ◌≡◌, refl, sym, subst, ap, ◌∙◌, arith,
}
use zed_sync.Result.{Result, ok, err}
use zed_sync.Hlc.{Hlc}
use zed_sync.Policy.{ErrorPolicy, throw_only}
use zed_sync.Core.{QueuedWrite}
use zed_sync.Store.{Store, StoredRow, find_row, same_row, get_row, pending}
use zed_sync.Store.Settle.{adopted_meta}
use zed_sync.Store.Rows.{no_nul}
use zed_sync.Store.Queue.{IsValid, IsAscending, HasOneSlot}
use zed_sync.Client.{Client, emit, flush_start, flush_done, may_write, require_capability}
use zed_sync.Client.Drafts.{Send, Request, policy_of}
use zed_sync.Client.Flush.{flush_one, flush_stopped, flush_loop, flush_queue}
use zed_sync.Client.Alias.{request_of}
use zed_sync.Client.Accepted.{
  Accepts, IsInStep, IsCommitted, after_one, flush_one_accepted, after_one-queue, after_one-row,
  after_one-IsInStep,
}

-- A round of the loop that settles its entry.
flush_loop-next :
    (send : Option Send) (policy : ErrorPolicy) (w : QueuedWrite) (ws : List QueuedWrite) (sent : ℕ)
    (c c' : Client)
    → flush_one send w c ≡ (ok tt, c')
    → flush_loop send policy (w ∷ ws) sent c ≡ flush_loop send policy ws (sent + 1) c'
unfolding flush_loop
flush_loop-next send policy w ws sent c c' e =
    subst
      (λ (r : Result (Unit {0}) × Client).
        (elim (r.0) as (λ _. Result ℕ × Client) [
          | ok u ↦ flush_loop send policy ws (sent + 1) r.1
          | err x ↦ flush_stopped w policy sent x r.1
        ])
        ≡ flush_loop send policy ws (sent + 1) c')
      (sym e) refl

module _ (commit : Request → Hlc) (send : Send) (server : Accepts commit send) where
  -- What the loop leaves.
  record Drained (ws : List QueuedWrite) (sent : ℕ) (c : Client) (p : Result ℕ × Client)
      : Type 0 where
    all_sent : p.0 ≡ ok (sent + length ws)
    emptied : p.1.store.queue ≡ []
    committed : All (IsCommitted commit c.store p.1.store) ws
    others :
        (t i : JsString)
        → no_nul t ≡ true
        → find_row t i ws ≡ none
        → get_row p.1.store t i ≡ get_row c.store t i

  -- An entry whose row the rest of the loop leaves alone.
  committed_now :
      (w : QueuedWrite) (s' : Store) (c : Client) (i : IsInStep commit c.store w)
      → get_row s' w.table w.id
        ≡ get_row (after_one commit send server w i.held_row c).store w.table w.id
      → IsCommitted commit c.store s' w
  committed_now w s' c i e =
      let r : StoredRow = record {
        row = i.held_row.row;
        meta = adopted_meta (commit (request_of w)) (c.now + server.takes (request_of w));
      } in
      let e' : get_row (after_one commit send server w i.held_row c).store w.table w.id ≡ some r =
        ground (
          arith,
          after_one-row commit send server w i.held_row c w.table w.id i.nul_free i.nul_free,
          str_eq_refl w.table,
          str_eq_refl w.id,
        ) in
      (i.held_row, r, i.is_held, e ∙ e', refl, refl, refl)

  -- What the loop commits after the first entry, seen from before it.
  committed_later :
      (w : QueuedWrite) (r : StoredRow) (c : Client) (s' : Store) (ws : List QueuedWrite)
      → no_nul w.table ≡ true
      → find_row w.table w.id ws ≡ none
      → All (IsInStep commit c.store) ws
      → All (IsCommitted commit (after_one commit send server w r c).store s') ws
      → All (IsCommitted commit c.store s') ws
  unfolding find_row same_row
  committed_later w r c s' [] n f a k = tt
  committed_later w r c s' (x ∷ ws) n f (i, a) ((q, q', e, e', x1, x2, x3), k) = (
    (
      q,
      q',
      ground (
        arith,
        after_one-row commit send server w r c x.table x.id n i.nul_free,
        e,
        str_eq_iff w.table x.table,
        str_eq_iff w.id x.id,
        str_eq_iff x.table w.table,
        str_eq_iff x.id w.id,
        f,
      ),
      e',
      x1,
      x2,
      x3,
    ),
    committed_later w r c s' ws n (ground (arith, f)) a k,
  )

  flush_loop-Drained :
      (policy : ErrorPolicy) (ws : List QueuedWrite) (sent : ℕ) (c : Client)
      → c.store.queue ≡ ws
      → IsAscending ws
      → HasOneSlot ws
      → All (IsInStep commit c.store) ws
      → Drained ws sent c (flush_loop (some send) policy ws sent c)
  unfolding flush_loop find_row same_row
  flush_loop-Drained policy [] sent c e a o k = record {
    all_sent = ap ok (omega arith);
    emptied = e;
    committed = tt;
    others = λ t i n f. refl;
  }
  flush_loop-Drained policy (w ∷ ws) sent c e (l, a) (f, o) (i, k) =
      let c1 = after_one commit send server w i.held_row c in
      let asc = subst IsAscending (sym e) (l, a) in
      let d =
        flush_loop-Drained policy ws (sent + 1) c1
          (after_one-queue commit send server w i.held_row ws c e asc) a o
          (after_one-IsInStep commit send server w i.held_row c ws i.nul_free f k) in
      subst (Drained (w ∷ ws) sent c)
        (sym (
          flush_loop-next (some send) policy w ws sent c c1
            (flush_one_accepted commit send server w ws c i e asc)))
        (record {
          all_sent = d.all_sent ∙ ap ok (omega arith);
          emptied = d.emptied;
          committed = (
            committed_now w _ c i (d.others w.table w.id i.nul_free f),
            committed_later w i.held_row c _ ws i.nul_free f k d.committed,
          );
          others = λ t j n g.
              d.others t j n (ground (arith, g))
              ∙ ground (arith, g, after_one-row commit send server w i.held_row c t j i.nul_free n);
        })

flush_queue-flush_loop :
    (send : Option Send) (policy : Option JsString) (p : ErrorPolicy) (c c' : Client) (n : ℕ)
    → require_capability may_write (codes "flush") c ≡ (ok tt, c)
    → policy_of policy throw_only ≡ ok p
    → flush_loop send p c.store.queue 0 (emit flush_start c).1 ≡ (ok n, c')
    → flush_queue send policy c ≡ (ok n, (emit (flush_done n) c').1)
unfolding flush_queue emit pending
flush_queue-flush_loop send policy p c c' n r e l = rw (r, e, l, flush_queue) refl

-- Flushing a well-formed queue whose every write is in step with its row, on a client that may
-- write, against a server that accepts every request while only time goes by: all of the queue is
-- sent, the queue is empty afterwards, and each row is clean at the version that the server
-- committed for its write's own request, with the payload that it had.
pub flush_drains :
    (commit : Request → Hlc) (send : Send) (policy : Option JsString) (p : ErrorPolicy) (c : Client)
    → Accepts commit send
    → require_capability may_write (codes "flush") c ≡ (ok tt, c)
    → policy_of policy throw_only ≡ ok p
    → IsValid c.store
    → All (IsInStep commit c.store) c.store.queue
    → ((flush_queue (some send) policy c).0 ≡ ok (length c.store.queue))
      × ((flush_queue (some send) policy c).1.store.queue ≡ [])
      × All (IsCommitted commit c.store (flush_queue (some send) policy c).1.store) c.store.queue
unfolding emit
flush_drains commit send policy p c server r e v k =
    let c' = (emit flush_start c).1 in
    let l = flush_loop (some send) p c.store.queue 0 c' in
    let d =
      flush_loop-Drained commit send server p c.store.queue 0 c' refl v.ascending v.one_slot k in
    let n = length c.store.queue in
    subst
      (λ (q : Result ℕ × Client).
        (q.0 ≡ ok n)
        × (q.1.store.queue ≡ [])
        × All (IsCommitted commit c.store q.1.store) c.store.queue)
      (sym (
        flush_queue-flush_loop (some send) policy p c l.1 n r e
          (ap (λ (x : Result ℕ). (x, l.1)) (d.all_sent ∙ ap ok (omega arith)))))
      (refl, d.emptied, d.committed)
