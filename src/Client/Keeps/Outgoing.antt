-- ===== src/Client/Keeps/Outgoing.antt =====
-- `write` and `flushQueue` of sdk/src/client.mjs keep the write queue well formed.
use zed_sync.Prelude.{ℕ, ◌+◌, Option, none, some, List, [], ◌∷◌, JsString}
use zed_sync.Result.{JsError, Result, ok, err}
use zed_sync.Hlc.{Hlc}
use zed_sync.Json.{Value}
use zed_sync.Policy.{WriteMode, local_only, server_first, server_only, ErrorPolicy}
use zed_sync.Core.{Op, upsert, delete, QueuedWrite}
use zed_sync.Store.{Store, StoredRow, Write, enqueue}
use zed_sync.Store.Queue.{IsValid}
use zed_sync.Store.Enqueue.{enqueue-IsValid}
use zed_sync.Store.Ack.{settle_ack-IsValid, put_row-IsValid}
use zed_sync.Client.{Client, pure, modify_store}
use zed_sync.Client.Outgoing.{
  write_server, put_local, put_as, store_acked_as, overflow, enqueue_write, settle_write, send_now,
  write_locally, then_send, write_as, write_optimistic, store_acked, write_draft, write,
}
use zed_sync.Client.Drafts.{Send, Request, do_send, Options, Draft, draft}
use zed_sync.Client.Flush.{flush_one, flush_stopped, flush_loop, flush_queue}
use zed_sync.Client.Keeps.{
  Keeps, Keeps-then, Keeps-pure, Keeps-modify, Keeps-surface, Keeps-require, keeps_rules,
}
use zed_sync.Client.Keeps.Incoming.{remove_row-IsValid}

-- The environment keeps the queue well formed while a request is under way.
abbrev pub IsKind : Option Send → Type 0
IsKind none = Unit
IsKind (some send) = (r : Request) → Keeps (send r)

Keeps-do_send : (send : Option Send) (r : Request) → IsKind send → Keeps (do_send send r)
unfolding do_send
Keeps-do_send none r k = search keeps_rules
Keeps-do_send (some send) r k = k r

Keeps-settle_write :
    (t i : JsString) (n : ℕ) (key : JsString) (v : Option Hlc) (b : Hlc)
    → Keeps (settle_write t i n key v b)
unfolding settle_write
Keeps-settle_write t i n key v b = record { at = λ c w. settle_ack-IsValid c.store _ w }

Keeps-overflow : (q : Option QueuedWrite) → Keeps (overflow q)
unfolding overflow
Keeps-overflow none = search keeps_rules
Keeps-overflow (some q) = search (keeps_rules, Keeps-surface)

Keeps-enqueue_write : (w : Write) → Keeps (enqueue_write w)
unfolding enqueue_write
Keeps-enqueue_write w = record {
  at = λ c v.
      let r = enqueue c.store w in
      (Keeps-then (overflow r.dropped) (pure r.seq) (Keeps-overflow r.dropped)
          (Keeps-pure r.seq)).at
        (record c { store = r.store }) (enqueue-IsValid c.store w v);
}

put_as-IsValid :
    (o : Op) (d : Draft) (x : Option StoredRow) (s : Store) → IsValid s → IsValid (put_as o d x s)
unfolding put_as
put_as-IsValid delete d x s v = remove_row-IsValid s d.table d.id _ v
put_as-IsValid upsert d x s v = put_row-IsValid s d.table d.id _ _ v

Keeps-put_local : (d : Draft) (x : Option StoredRow) → Keeps (modify_store (put_local d x))
unfolding put_local
Keeps-put_local d x = Keeps-modify (put_local d x) (λ s v. put_as-IsValid d.op d x s v)

Keeps-store_acked : (m : WriteMode) (d : Draft) (v : Option Hlc) → Keeps (store_acked_as m d v)
unfolding store_acked_as modify_store
Keeps-store_acked server_first d v = record {
  at = λ c k. put_row-IsValid c.store d.table d.id d.row _ k;
}
Keeps-store_acked _ d v = record { at = λ c k. k }

Keeps-draft : (t i : JsString) (row : Value) (o : Options) → Keeps (draft t i row o)
unfolding draft
Keeps-draft t i row o = search keeps_rules depth 12

Keeps-write_server : (send : Option Send) (d : Draft) → IsKind send → Keeps (write_server send d)
unfolding write_server store_acked
Keeps-write_server send d k =
    search (keeps_rules, Keeps-do_send, Keeps-surface, Keeps-store_acked) depth 12

pub Keeps-write_locally : (d : Draft) → Keeps (write_locally d)
unfolding write_locally
Keeps-write_locally d = search (keeps_rules, Keeps-put_local, Keeps-enqueue_write) depth 12

Keeps-send_now :
    (send : Option Send) (d : Draft) (v : Value) (n : ℕ) → IsKind send → Keeps (send_now send d v n)
unfolding send_now
Keeps-send_now send d v n k =
    search (keeps_rules, Keeps-do_send, Keeps-surface, Keeps-settle_write) depth 12

Keeps-then_send :
    (m : WriteMode) (send : Option Send) (d : Draft) (v : Value) (n : ℕ)
    → IsKind send
    → Keeps (then_send m send d v n)
unfolding then_send
Keeps-then_send local_only send d v n k = search keeps_rules
Keeps-then_send _ send d v n k = Keeps-send_now send d v n k

Keeps-write_optimistic :
    (send : Option Send) (d : Draft) → IsKind send → Keeps (write_optimistic send d)
unfolding write_optimistic
Keeps-write_optimistic send d k = search (keeps_rules, Keeps-write_locally, Keeps-then_send) depth 8

Keeps-write_as :
    (m : WriteMode) (send : Option Send) (d : Draft) → IsKind send → Keeps (write_as m send d)
unfolding write_as
Keeps-write_as server_first send d k = Keeps-write_server send d k
Keeps-write_as server_only send d k = Keeps-write_server send d k
Keeps-write_as _ send d k = Keeps-write_optimistic send d k

Keeps-write :
    (send : Option Send) (t i : JsString) (row : Value) (o : Options)
    → IsKind send
    → Keeps (write send t i row o)
unfolding write write_draft
Keeps-write send t i row o k =
    search (keeps_rules, Keeps-require, Keeps-draft, Keeps-write_as) depth 8

Keeps-flush_one : (send : Option Send) (w : QueuedWrite) → IsKind send → Keeps (flush_one send w)
unfolding flush_one
Keeps-flush_one send w k = search (keeps_rules, Keeps-do_send, Keeps-settle_write) depth 12

Keeps-flush_stopped :
    (w : QueuedWrite) (p : ErrorPolicy) (n : ℕ) (e : JsError) → Keeps (flush_stopped w p n e)
unfolding flush_stopped
Keeps-flush_stopped w p n e = search keeps_rules depth 12

flush_next :
    (r : Result (Unit {0})) (w : QueuedWrite) (p : ErrorPolicy) (n : ℕ) (c : Client)
    (rest : Result ℕ × Client)
    → IsValid c.store
    → IsValid rest.1.store
    → IsValid
        (elim r as (λ _. Result ℕ × Client) [
          | ok u ↦ rest
          | err e ↦ flush_stopped w p n e c
        ]).1.store
flush_next (ok u) w p n c rest v k = k
flush_next (err e) w p n c rest v k = (Keeps-flush_stopped w p n e).at c v

Keeps-flush_loop :
    (send : Option Send) (p : ErrorPolicy) (ws : List QueuedWrite) (n : ℕ) (c : Client)
    → IsKind send
    → IsValid c.store
    → IsValid (flush_loop send p ws n c).1.store
unfolding flush_loop
Keeps-flush_loop send p [] n c k v = v
Keeps-flush_loop send p (w ∷ ws) n c k v =
    let v' = (Keeps-flush_one send w k).at c v in
    flush_next (flush_one send w c).0 w p n (flush_one send w c).1 _ v'
      (Keeps-flush_loop send p ws (n + 1) (flush_one send w c).1 k v')

Keeps-flush_all :
    (send : Option Send) (p : ErrorPolicy) (ws : List QueuedWrite) (n : ℕ)
    → IsKind send
    → Keeps (flush_loop send p ws n)
Keeps-flush_all send p ws n k = record { at = λ c v. Keeps-flush_loop send p ws n c k v }

Keeps-flush_queue :
    (send : Option Send) (o : Option JsString) → IsKind send → Keeps (flush_queue send o)
unfolding flush_queue
Keeps-flush_queue send o k = search (keeps_rules, Keeps-require, Keeps-flush_all) depth 12

-- A write in any mode, with any options, keeps the write queue well formed, whether it succeeds, is
-- rejected or throws, if the environment does while the request is under way.
pub write-IsValid :
    (send : Option Send) (t i : JsString) (row : Value) (o : Options) (c : Client)
    → IsKind send
    → IsValid c.store
    → IsValid (write send t i row o c).1.store
write-IsValid send t i row o c k v = (Keeps-write send t i row o k).at c v

-- Flushing keeps the write queue well formed, also when a send fails half way through, if the
-- environment does while a request is under way.
pub flush_queue-IsValid :
    (send : Option Send) (o : Option JsString) (c : Client)
    → IsKind send
    → IsValid c.store
    → IsValid (flush_queue send o c).1.store
flush_queue-IsValid send o c k v = (Keeps-flush_queue send o k).at c v
