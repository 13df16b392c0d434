-- ===== src/Client/Outgoing.antt =====
-- `SyncClient` of sdk/src/client.mjs, outgoing side: `write` and `delete`.
use zed_sync.Prelude.{
  ℕ, Bool, true, false, ◌&&◌, if◌then◌else◌, Option, none, some, JsString, codes,
}
use zed_sync.Result.{ok, queue_overflow}
use zed_sync.Hlc.{Hlc}
use zed_sync.Json.{Value, null, truthy}
use zed_sync.Merge.{deep_merge}
use zed_sync.Policy.{WriteMode, local_only, optimistic_await_ack, server_first, server_only}
use zed_sync.Core.{Op, upsert, delete, QueuedWrite}
use zed_sync.Store.{Store, StoredRow, RowMeta, Write, get_row, put_row, remove_row, enqueue}
use zed_sync.Store.Settle.{adopted_meta, settle_ack}
use zed_sync.Client.{
  Exec, ◌>>=◌, ◌>>◌, pure, gets, catch, emit, surface, modify_store, require_capability, may_write,
  write_local, write_acked, write_queued,
}
use zed_sync.Client.Drafts.{
  Draft, Options, Send, WriteResult, acked, committed_or, context, do_send, draft, failed,
  on_device, queued, request,
}

-- `server_first` stores the row after the ack; `server_only` leaves it to the change feed.
unfoldable pub store_acked_as : WriteMode → Draft → Option Hlc → Exec (Unit {0})
unfolding modify_store
store_acked_as server_first d v c =
    modify_store (λ s. put_row s d.table d.id d.row (adopted_meta (committed_or v d.version) c.now))
      c
store_acked_as _ d v c = (ok tt, c)

unfoldable pub store_acked : Draft → Option Hlc → Exec (Unit {0})
unfolding store_acked_as
store_acked d v = store_acked_as d.mode d v

-- The branch of the modes that send first.
unfoldable pub write_server : Option Send → Draft → Exec WriteResult
unfolding store_acked emit surface
write_server send d =
    catch
      (do
        v ← do_send send (request d d.row)
        store_acked d v
        emit (write_acked (context d))
        pure (record { status = acked; version = committed_or v d.version }))
      (λ e. do
        surface e (context d) d.policy
        pure (record { status = failed; version = d.version }))

-- The row that is stored: a partial upsert is merged into the row that is held.
unfoldable pub stored_row : Draft → Option StoredRow → Value
stored_row d none = d.row
stored_row d (some r) = elim d.op [
  | delete ↦ d.row
  | upsert ↦ if d.merge && truthy r.row then deep_merge r.row d.row 0 else d.row
]

-- A dirty write keeps the stamp of the last synchronisation.
unfoldable pub dirty_meta : Draft → Option StoredRow → RowMeta
dirty_meta d none = record { version = d.version; dirty = true; synced_at_ms = none }
dirty_meta d (some r) = record {
  version = d.version;
  dirty = true;
  synced_at_ms = r.meta.synced_at_ms;
}

unfoldable pub put_as : Op → Draft → Option StoredRow → Store → Store
unfolding stored_row dirty_meta
put_as delete d existing s = remove_row s d.table d.id (dirty_meta d existing)
put_as upsert d existing s = put_row s d.table d.id (stored_row d existing) (dirty_meta d existing)

unfoldable pub put_local : Draft → Option StoredRow → Store → Store
unfolding put_as
put_local d existing s = put_as d.op d existing s

abbrev pub queued_write : Draft → Value → Write
queued_write d stored = record {
  table = d.table;
  id = d.id;
  op = d.op;
  payload = stored;
  base_version = d.version;
  key = d.key;
}

-- `onOverflow`, as the constructor wires it.
unfoldable pub overflow : Option QueuedWrite → Exec (Unit {0})
unfolding surface
overflow none = pure tt
overflow (some dropped) = do
  policy ← gets (λ c. c.error_policy)
  surface queue_overflow
      (record { table = dropped.table; id = dropped.id; op = some dropped.op; mode = none }) policy

-- `store.enqueue(...)` with its callback.
unfoldable pub enqueue_write : Write → Exec ℕ
unfolding overflow
enqueue_write w c =
    let r = enqueue c.store w in (overflow r.dropped >> pure r.seq) (record c { store = r.store })

-- `#settleAck`
unfoldable pub settle_write :
    JsString → JsString → ℕ → JsString → Option Hlc → Hlc → Exec (Unit {0})
unfolding modify_store
settle_write table id seq key v base c =
    modify_store
      (λ s.
        (settle_ack s (record {
          table = table;
          id = id;
          seq = seq;
          write_key = key;
          base_version = base;
          committed_version = committed_or v base;
          at = c.now;
        })).0)
      c

-- Whether a failed send is surfaced.
unfoldable pub awaits_ack : WriteMode → Bool
awaits_ack optimistic_await_ack = true
awaits_ack _ = false

-- The send of the optimistic modes.
unfoldable pub send_now : Option Send → Draft → Value → ℕ → Exec WriteResult
unfolding settle_write emit surface awaits_ack
send_now send d stored seq =
    catch
      (do
        v ← do_send send (request d stored)
        settle_write d.table d.id seq d.key v d.version
        emit (write_acked (context d))
        pure (record { status = acked; version = committed_or v d.version }))
      (λ e. do
        emit (write_queued (context d) e)
        (if awaits_ack d.mode then surface e (context d) d.policy else pure tt)
        pure (record { status = queued; version = d.version }))

-- The local part of a write: the row, dirty, and its queue entry.
unfoldable pub write_locally : Draft → Exec (Value × ℕ)
unfolding modify_store put_local enqueue_write emit
write_locally d = do
  existing ← gets (λ c. get_row c.store d.table d.id)
  modify_store (put_local d existing)
  seq ← enqueue_write (queued_write d (stored_row d existing))
  emit (write_local (context d))
  pure (stored_row d existing, seq)

-- `local_only` ends here; the other optimistic modes send now.
unfoldable pub then_send : WriteMode → Option Send → Draft → Value → ℕ → Exec WriteResult
unfolding send_now
then_send local_only send d stored seq = pure (record { status = on_device; version = d.version })
then_send _ send d stored seq = send_now send d stored seq

unfoldable pub write_optimistic : Option Send → Draft → Exec WriteResult
unfolding write_locally then_send
write_optimistic send d = do
  stored_seq ← write_locally d
  then_send d.mode send d stored_seq.0 stored_seq.1

unfoldable pub write_as : WriteMode → Option Send → Draft → Exec WriteResult
unfolding write_server write_optimistic
write_as server_first send d = write_server send d
write_as server_only send d = write_server send d
write_as _ send d = write_optimistic send d

unfoldable pub write_draft : Option Send → Draft → Exec WriteResult
unfolding write_as
write_draft send d = write_as d.mode send d

unfoldable pub write : Option Send → JsString → JsString → Value → Options → Exec WriteResult
unfolding require_capability draft write_draft
write send table id row o = do
  require_capability may_write (codes "write")
  d ← draft table id row o
  write_draft send d

-- `delete(table, id, options)`
unfoldable pub delete_row : Option Send → JsString → JsString → Options → Exec WriteResult
unfolding write
delete_row send table id o = write send table id null (record o { op = some delete })
