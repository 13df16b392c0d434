-- ===== src/Client/Local.antt =====
-- The local half of an optimistic write of sdk/src/client.mjs.
use zed_sync.Prelude.{true, Option, none, some, str_eq_refl, ◌≡◌, arith}
use zed_sync.Result.{ok}
use zed_sync.Json.{Value, null}
use zed_sync.Core.{upsert, delete}
use zed_sync.Store.{Store, StoredRow, Write, with_seq, find_row, get_row, enqueue, enqueue_new}
use zed_sync.Store.Rows.{no_nul, get_row-put_row, get_row-remove_row}
use zed_sync.Store.Enqueue.{find-enqueue}
use zed_sync.Client.{Client}
use zed_sync.Client.Outgoing.{stored_row, dirty_meta, put_local, queued_write, write_locally}
use zed_sync.Client.Drafts.{Draft}

-- What the row shows while the write is under way.
unfoldable pub shown : Draft → Option StoredRow → Value
shown d existing = elim d.op [ upsert ↦ stored_row d existing | delete ↦ null ]

abbrev pub existing : Client → Draft → Option StoredRow
existing c d = get_row c.store d.table d.id

abbrev pub payload : Client → Draft → Value
payload c d = stored_row d (existing c d)

-- The outcome of `enqueue` on the store that holds the dirty row.
abbrev pub enqueued : Client → Draft → Store
enqueued c d = put_local d (existing c d) c.store

module _ (c : Client) (d : Draft) where
  rows-enqueue : (s : Store) (w : Write) → (enqueue s w).store.rows ≡ s.rows
  unfolding enqueue enqueue_new
  rows-enqueue s w = ground arith

  get_row-put_local :
      (x : Option StoredRow)
      → no_nul d.table ≡ true
      → get_row (put_local d x c.store) d.table d.id
        ≡ some (record { row = shown d x; meta = dirty_meta d x })
  unfolding put_local shown
  get_row-put_local x n = ground (
    arith,
    get_row-put_row c.store d.table d.id d.table d.id (dirty_meta d x) n n (stored_row d x),
    get_row-remove_row c.store d.table d.id d.table d.id (dirty_meta d x) n n,
    str_eq_refl d.table,
    str_eq_refl d.id,
  )

  abbrev outcome : Store
  outcome = (enqueue (enqueued c d) (queued_write d (payload c d))).store

  -- If the queue does not overflow, the local half returns the payload and its sequence number.
  pub write_locally_returns :
      (enqueue (enqueued c d) (queued_write d (payload c d))).dropped ≡ none
      → ((write_locally d c).0
          ≡ ok (payload c d, (enqueue (enqueued c d) (queued_write d (payload c d))).seq))
        × ((write_locally d c).1.store ≡ outcome)
        × ((write_locally d c).1.now ≡ c.now)
  unfolding write_locally
  write_locally_returns h = ground arith

  -- Unless the queue overflows or the table name has a U+0000, a local write leaves its row dirty
  -- at the write's version, showing the payload (a tombstone for a delete), and the payload in the
  -- queue under the write's key.
  pub write_locally_durable :
      no_nul d.table ≡ true
      → (enqueue (enqueued c d) (queued_write d (payload c d))).dropped ≡ none
      → (get_row (write_locally d c).1.store d.table d.id
          ≡ some (record { row = shown d (existing c d); meta = dirty_meta d (existing c d) }))
        × (find_row d.table d.id (write_locally d c).1.store.queue
            ≡ some (
                with_seq
                  (queued_write d (payload c d))
                  (enqueue (enqueued c d) (queued_write d (payload c d))).seq))
  unfolding get_row
  write_locally_durable n h =
      let (r, s, k) = write_locally_returns h in
      rw s (
        rw (rows-enqueue (enqueued c d) (queued_write d (payload c d)))
            (get_row-put_local (existing c d) n),
        ground (
          arith,
          find-enqueue (enqueued c d) (queued_write d (payload c d)) d.table d.id h,
          str_eq_refl d.table,
          str_eq_refl d.id,
        ),
      )
