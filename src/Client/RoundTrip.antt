-- ===== src/Client/RoundTrip.antt =====
-- An optimistic write of sdk/src/client.mjs that is acknowledged: local first, then settled.
use zed_sync.Prelude.{
  ℕ, Ordering, true, Option, none, some, JsString, str_eq_refl, ◌≡◌, ◌≢◌, refl, arith, ◌∙◌,
}
use zed_sync.Result.{ok}
use zed_sync.Hlc.{Hlc, compare_hlc}
use zed_sync.Json.{Value}
use zed_sync.Policy.{WriteMode, local_only}
use zed_sync.Core.{QueuedWrite}
use zed_sync.Store.{Store, StoredRow, with_seq, find_row, get_row, put_row, retire, enqueue}
use zed_sync.Store.Settle.{AckOptions, adopted_meta, settle_ack}
use zed_sync.Store.Rows.{no_nul, get_row-put_row}
use zed_sync.Store.Queue.{IsValid}
use zed_sync.Store.Removal.{find_seq-find_row, find_row-without}
use zed_sync.Store.Ack.{Matches, settle_ack-Matches}
use zed_sync.Client.{Client}
use zed_sync.Client.Outgoing.{
  dirty_meta, queued_write, then_send, send_now, write_locally, write_optimistic,
}
use zed_sync.Client.Drafts.{Send, request, committed_or, acked, Draft}
use zed_sync.Client.Local.{
  existing, payload, shown, enqueued, write_locally_returns, write_locally_durable,
}
use zed_sync.Client.Keeps.Outgoing.{Keeps-write_locally}
use zed_sync.Client.Ends.{Answers, ack_options}

-- The row and the slot after the settlement of an entry of the row.
module _ (s : Store) (o : AckOptions) (r : StoredRow) (q : QueuedWrite) (v : IsValid s)
    (m : Matches s o q r) where
  settled-row :
      no_nul o.table ≡ true
      → get_row (settle_ack s o).0 o.table o.id
        ≡ some (record { row = r.row; meta = adopted_meta o.committed_version o.at })
  settled-row n = rw (settle_ack-Matches s o q r v.ascending m) (
      ground (
        arith,
        get_row-put_row (retire s o.seq) o.table o.id o.table o.id
            (adopted_meta o.committed_version o.at) n n r.row,
        str_eq_refl o.table,
        str_eq_refl o.id,
      ))

  settled-slot :
      (table id : JsString)
      → find_row table id s.queue ≡ some q
      → q.seq ≡ o.seq
      → find_row table id (settle_ack s o).0.queue ≡ none
  unfolding put_row retire
  settled-slot table id f e =
      rw (settle_ack-Matches s o q r v.ascending m)
        (ground (arith, find_row-without table id o.seq s.queue v.ascending v.one_slot))

send_now_settles :
    (send : Option Send) (d : Draft) (c c' : Client) (n : ℕ) (ack : Option Hlc) (p : Value)
    → Answers send (request d p) c (ok ack) c'
    → ((send_now send d p n c).0
        ≡ ok (record { status = acked; version = committed_or ack d.version }))
      × ((send_now send d p n c).1.store ≡ (settle_ack c'.store (ack_options c' d n ack)).0)
unfolding send_now
send_now_settles send d c c' n ack p a = ground arith

then_send_sends :
    (m : WriteMode) (send : Option Send) (d : Draft) (v : Value) (n : ℕ)
    → m ≢ local_only
    → then_send m send d v n ≡ send_now send d v n
unfolding then_send
then_send_sends local_only send d v n h = absurd (h refl)
then_send_sends _ send d v n h = refl

module _ (send : Option Send) (d : Draft) (c c' : Client) (ack : Option Hlc) where
  -- The number of the queue entry.
  abbrev slot : ℕ
  slot = (enqueue (enqueued c d) (queued_write d (payload c d))).seq

  abbrev committed : Hlc
  committed = committed_or ack d.version

  -- What the round trip needs: a well-formed queue with room, an answer with a version that is not
  -- older than the write's, and nothing else happening to the store meanwhile.
  pub record IsUndisturbed : Type 0 where
    pub valid : IsValid c.store
    pub named : no_nul d.table ≡ true
    pub room : (enqueue (enqueued c d) (queued_write d (payload c d))).dropped ≡ none
    pub answer : Answers send (request d (payload c d)) (write_locally d c).1 (ok ack) c'
    pub quiet : c'.store ≡ (write_locally d c).1.store
    pub not_older : compare_hlc d.version committed ≢ Ordering.gt
    pub sends : d.mode ≢ local_only

  module _ (u : IsUndisturbed) where
    sent_entry : QueuedWrite
    sent_entry = with_seq (queued_write d (payload c d)) slot

    sent_row : StoredRow
    sent_row = record { row = shown d (existing c d); meta = dirty_meta d (existing c d) }

    durable :
        (get_row c'.store d.table d.id ≡ some sent_row)
        × (find_row d.table d.id c'.store.queue ≡ some sent_entry)
    unfolding sent_row sent_entry
    durable = rw (u.quiet) (write_locally_durable c d u.named u.room)

    valid_after : IsValid c'.store
    valid_after = rw (u.quiet) ((Keeps-write_locally d).at c u.valid)

    dirty_version : sent_row.meta.version ≡ d.version
    unfolding sent_row dirty_meta
    dirty_version = ground arith

    matches : Matches c'.store (ack_options c' d slot ack) sent_entry sent_row
    unfolding sent_entry with_seq
    matches = record {
      found =
          find_seq-find_row d.table d.id c'.store.queue sent_entry valid_after.ascending durable.1;
      stored = durable.0;
      same_id = refl;
      same_key = refl;
      same_base = dirty_version;
      not_past = u.not_older;
    }

    abbrev o : AckOptions
    o = ack_options c' d slot ack

    local_then_send :
        write_optimistic send d c ≡ send_now send d (payload c d) slot (write_locally d c).1
    unfolding write_optimistic
    local_then_send = rw (
      (write_locally_returns c d u.room).0,
      then_send_sends d.mode send d (payload c d) slot u.sends,
    )

    entry_seq : sent_entry.seq ≡ slot
    unfolding sent_entry with_seq
    entry_seq = refl

    shown_row :
        ◌≡◌ {A = Option StoredRow}
          (some (record { row = sent_row.row; meta = adopted_meta committed c'.now }))
          (some (record { row = shown d (existing c d); meta = adopted_meta committed c'.now }))
    unfolding sent_row
    shown_row = refl

    -- An optimistic write, with room in the queue and no U+0000 in the table name, that is
    -- acknowledged with a version not older than its own while nothing else touches the store: it
    -- reports the committed version, its row shows the payload, clean, at that version, and its
    -- slot in the queue is empty again.
    pub optimistic_round_trip :
        ((write_optimistic send d c).0 ≡ ok (record { status = acked; version = committed }))
        × (get_row (write_optimistic send d c).1.store d.table d.id
            ≡ some (record { row = shown d (existing c d); meta = adopted_meta committed c'.now }))
        × (find_row d.table d.id (write_optimistic send d c).1.store.queue ≡ none)
    optimistic_round_trip =
        let (r, s) =
          send_now_settles send d (write_locally d c).1 c' slot ack (payload c d) u.answer in
        rw local_then_send (
          r,
          rw s (settled-row c'.store o sent_row sent_entry valid_after matches u.named ∙ shown_row),
          rw s (
              settled-slot c'.store o sent_row sent_entry valid_after matches d.table d.id
                (durable.1) entry_seq),
        )
