-- ===== src/Examples/Writes.antt =====
-- Writes and flushes at concrete clients.
use zed_sync.Prelude.{ap, true, false, Option, some, none, codes, str_eq, ◌≡◌, ◌≢◌, refl}
use zed_sync.Result.{JsError, ok, err}
use zed_sync.Json.{Value, null}
use zed_sync.Hlc.{compare_hlc}
use zed_sync.Dict.{lookup, insert}
use zed_sync.Policy.{optimistic_await_ack, server_only, throw_and_emit}
use zed_sync.Core.{upsert, QueuedWrite}
use zed_sync.Lifecycle.{initial_snapshot}
use zed_sync.Store.{
  StoredRow, with_seq, find_row, find_seq, same_row, get_row, put_row, enqueue, coalesce,
}
use zed_sync.Store.Settle.{adopted_meta}
use zed_sync.Store.Rows.{no_nul}
use zed_sync.Store.Queue.{IsValid}
use zed_sync.Client.{Client, modify_store, emit}
use zed_sync.Client.Outgoing.{
  stored_row, dirty_meta, put_as, put_local, queued_write, enqueue_write, overflow, write_locally,
  send_now, write, write_optimistic,
}
use zed_sync.Client.Drafts.{Send, do_send, Draft, no_options, acked}
use zed_sync.Client.Flush.{flush_one}
use zed_sync.Client.Local.{shown, existing, payload, enqueued, write_locally_durable}
use zed_sync.Client.Ends.{late_ack_keeps_newer_write}
use zed_sync.Client.RoundTrip.{IsUndisturbed, optimistic_round_trip}
use zed_sync.Client.Keeps.Outgoing.{write-IsValid, Keeps-write_locally}
use zed_sync.Client.Alias.{flush_retires_newer_write}
use zed_sync.Examples.Clocks.{at}
use zed_sync.Examples.Stores.{one_note-IsValid, note_write}
use zed_sync.Examples.Clients.{client}

-- A newer write to the row whose slot is taken.
abbrev newer : Draft
newer = record {
  table = codes "notes";
  id = codes "n1";
  row = Value.number 2;
  op = upsert;
  merge = false;
  mode = optimistic_await_ack;
  policy = throw_and_emit;
  version = at 200 0;
  key = codes "k2";
}

-- A server that acknowledges at once, and one that rejects.
abbrev accepting : Option Send
accepting = some (λ r c. (ok (some (at 250 0)), c))

abbrev rejecting : Option Send
rejecting = some (λ r c. (err (JsError.send_failed 503), c))

-- While the request is under way, the newer write is made.
abbrev overtaking : Option Send
overtaking = some (λ r c. (ok (some (at 250 0)), (write_locally newer c).1))

has_room :
    (enqueue (enqueued client newer) (queued_write newer (payload client newer))).dropped ≡ none
unfolding enqueue find_row same_row str_eq put_local put_as put_row stored_row get_row lookup
has_room = refl

write_locally_durable_example :
    (get_row (write_locally newer client).1.store (codes "notes") (codes "n1")
      ≡ some (record {
        row = shown newer (existing client newer);
        meta = dirty_meta newer (existing client newer);
      }))
    × (find_row (codes "notes") (codes "n1") (write_locally newer client).1.store.queue
        ≡ some (
            with_seq
              (queued_write newer (payload client newer))
              (enqueue (enqueued client newer) (queued_write newer (payload client newer))).seq))
unfolding no_nul
write_locally_durable_example = write_locally_durable client newer refl has_room

abbrev sent : Client
sent = (write_locally newer client).1

undisturbed : IsUndisturbed accepting newer client sent (some (at 250 0))
unfolding do_send no_nul compare_hlc
undisturbed = record {
  valid = one_note-IsValid;
  named = refl;
  room = has_room;
  answer = refl;
  quiet = refl;
  not_older = λ e. cc;
  sends = λ e. cc;
}

optimistic_round_trip_example :
    ((write_optimistic accepting newer client).0
      ≡ ok (record { status = acked; version = at 250 0 }))
    × (get_row (write_optimistic accepting newer client).1.store (codes "notes") (codes "n1")
        ≡ some (record {
          row = shown newer (existing client newer);
          meta = adopted_meta (at 250 0) sent.now;
        }))
    × (find_row (codes "notes") (codes "n1") (write_optimistic accepting newer client).1.store.queue
        ≡ none)
optimistic_round_trip_example =
    optimistic_round_trip accepting newer client sent (some (at 250 0)) undisturbed

-- The write whose slot the newer write takes over.
abbrev older : Draft
older = record newer { version = at 100 1; key = codes "k1" }

abbrev first : QueuedWrite
first = with_seq (note_write (codes "n1") 1 (codes "k1")) 1

abbrev second : QueuedWrite
second = with_seq (queued_write newer (Value.number 2)) 1

taken_over : find_seq 1 sent.store.queue ≡ some second
unfolding write_locally put_local put_as stored_row enqueue_write overflow emit modify_store enqueue
    find_row find_seq same_row str_eq put_row with_seq get_row lookup coalesce
taken_over = refl

keys_differ : second.key ≢ older.key
unfolding with_seq str_eq
keys_differ e = let h = ap (λ k. str_eq k (codes "k2")) e in cc

late_ack_keeps_newer_write_example :
    (send_now overtaking older (Value.number 1) 1 client).1.store ≡ sent.store
unfolding do_send
late_ack_keeps_newer_write_example =
    late_ack_keeps_newer_write overtaking older client sent (Value.number 1) 1 (some (at 250 0))
      second refl ((Keeps-write_locally newer).at client one_note-IsValid).ascending taken_over
      keys_differ

abbrev dirty_row : StoredRow
dirty_row = record {
  row = Value.number 2;
  meta = record { version = at 200 0; dirty = true; synced_at_ms = none };
}

row_taken_over : get_row sent.store (codes "notes") (codes "n1") ≡ some dirty_row
unfolding write_locally put_local put_as stored_row dirty_meta enqueue_write overflow emit
    modify_store enqueue find_row same_row str_eq put_row get_row lookup insert coalesce
row_taken_over = refl

first_queued : find_seq 1 client.store.queue ≡ some first
unfolding find_seq with_seq
first_queued = refl

flush_retires_newer_write_example :
    (find_seq 1 (flush_one overtaking first client).1.store.queue ≡ none)
    × (get_row (flush_one overtaking first client).1.store (codes "notes") (codes "n1")
        ≡ some (record { row = Value.number 2; meta = adopted_meta (at 250 0) sent.now }))
unfolding do_send no_nul compare_hlc with_seq
flush_retires_newer_write_example =
    flush_retires_newer_write overtaking client sent first first second dirty_row (at 250 0)
      first_queued refl ((Keeps-write_locally newer).at client one_note-IsValid) taken_over refl
      row_taken_over refl (λ e. cc)

write-IsValid_example :
    IsValid (write overtaking (codes "notes") (codes "n1") null no_options client).1.store
write-IsValid_example =
    write-IsValid overtaking (codes "notes") (codes "n1") null no_options client
      (λ r. record { at = λ c v. (Keeps-write_locally newer).at c v }) one_note-IsValid

abbrev stopped : Client
stopped = record client { lifecycle = some (initial_snapshot 0) }

abbrev server_draft : Draft
server_draft = record newer { mode = server_only }
