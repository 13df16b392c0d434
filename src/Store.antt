-- ===== src/Store.antt =====
-- `MemoryStore` of sdk/src/store.mjs: rows with their sync metadata, the durable write queue with
-- its cap, and the cursors. A method returns the new store with its result.
pub mod Rows
pub mod Queue
pub mod Settle
pub mod Enqueue
pub mod Removal
pub mod Ack
use zed_sync.Prelude.{
  ℕ, suc, ◌+◌, Bool, true, false, not, ◌&&◌, ltb, ◌==◌, if◌then◌else◌, Option, none, some, List, [],
  ◌∷◌, ◌++◌, length, JsString, str_eq,
}
use zed_sync.Hlc.{Hlc}
use zed_sync.Json.{Value, null}
use zed_sync.Dict.{Dict, lookup, insert}
use zed_sync.Core.{Op, LocalRow, QueuedWrite, settle_queued_ack}

pub record RowMeta : Type 0 where
  pub version : Hlc
  pub dirty : Bool
  pub synced_at_ms : Option ℕ

-- A stored row; a tombstone has the row `null`.
pub record StoredRow : Type 0 where
  pub row : Value
  pub meta : RowMeta

pub record Cursor : Type 0 where
  pub cursor : JsString
  pub last_synced_at_ms : ℕ

pub record Store : Type 0 where
  pub rows : Dict StoredRow
  pub queue : List QueuedWrite
  pub seq : ℕ
  pub max_queue_length : ℕ
  pub cursors : Dict Cursor
  -- Entries that left the queue. `pending` hands out the queue's own objects, so a caller may
  -- still hold them; nothing writes to them any more.
  pub detached : List QueuedWrite

abbrev pub default_max_queue_length : ℕ
default_max_queue_length = 10000

-- The separator is U+0000.
abbrev pub row_key : JsString → JsString → JsString
row_key table id = table ++ 0 ∷ id

-- `new MemoryStore({ maxQueueLength })`
unfoldable pub new_store : ℕ → Store
new_store max_queue_length = record {
  rows = [];
  queue = [];
  seq = 0;
  max_queue_length = max_queue_length;
  cursors = [];
  detached = [];
}

unfoldable pub get_row : Store → JsString → JsString → Option StoredRow
get_row s table id = lookup (row_key table id) s.rows

unfoldable pub put_row : Store → JsString → JsString → Value → RowMeta → Store
put_row s table id row meta = record s {
  rows = insert (row_key table id) (record { row = row; meta = meta }) s.rows;
}

unfoldable pub remove_row : Store → JsString → JsString → RowMeta → Store
remove_row s table id meta = record s {
  rows = insert (row_key table id) (record { row = null; meta = meta }) s.rows;
}

-- The write as it is handed to `enqueue`, before it has a sequence number.
pub record Write : Type 0 where
  pub table : JsString
  pub id : JsString
  pub op : Op
  pub payload : Value
  pub base_version : Hlc
  pub key : JsString

-- `{ ...write, seq }`
unfoldable pub with_seq : Write → ℕ → QueuedWrite
with_seq w seq = record {
  table = w.table;
  id = w.id;
  op = w.op;
  payload = w.payload;
  base_version = w.base_version;
  key = w.key;
  seq = seq;
}

-- The test of `queue.find`.
unfoldable pub same_row : JsString → JsString → QueuedWrite → Bool
same_row table id q = str_eq q.table table && str_eq q.id id

unfoldable pub find_row : JsString → JsString → List QueuedWrite → Option QueuedWrite
find_row table id [] = none
find_row table id (q ∷ queue) = if same_row table id q then some q else find_row table id queue

-- `Object.assign(existing, write, { seq: existing.seq })` on the entry that `find` returned.
unfoldable pub coalesce : Write → List QueuedWrite → List QueuedWrite
coalesce w [] = []
coalesce w (q ∷ queue) =
    if same_row w.table w.id q then with_seq w q.seq ∷ queue else q ∷ coalesce w queue

-- `queue.shift()`
unfoldable pub shift : List QueuedWrite → List QueuedWrite × Option QueuedWrite
shift [] = ([], none)
shift (q ∷ queue) = (queue, some q)

pub record Enqueued : Type 0 where
  pub store : Store
  pub seq : ℕ
  -- The write that `onOverflow` is called with.
  pub dropped : Option QueuedWrite

unfoldable pub trim : ℕ → List QueuedWrite → List QueuedWrite × Option QueuedWrite
unfolding shift
trim cap queue = if ltb cap (length queue) then shift queue else (queue, none)

abbrev pub detach : Option QueuedWrite → List QueuedWrite → List QueuedWrite
detach none detached = detached
detach (some q) detached = q ∷ detached

unfoldable pub enqueue_new : Store → Write → Enqueued
unfolding trim with_seq
enqueue_new s w =
    let seq = s.seq + 1 in
    let (queue, dropped) = trim s.max_queue_length (s.queue ++ with_seq w seq ∷ []) in
    record {
      store = record s { queue = queue; seq = seq; detached = detach dropped s.detached };
      seq = seq;
      dropped = dropped;
    }

unfoldable pub enqueue : Store → Write → Enqueued
unfolding enqueue_new
enqueue s w = elim (find_row w.table w.id s.queue) [
  | some existing ↦ record {
    store = record s { queue = coalesce w s.queue };
    seq = existing.seq;
    dropped = none;
  }
  | none ↦ enqueue_new s w
]

-- `queue.find((w) => w.seq === seq)`
unfoldable pub find_seq : ℕ → List QueuedWrite → Option QueuedWrite
find_seq seq [] = none
find_seq seq (q ∷ queue) = if q.seq == seq then some q else find_seq seq queue

-- Detaches the entry of a sequence number, if the queue has one.
abbrev pub detach_seq : ℕ → Store → List QueuedWrite
detach_seq seq s = detach (find_seq seq s.queue) s.detached

unfoldable pub pending : Store → List QueuedWrite
pending s = s.queue

-- `queue.filter((w) => w.seq !== seq)`
unfoldable pub without_seq : ℕ → List QueuedWrite → List QueuedWrite
without_seq seq [] = []
without_seq seq (q ∷ queue) =
    let rest = without_seq seq queue in if q.seq == seq then rest else q ∷ rest

unfoldable pub retire : Store → ℕ → Store
retire s seq = record s { queue = without_seq seq s.queue; detached = detach_seq seq s }

-- The present contents of the queue object with a sequence number: `enqueue` writes to an entry
-- in place, so a holder of the object sees the newer write.
unfoldable pub deref : Store → QueuedWrite → QueuedWrite
deref s w = elim (find_seq w.seq s.queue) [
  | some q ↦ q
  | none ↦ elim (find_seq w.seq s.detached) [ some q ↦ q | none ↦ w ]
]

-- `queue.splice(index, 1)` at the index of that entry.
unfoldable pub splice_seq : ℕ → List QueuedWrite → List QueuedWrite
splice_seq seq [] = []
splice_seq seq (q ∷ queue) = if q.seq == seq then queue else q ∷ splice_seq seq queue

unfoldable pub get_cursor : Store → JsString → Option Cursor
get_cursor s scope = lookup scope s.cursors

unfoldable pub set_cursor : Store → JsString → JsString → ℕ → Store
set_cursor s scope cursor at = record s {
  cursors = insert scope (record { cursor = cursor; last_synced_at_ms = at }) s.cursors;
}
